-- ===== src/AutoCloseFd.antt =====
-- src/utils/auto_close_fd.cpp and src/utils/auto_close_fd.h: a descriptor that is closed with its
-- owner.
pub mod Once
use neo_group_captcha_bot.Common.{
  ℕ, Bool, true, false, List, [], ◌∷◌, ◌++◌, ℤ, pos, negsuc, is_neg, not,
}

pub record AutoCloseFd : Type 0 where
  pub fd : ℤ

-- `auto_close_fd(fd)`.
unfoldable pub new : ℤ → AutoCloseFd
new fd = record { fd = fd }

unfoldable pub valid : AutoCloseFd → Bool
valid s = not (is_neg s.fd)

unfoldable pub get : AutoCloseFd → ℤ
get s = s.fd

-- What `::close` gives: it ends, with an error or without, or it fails with EINTR.
pub data CloseResult : Type 0 where
  ends : CloseResult
  interrupted : CloseResult

-- What happens to a descriptor: `::close` is called with it, or the caller of `detach` has it now.
pub data Event : Type 0 where
  close_called : ℕ → Event
  handed_over : ℕ → Event

-- `TEMP_FAILURE_RETRY(::close(fd))`, with what the calls give one after the other; a call of which
-- nothing is said ends.
unfoldable pub retry_close : ℕ → List CloseResult → List Event
retry_close fd [] = close_called fd ∷ []
retry_close fd (ends ∷ rs) = close_called fd ∷ []
retry_close fd (interrupted ∷ rs) = close_called fd ∷ retry_close fd rs

abbrev closes : ℤ → List CloseResult → List Event
closes (pos fd) rs = retry_close fd rs
closes (negsuc n) rs = []

abbrev hands_over : ℤ → List Event
hands_over (pos fd) = handed_over fd ∷ []
hands_over (negsuc n) = []

abbrev unset : ℤ → ℤ
unset (pos fd) = negsuc 0
unset (negsuc n) = negsuc n

unfoldable pub close : AutoCloseFd → List CloseResult → AutoCloseFd × List Event
close s rs = (record { fd = unset s.fd }, closes s.fd rs)

-- What it returns is the descriptor that is handed over, or a negative number.
unfoldable pub detach : AutoCloseFd → AutoCloseFd × List Event
detach s = (record { fd = negsuc 0 }, hands_over s.fd)

-- The destructor.
unfoldable pub destroy : AutoCloseFd → List CloseResult → List Event
destroy s rs = closes s.fd rs

-- The calls of its owner, those that close with what `::close` gives.
pub data Call : Type 0 where
  call_close : List CloseResult → Call
  call_detach : Call
  call_valid : Call
  call_get : Call

unfoldable pub step : Call → AutoCloseFd → AutoCloseFd × List Event
unfolding close detach
step (call_close rs) s = close s rs
step call_detach s = detach s
step call_valid s = (s, [])
step call_get s = (s, [])

-- The calls, and then the destructor with the results that it meets.
unfoldable pub run : List Call → List CloseResult → AutoCloseFd → List Event
unfolding step destroy
run [] rs s = destroy s rs
run (c ∷ cs) rs s = let (s', events) = step c s in events ++ run cs rs s'
