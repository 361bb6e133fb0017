-- ===== src/AutoCloseFd/Once.antt =====
-- src/utils/auto_close_fd.cpp: what happens to a descriptor.
use neo_group_captcha_bot.Common.{
  ℕ, zero, suc, ◌≡◌, refl, ap, ◌∙◌, List, [], ◌∷◌, ◌++◌, append-nil, pos, negsuc,
}
use neo_group_captcha_bot.AutoCloseFd.{
  new, CloseResult, ends, interrupted, Event, close_called, handed_over, retry_close, close, detach,
  destroy, Call, call_close, call_detach, call_valid, call_get, step, run,
}

-- The interruptions before the first result that is none.
abbrev pub interruptions : List CloseResult → ℕ
interruptions [] = 0
interruptions (ends ∷ rs) = 0
interruptions (interrupted ∷ rs) = suc (interruptions rs)

abbrev pub times : ℕ → Event → List Event
times zero e = []
times (suc n) e = e ∷ times n e

retry_close_lem :
    (fd : ℕ) (rs : List CloseResult)
    → retry_close fd rs ≡ times (suc (interruptions rs)) (close_called fd)
unfolding retry_close
retry_close_lem fd [] = refl
retry_close_lem fd (ends ∷ rs) = refl
retry_close_lem fd (interrupted ∷ rs) = ap (◌∷◌ (close_called fd)) (retry_close_lem fd rs)

-- Without a descriptor nothing happens.
run-nothing :
    (calls : List Call) (last : List CloseResult) (n : ℕ)
    → run calls last (record { fd = negsuc n }) ≡ []
unfolding run step close detach destroy
run-nothing [] last n = refl
run-nothing (call_close rs ∷ cs) last n = run-nothing cs last n
run-nothing (call_detach ∷ cs) last n = run-nothing cs last 0
run-nothing (call_valid ∷ cs) last n = run-nothing cs last n
run-nothing (call_get ∷ cs) last n = run-nothing cs last n

-- The first of the calls that gives the descriptor up says what happens to it.
abbrev pub fate : List Call → List CloseResult → ℕ → List Event
fate [] last fd = times (suc (interruptions last)) (close_called fd)
fate (call_close rs ∷ cs) last fd = times (suc (interruptions rs)) (close_called fd)
fate (call_detach ∷ cs) last fd = handed_over fd ∷ []
fate (call_valid ∷ cs) last fd = fate cs last fd
fate (call_get ∷ cs) last fd = fate cs last fd

-- Whatever its owner calls before the destructor: if `detach` is called before any `close`, the
-- descriptor is handed over and `::close` is never called with it; otherwise either the first `close`
-- or the destructor gives it up, and `::close` is called with it once, and once more for each time
-- that it is interrupted.
pub run_lem :
    (calls : List Call) (last : List CloseResult) (fd : ℕ)
    → run calls last (new (pos fd)) ≡ fate calls last fd
unfolding run step close detach destroy new
run_lem [] last fd = retry_close_lem fd last
run_lem (call_close rs ∷ cs) last fd =
    ap (λ l. retry_close fd rs ++ l) (run-nothing cs last 0)
    ∙ append-nil (retry_close fd rs)
    ∙ retry_close_lem fd rs
run_lem (call_detach ∷ cs) last fd = ap (◌∷◌ (handed_over fd)) (run-nothing cs last 0)
run_lem (call_valid ∷ cs) last fd = run_lem cs last fd
run_lem (call_get ∷ cs) last fd = run_lem cs last fd
