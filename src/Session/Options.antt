-- ===== src/Session/Options.antt =====
-- src/core/manager/ClientSession.cpp: `handleUpdateOption`, and the server's clock. The local time
-- in milliseconds, which the code reads from the system's clock, is an argument.
pub mod Time
use neo_group_captcha_bot.Common.{
  ℕ, ◌+◌, ◌-◌, ◌*◌, ◌/◌, ◌%◌, Bool, true, false, Option, none, some, ℤ, Bytes, codes, bytes_eq,
  to_u64, two_64, if◌then◌else◌,
}
use neo_group_captcha_bot.Td.{OptionValue, option_value_integer}
use neo_group_captcha_bot.State.{ClientSession, Exit, returned, null_read}

-- `serverTimeSeconds - localTimeSeconds` in uint64_t.
abbrev pub delta_seconds : ℤ → ℕ → ℕ
delta_seconds server now = (to_u64 server + two_64 - now / 1000) % two_64

-- `name == "…" && object->get_id() == optionValueInteger::ID`, with what is done then.
abbrev on_integer :
    Bool
    → Option OptionValue
    → (ℤ → ClientSession)
    → ClientSession × Exit
    → ClientSession
    → ClientSession × Exit
on_integer false object set rest s = rest
on_integer true none set rest s = (s, null_read)
on_integer true (some (option_value_integer value)) set rest s = (set value, returned true)
on_integer true (some _) set rest s = rest

-- A name that is one of the three has its value read with no test for null.
unfoldable pub handle_update_option :
    ClientSession → ℕ → Bytes → Option OptionValue → ClientSession × Exit
handle_update_option s now name object =
    on_integer (bytes_eq name (codes "my_id")) object (λ v. record s { user_id = v })
      (on_integer (bytes_eq name (codes "authorization_date")) object
        (λ v. record s { authorization_date = to_u64 v })
        (on_integer (bytes_eq name (codes "unix_time")) object
          (λ v. record s { server_time_delta_seconds = delta_seconds v now }) (s, returned true) s)
        s)
      s

unfoldable pub get_server_time_seconds : ClientSession → ℕ → ℕ
get_server_time_seconds s now = (now / 1000 + s.server_time_delta_seconds) % two_64

unfoldable pub get_server_time_millis : ClientSession → ℕ → ℕ
get_server_time_millis s now = (now + s.server_time_delta_seconds * 1000 % two_64) % two_64
