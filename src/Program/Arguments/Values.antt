-- ===== src/Program/Arguments/Values.antt =====
-- src/core/startup.cpp: what each option of the command line gives.
use neo_group_captcha_bot.Common.{
  ◌≡◌, ◌++◌, none, some, ℤ, Bytes, codes, length, drop, ltb, starts_with, if◌then◌else◌, arith,
}
use neo_group_captcha_bot.Program.Arguments.{Settings, read_argument}

-- `--api-id=`, `--api-hash=` and `--user-phone=` set one setting each to the text after them (the
-- first as a number) and leave the others. `--bot-token=` drops the first three bytes of the text
-- after it, and reads past the end of an argument that has fewer.
option_values :
    (atoi : Bytes → ℤ) (s : Settings) (t : Bytes)
    → (read_argument atoi s (codes "--api-id=" ++ t) ≡ some (record s { tg_api_id = atoi t }))
      × (read_argument atoi s (codes "--api-hash=" ++ t) ≡ some (record s { tg_api_hash = t }))
      × (read_argument atoi s (codes "--user-phone=" ++ t) ≡ some (record s { tg_user_phone = t }))
      × (read_argument atoi s (codes "--bot-token=" ++ t)
          ≡ (if ltb (length t) 3 then none else some (record s { tg_bot_token = drop 3 t })))
unfolding read_argument starts_with
option_values atoi s t = ground arith
