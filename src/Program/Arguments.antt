-- ===== src/Program/Arguments.antt =====
-- src/core/startup.cpp: how `main` takes its settings from the command line and the environment.
-- `atoi` and `getenv` are parameters.
pub mod Values
use neo_group_captcha_bot.Common.{
  ℕ, ◌+◌, Bool, true, false, ◌&&◌, ◌||◌, not, List, [], ◌∷◌, Option, none, some, ℤ, pos, negsuc,
  Bytes, codes, is_empty, length, drop, ltb, ltb_ℤ, starts_with, if◌then◌else◌,
}

pub record Settings : Type 0 where
  pub tg_api_id : ℤ
  pub tg_api_hash : Bytes
  pub tg_bot_token : Bytes
  pub tg_user_phone : Bytes

-- How the settings are taken: `main` goes on with them, it prints the usage and returns 1, or it has
-- read past the end of an argument.
pub data Start : Type 0 where
  goes_on : Settings → Start
  prints_usage : Start
  reads_past_end : Start

abbrev pub no_settings : Settings
no_settings = record { tg_api_id = pos 0; tg_api_hash = []; tg_bot_token = []; tg_user_phone = [] }

-- The text at `argv[i] + n`; `none` if that is past the end.
abbrev pub text_from : Bytes → ℕ → Option Bytes
text_from arg n = if ltb (length arg) n then none else some (drop n arg)

abbrev set_with : (Bytes → Settings) → Option Bytes → Option Settings
set_with set none = none
set_with set (some text) = some (set text)

abbrev is_missing : ℤ → Bool
is_missing id = not (ltb_ℤ (pos 0) id)

abbrev pub is_complete : Settings → Bool
is_complete s = not (
    is_missing s.tg_api_id
    || (is_empty s.tg_api_hash || (is_empty s.tg_bot_token || is_empty s.tg_user_phone)))

module _ (atoi : Bytes → ℤ) where
  -- The body of the loop over `argv`.
  unfoldable pub read_argument : Settings → Bytes → Option Settings
  unfolding starts_with
  read_argument s arg =
      if starts_with (codes "--api-id=") arg
      then set_with (λ t. record s { tg_api_id = atoi t })
          (text_from arg (length (codes "--api-id=")))
      else if starts_with (codes "--api-hash=") arg
      then set_with (λ t. record s { tg_api_hash = t })
          (text_from arg (length (codes "--api-hash=")))
      else if starts_with (codes "--bot-token=") arg
      then set_with (λ t. record s { tg_bot_token = t })
          (text_from arg (length (codes "--tg-bot-token=")))
      else if starts_with (codes "--user-phone=") arg
      then set_with (λ t. record s { tg_user_phone = t })
          (text_from arg (length (codes "--user-phone=")))
      else some s

  unfoldable pub read_arguments : Settings → List Bytes → Option Settings
  read_arguments s [] = some s
  read_arguments s (arg ∷ args) = elim (read_argument s arg) [
    | none ↦ none
    | some s' ↦ read_arguments s' args
  ]

  module _ (getenv : Bytes → Option Bytes) where
    abbrev or_environment : Bytes → Bytes → Bytes
    or_environment name text =
        if is_empty text then elim (getenv name) [ none ↦ text | some env ↦ env ] else text

    unfoldable pub read_environment : Settings → Settings
    read_environment s = record {
      tg_api_id =
          if is_missing s.tg_api_id
          then elim (getenv (codes "TG_API_ID")) [ none ↦ s.tg_api_id | some env ↦ atoi env ]
          else s.tg_api_id;
      tg_api_hash = or_environment (codes "TG_API_HASH") s.tg_api_hash;
      tg_bot_token = or_environment (codes "TG_BOT_TOKEN") s.tg_bot_token;
      tg_user_phone = or_environment (codes "TG_USER_PHONE") s.tg_user_phone;
    }

    unfoldable pub start : List Bytes → Start
    unfolding read_arguments read_environment
    start args = elim (read_arguments no_settings args) [
      | none ↦ reads_past_end
      | some s ↦
          if is_complete (read_environment s) then goes_on (read_environment s) else prints_usage
    ]
