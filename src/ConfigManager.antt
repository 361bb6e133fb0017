-- ===== src/ConfigManager.antt =====
-- src/utils/config/ConfigManager.cpp: the stores of the program. MMKV is not part of the program: the
-- store of a name, if it can be opened, is a parameter, and so is the type of a store.
pub mod Names
pub mod Ends
use neo_group_captcha_bot.Common.{
  ℕ, ◌≡◌, ◌++◌, Bool, true, false, List, [], ◌∷◌, Option, none, some, ℤ, Bytes, codes, is_empty,
  if◌then◌else◌,
}
use neo_group_captcha_bot.FileMemMap.{Result, gives, fails}
use neo_group_captcha_bot.FileUtils.{FileKind, is_dir_exists}
use neo_group_captcha_bot.TextUtils.RoundTrip.{print_signed}

-- The static members.
pub record ConfigManager (K : Type 0) : Type 0 where
  pub default_config : Option K
  pub default_cache : Option K
  pub config_path : Bytes

-- A call returns, or throws a `std::runtime_error`.
pub data Outcome : Type 0 where
  returned : Outcome
  threw : Outcome

abbrev pub default_config_id : Bytes
default_config_id = codes "default_config"

abbrev pub default_cache_id : Bytes
default_cache_id = codes "default_cache"

-- From `MMKV::initializeMMKV` on.
abbrev both : {K : Type 0} → Option K → Option K → Outcome
both (some config) (some cache) = returned
both none cache = threw
both (some config) none = threw

unfoldable pub open_stores : {K : Type 0} → (Bytes → Option K) → Bytes → ConfigManager K × Outcome
open_stores with_id path = (
  record {
    default_config = with_id default_config_id;
    default_cache = with_id default_cache_id;
    config_path = path;
  },
  both (with_id default_config_id) (with_id default_cache_id),
)

-- `mkdir`, if the directory is not there.
abbrev pub is_made : Bool → Result → Bool
is_made true mkdir = true
is_made false (gives value) = true
is_made false (fails err) = false

unfoldable pub initialize :
    {K : Type 0}
    → (Bytes → Option K)
    → ConfigManager K
    → Bytes
    → Option FileKind
    → Result
    → ConfigManager K × Outcome
unfolding open_stores is_dir_exists
initialize with_id s path stat mkdir =
    if is_empty path
    then (s, threw)
    else if is_made (is_dir_exists stat) mkdir
    then open_stores with_id path
    else (s, threw)

-- `getDefaultConfig`, `getCache` and `forAccount`: `none` where they throw.
unfoldable pub get_default_config : {K : Type 0} → ConfigManager K → Option K
get_default_config s = s.default_config

unfoldable pub get_cache : {K : Type 0} → ConfigManager K → Option K
get_cache s = s.default_cache

unfoldable pub account_id : ℤ → Bytes
account_id uin = codes "u_" ++ print_signed 10 uin

unfoldable pub for_account : {K : Type 0} → (Bytes → Option K) → ConfigManager K → ℤ → Option K
unfolding account_id
for_account with_id s uin = if is_empty s.config_path then none else with_id (account_id uin)
