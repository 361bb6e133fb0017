-- ===== src/ConfigManager/Ends.antt =====
-- src/utils/config/ConfigManager.cpp: every end of `initialize`.
use neo_group_captcha_bot.Common.{
  ℕ, ◌≡◌, refl, ◌⊎◌, inl, inr, false, [], ◌∷◌, Option, none, some, ℤ, Bytes, Bool-cases,
  Option-cases,
}
use neo_group_captcha_bot.FileUtils.{FileKind, is_dir_exists}
use neo_group_captcha_bot.FileMemMap.{Result}
use neo_group_captcha_bot.ConfigManager.{
  ConfigManager, Outcome, returned, threw, default_config_id, default_cache_id, open_stores,
  is_made, initialize, get_default_config, get_cache, account_id, for_account,
}

-- After it returned, the two stores are there, and each account has the store of its name.
abbrev pub IsInitialized : {K : Type 0} → (Bytes → Option K) → ConfigManager K → Type 0
IsInitialized {K = K} with_id s =
    ((config : K) × (get_default_config s ≡ some config)
      × (with_id default_config_id ≡ some config))
    × ((cache : K) × (get_cache s ≡ some cache) × (with_id default_cache_id ≡ some cache))
    × ((uin : ℤ) → for_account with_id s uin ≡ with_id (account_id uin))

-- Its ends from the opening of the stores on.
abbrev pub IsOpenEnd :
    {K : Type 0} → (Bytes → Option K) → Bytes → ConfigManager K × Outcome → Type 0
IsOpenEnd with_id path (s, outcome) =
    ((outcome ≡ returned) × IsInitialized with_id s)
    ⊎ ((outcome ≡ threw)
        × (s.config_path ≡ path)
        × ((with_id default_config_id ≡ none) ⊎ (with_id default_cache_id ≡ none)))

open_stores-IsOpenEnd :
    {K : Type 0} (with_id : Bytes → Option K) (c : ℕ) (cs : Bytes)
    → IsOpenEnd with_id (c ∷ cs) (open_stores with_id (c ∷ cs))
unfolding open_stores get_default_config get_cache for_account
open_stores-IsOpenEnd with_id c cs = elim (Option-cases (with_id default_config_id)) [
  | inl n ↦ rw n (inr (refl, refl, inl refl))
  | inr (config, e) ↦ elim (Option-cases (with_id default_cache_id)) [
    | inl n ↦ rw (e, n) (inr (refl, refl, inr refl))
    | inr (cache, d) ↦
        rw (e, d) (inl (refl, ((config, refl, refl), (cache, refl, refl), λ uin. refl)))
  ]
]

-- `initialize` returns if the path is not empty, the directory is there or made, and both stores
-- open; then both stores are there, and each account has the store of its name. It throws otherwise: and
-- then either nothing has changed, or one of the stores did not open and the path is set already.
initialize_lem :
    {K : Type 0} (with_id : Bytes → Option K) (s : ConfigManager K) (path : Bytes)
    (stat : Option FileKind) (mkdir : Result)
    → ((initialize with_id s path stat mkdir ≡ (s, threw))
        × ((path ≡ []) ⊎ (is_made (is_dir_exists stat) mkdir ≡ false)))
      ⊎ IsOpenEnd with_id path (initialize with_id s path stat mkdir)
unfolding initialize
initialize_lem with_id s [] stat mkdir = inl (refl, inl refl)
initialize_lem with_id s (c ∷ cs) stat mkdir =
    elim (Bool-cases (is_made (is_dir_exists stat) mkdir)) [
      | inr f ↦ rw f (inl (refl, inr refl))
      | inl t ↦ rw t (inr (open_stores-IsOpenEnd with_id c cs))
    ]
