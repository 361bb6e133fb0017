-- ===== src/Examples/Maps.antt =====
-- src/utils/HashMap.h and src/utils/ConcurrentHashMap.h on small maps.
use neo_group_captcha_bot.Common.{ℕ, ◌≡◌, refl, true, List, [], ◌∷◌, none, nat_eq}
use neo_group_captcha_bot.UnorderedMap.{find}
use neo_group_captcha_bot.HashMap
use neo_group_captcha_bot.HashMap.{HashMap}
use neo_group_captcha_bot.HashMap.Laws as HashMapLaws
use neo_group_captcha_bot.ConcurrentHashMap
use neo_group_captcha_bot.ConcurrentHashMap.{
  ConcurrentHashMap, Call, removes, puts, puts_if_absent, step, flag, nothing,
}
use neo_group_captcha_bot.ConcurrentHashMap.Laws.{IsWf, step_refines}
use neo_group_captcha_bot.Dictionary.{answers}
use neo_group_captcha_bot.Dictionary.Implementations.{
  hash_map, concurrent_hash_map, functions, maps_alike,
}

abbrev ages : HashMap ℕ ℕ
ages = record { backend = (1, 10) ∷ (2, 20) ∷ [] }

ages-IsWf : HashMapLaws.IsWf ages
unfolding find
ages-IsWf = record { distinct = (refl, (refl, tt)) }

abbrev shared : ConcurrentHashMap ℕ ℕ
shared = record { backend = (1, 10) ∷ (2, 20) ∷ [] }

shared-IsWf : IsWf shared
unfolding find
shared-IsWf = record { distinct = (refl, (refl, tt)) }

step_refines_example :
    (ConcurrentHashMap.get (step (removes 1) shared).0 1 ≡ none)
    × ((step (removes 1) shared).1 ≡ flag true)
    × IsWf (step (removes 1) shared).0
unfolding ConcurrentHashMap.get find
step_refines_example = step_refines (removes 1) shared 1 shared-IsWf

abbrev calls : List (Call ℕ ℕ)
calls = puts 1 10 ∷ puts_if_absent 1 11 ∷ removes 1 ∷ []

maps_alike_example :
    (answers hash_map calls HashMap.empty ≡ answers functions calls (λ k. none))
    × (answers concurrent_hash_map calls ConcurrentHashMap.empty
        ≡ answers hash_map calls HashMap.empty)
maps_alike_example = maps_alike calls
