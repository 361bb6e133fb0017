-- ===== src/HashMap/Refinement.antt =====
-- src/utils/HashMap.h against what a map is: a function from keys to values. Each operation of the
-- class is compared with the change, or the answer, that it stands for.
use neo_group_captcha_bot.Common.{◌≡◌, refl, ◌&&◌, Option, none, some, Eq, if◌then◌else◌}
use neo_group_captcha_bot.UnorderedMap.{is_some}
use neo_group_captcha_bot.UnorderedMap.Laws.{overlay}
use neo_group_captcha_bot.HashMap.{
  HashMap, clear, get, put, put_if_absent, remove, set_value, put_all,
}
use neo_group_captcha_bot.HashMap.Laws.{
  IsWf, get-put, get-remove, get-put_all, get-set_value, put-IsWf, remove-IsWf, set_value-IsWf,
  put_all-IsWf, put_if_absent-IsWf, get-put_if_absent,
}

pub data Op {ℓ} (K V : Type ℓ) : Type ℓ where
  puts : K → V → Op K V
  puts_if_absent : K → V → Op K V
  removes : K → Op K V
  sets_value : K → V → Op K V
  puts_all : HashMap K V → Op K V
  clears : Op K V

module _ {ℓ} {K V : Type ℓ} ⦃e : Eq K⦄ where
  -- The map after a call.
  unfoldable pub run : Op K V → HashMap K V → HashMap K V
  run (puts k v) m = put m k v
  run (puts_if_absent k v) m = (put_if_absent m k v).0
  run (removes k) m = (remove m k).0
  run (sets_value k v) m = set_value m k v
  run (puts_all n) m = put_all m n
  run clears m = clear m

  -- What the call does to a function from keys to values.
  abbrev pub meaning : Op K V → (K → Option V) → K → Option V
  meaning (puts k v) f j = if e.beq k j then some v else f j
  meaning (puts_if_absent k v) f j = if e.beq k j then overlay (f j) (some v) else f j
  meaning (removes k) f j = if e.beq k j then none else f j
  meaning (sets_value k v) f j = if is_some (f k) && e.beq k j then some v else f j
  meaning (puts_all n) f j = overlay (get n j) (f j)
  meaning clears f j = none

  -- The argument of `putAll` is itself a map in which no key occurs twice.
  abbrev pub IsWfOp : Op K V → Type ℓ
  IsWfOp (puts_all n) = IsWf n
  IsWfOp _ = Unit

  -- Every call that changes the map does to it what it does to the function that the map stands
  -- for, from any map in which no key occurs twice, and leaves such a map.
  pub run_refines :
      (o : Op K V) (m : HashMap K V) (j : K)
      → IsWf m
      → IsWfOp o
      → (get (run o m) j ≡ meaning o (λ i. get m i) j) × IsWf (run o m)
  unfolding run
  run_refines (puts k v) m j w u = (get-put m k j v, put-IsWf m k v w)
  run_refines (puts_if_absent k v) m j w u = (get-put_if_absent m k j v, put_if_absent-IsWf m k v w)
  run_refines (removes k) m j w u = (get-remove m k j w, remove-IsWf m k w)
  run_refines (sets_value k v) m j w u = (get-set_value m k j v, set_value-IsWf m k v w)
  run_refines (puts_all n) m j w u = (get-put_all m n j u, put_all-IsWf m n w)
  run_refines clears m j w u = unfold clear get in (refl, record { distinct = tt })
