-- ===== src/Common/Slots.antt =====
-- Lists whose elements have a place: the calls under way, and a sum over them.
use Prim.Native.Nat.{ℕ, zero, suc, ◌+◌, ◌≤◌}
use mathlib.Core.Path.{◌≡◌, refl}
use mathlib.Core.Option.{Option, none, some}
use mathlib.Core.List.{List, [], ◌∷◌, ◌++◌}
use native.Mathlib.Omega.{arith}
use neo_group_captcha_bot.Common.Lists.{length}

module _ {ℓ} {A : Type ℓ} where
  unfoldable pub slot_at : ℕ → List A → Option A
  slot_at k [] = none
  slot_at zero (c ∷ cs) = some c
  slot_at (suc k) (c ∷ cs) = slot_at k cs

  unfoldable pub set_slot : ℕ → A → List A → List A
  set_slot k d [] = []
  set_slot zero d (c ∷ cs) = d ∷ cs
  set_slot (suc k) d (c ∷ cs) = c ∷ set_slot k d cs

  unfoldable pub remove_slot : ℕ → List A → List A
  remove_slot k [] = []
  remove_slot zero (c ∷ cs) = cs
  remove_slot (suc k) (c ∷ cs) = c ∷ remove_slot k cs

  pub length-set_slot : (k : ℕ) (d : A) (cs : List A) → length (set_slot k d cs) ≡ length cs
  unfolding set_slot
  length-set_slot k d [] = refl
  length-set_slot zero d (c ∷ cs) = refl
  length-set_slot (suc k) d (c ∷ cs) = omega (arith, length-set_slot k d cs)

  abbrev pub sum_of : (A → ℕ) → List A → ℕ
  sum_of f [] = 0
  sum_of f (c ∷ cs) = f c + sum_of f cs

  module _ (f : A → ℕ) where
    pub sum_of-append : (xs ys : List A) → sum_of f (xs ++ ys) ≡ sum_of f xs + sum_of f ys
    sum_of-append [] ys = omega arith
    sum_of-append (c ∷ cs) ys = omega (arith, sum_of-append cs ys)

    pub sum_of-le : (cs : List A) → ((c : A) → f c ≤ 1) → sum_of f cs ≤ length cs
    sum_of-le [] h = omega arith
    sum_of-le (c ∷ cs) h = omega (arith, h c, sum_of-le cs h)

    pub sum_of-set_slot :
        (k : ℕ) (c d : A) (cs : List A)
        → slot_at k cs ≡ some c
        → sum_of f (set_slot k d cs) + f c ≡ sum_of f cs + f d
    unfolding slot_at set_slot
    sum_of-set_slot k c d [] h = cc
    sum_of-set_slot zero c d (x ∷ xs) h = ground (arith, h)
    sum_of-set_slot (suc k) c d (x ∷ xs) h = omega (arith, sum_of-set_slot k c d xs h)

    pub sum_of-remove_slot :
        (k : ℕ) (c : A) (cs : List A)
        → slot_at k cs ≡ some c
        → sum_of f (remove_slot k cs) + f c ≡ sum_of f cs
    unfolding slot_at remove_slot
    sum_of-remove_slot k c [] h = cc
    sum_of-remove_slot zero c (x ∷ xs) h = ground (arith, h)
    sum_of-remove_slot (suc k) c (x ∷ xs) h = omega (arith, sum_of-remove_slot k c xs h)
