-- ===== src/UnorderedMap/Laws.antt =====
-- What `std::unordered_map` promises, of the association list that stands for it.
use neo_group_captcha_bot.Common.{
  suc, ◌≡◌, refl, List, [], ◌∷◌, Option, none, some, Eq, length, if◌then◌else◌, arith,
}
use neo_group_captcha_bot.UnorderedMap.{find, insert_or_assign, erase, assign_all, is_some}

-- What the first says where it says something, and the second elsewhere.
abbrev pub overlay {ℓ} : {V : Type ℓ} → Option V → Option V → Option V
overlay none y = y
overlay (some x) y = some x

module _ {ℓ} {K V : Type ℓ} ⦃e : Eq K⦄ where
  -- No key occurs twice.
  abbrev pub Distinct : List (K × V) → Type ℓ
  Distinct [] = Unit
  Distinct ((k, v) ∷ l) = (find k l ≡ none) × Distinct l

  pub find-insert_or_assign :
      (k j : K) (v : V) (l : List (K × V))
      → find j (insert_or_assign k v l) ≡ (if e.beq k j then some v else find j l)
  unfolding find insert_or_assign
  find-insert_or_assign k j v [] = refl
  find-insert_or_assign k j v ((i, w) ∷ l) =
      ground (arith, e.beq_iff k j, e.beq_iff i k, e.beq_iff i j, find-insert_or_assign k j v l)

  pub find-erase :
      (k j : K) (l : List (K × V))
      → Distinct l
      → find j (erase k l) ≡ (if e.beq k j then none else find j l)
  unfolding find erase
  find-erase k j [] d = ground arith
  find-erase k j ((i, w) ∷ l) d =
      ground (arith, e.beq_iff k j, e.beq_iff i k, e.beq_iff i j, find-erase k j l d.1)

  pub insert_or_assign-Distinct :
      (k : K) (v : V) (l : List (K × V)) → Distinct l → Distinct (insert_or_assign k v l)
  unfolding insert_or_assign find
  insert_or_assign-Distinct k v [] d = (refl, tt)
  insert_or_assign-Distinct k v ((i, w) ∷ l) d = ground (
    arith,
    e.beq_iff i k,
    find-insert_or_assign k i v l,
    e.beq_iff k i,
    insert_or_assign-Distinct k v l d.1,
  )

  pub erase-Distinct : (k : K) (l : List (K × V)) → Distinct l → Distinct (erase k l)
  unfolding erase find
  erase-Distinct k [] d = tt
  erase-Distinct k ((i, w) ∷ l) d = ground (arith, find-erase k i l d.1, erase-Distinct k l d.1)

  pub assign_all-Distinct : (es l : List (K × V)) → Distinct l → Distinct (assign_all es l)
  unfolding assign_all
  assign_all-Distinct [] l d = d
  assign_all-Distinct ((k, v) ∷ es) l d =
      assign_all-Distinct es (insert_or_assign k v l) (insert_or_assign-Distinct k v l d)

  pub find-assign_all :
      (j : K) (es l : List (K × V))
      → Distinct es
      → find j (assign_all es l) ≡ overlay (find j es) (find j l)
  unfolding assign_all find
  find-assign_all j [] l d = refl
  find-assign_all j ((k, v) ∷ es) l d = ground (
    arith,
    find-assign_all j es (insert_or_assign k v l) d.1,
    find-insert_or_assign k j v l,
    e.beq_iff k j,
  )

  pub length-insert_or_assign :
      (k : K) (v : V) (l : List (K × V))
      → length (insert_or_assign k v l) ≡ (if is_some (find k l) then length l else suc (length l))
  unfolding insert_or_assign find
  length-insert_or_assign k v [] = refl
  length-insert_or_assign k v ((i, w) ∷ l) = ground (arith, length-insert_or_assign k v l)

  pub length-erase :
      (k : K) (l : List (K × V))
      → length l ≡ (if is_some (find k l) then suc (length (erase k l)) else length (erase k l))
  unfolding erase find
  length-erase k [] = refl
  length-erase k ((i, w) ∷ l) = ground (arith, length-erase k l)
