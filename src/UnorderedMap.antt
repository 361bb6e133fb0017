-- ===== src/UnorderedMap.antt =====
-- What the two hash maps use of `std::unordered_map`: its entries are an association list, in an
-- order that no caller reads.
pub mod Laws
use neo_group_captcha_bot.Common.{
  Bool, true, false, List, [], ◌∷◌, Option, none, some, Eq, if◌then◌else◌,
}

module _ {ℓ} {K V : Type ℓ} ⦃e : Eq K⦄ where
  unfoldable pub find : K → List (K × V) → Option V
  find k [] = none
  find k ((j, v) ∷ l) = if e.beq j k then some v else find k l

  unfoldable pub insert_or_assign : K → V → List (K × V) → List (K × V)
  insert_or_assign k v [] = (k, v) ∷ []
  insert_or_assign k v ((j, w) ∷ l) =
      if e.beq j k then (j, v) ∷ l else (j, w) ∷ insert_or_assign k v l

  unfoldable pub erase : K → List (K × V) → List (K × V)
  erase k [] = []
  erase k ((j, w) ∷ l) = if e.beq j k then l else (j, w) ∷ erase k l

  unfoldable pub assign_all : List (K × V) → List (K × V) → List (K × V)
  unfolding insert_or_assign
  assign_all [] l = l
  assign_all ((k, v) ∷ es) l = assign_all es (insert_or_assign k v l)

abbrev pub is_some {ℓ} : {A : Type ℓ} → Option A → Bool
is_some none = false
is_some (some _) = true
