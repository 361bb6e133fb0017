-- ===== src/HashMap.antt =====
-- src/utils/HashMap.h: the map over `std::unordered_map`, whose entries are an association list in
-- an order that no caller reads. An entry is kept by value: `get` returns its value, where the code
-- returns a pointer to it, and `set_value` is a write through that pointer.
pub mod Laws
pub mod Refinement
use neo_group_captcha_bot.UnorderedMap.{find, insert_or_assign, erase, assign_all, is_some}
use neo_group_captcha_bot.Common.{
  ℕ, Bool, true, false, not, List, [], ◌∷◌, Option, none, some, Eq, length, if◌then◌else◌, ◌==◌,
}

pub record HashMap {ℓ} (K V : Type ℓ) : Type ℓ where
  pub backend : List (K × V)

module _ {ℓ} {K V : Type ℓ} where
  unfoldable pub empty : HashMap K V
  empty = record { backend = [] }

  unfoldable pub entry_set : HashMap K V → List (K × V)
  entry_set m = m.backend

  unfoldable pub size : HashMap K V → ℕ
  size m = length m.backend

  unfoldable pub is_empty : HashMap K V → Bool
  unfolding size
  is_empty m = size m == 0

  unfoldable pub clear : HashMap K V → HashMap K V
  clear m = record m { backend = [] }

module _ {ℓ} {K V : Type ℓ} ⦃e : Eq K⦄ where
  unfoldable pub get : HashMap K V → K → Option V
  unfolding find
  get m k = find k m.backend

  unfoldable pub contains_key : HashMap K V → K → Bool
  unfolding find
  contains_key m k = is_some (find k m.backend)

  -- The entry is inserted, and then inserted once more.
  unfoldable pub put : HashMap K V → K → V → HashMap K V
  unfolding insert_or_assign
  put m k v = record m { backend = insert_or_assign k v (insert_or_assign k v m.backend) }

  -- `try_emplace`: the result says whether the entry went in.
  unfoldable pub put_if_absent : HashMap K V → K → V → HashMap K V × Bool
  unfolding find insert_or_assign
  put_if_absent m k v =
      if is_some (find k m.backend)
      then (m, false)
      else (record m { backend = insert_or_assign k v m.backend }, true)

  -- `backend.erase(key) != 0`: the result says whether an entry went out.
  unfoldable pub remove : HashMap K V → K → HashMap K V × Bool
  unfolding find erase
  remove m k = (record m { backend = erase k m.backend }, is_some (find k m.backend))

  -- `*m.get(k) = v`, which wants the entry to be there.
  unfoldable pub set_value : HashMap K V → K → V → HashMap K V
  unfolding find insert_or_assign
  set_value m k v =
      if is_some (find k m.backend)
      then record m { backend = insert_or_assign k v m.backend }
      else m

  unfoldable pub put_all : HashMap K V → HashMap K V → HashMap K V
  unfolding assign_all insert_or_assign entry_set
  put_all m other = record m { backend = assign_all (entry_set other) m.backend }

  -- The converting constructor.
  unfoldable pub from_map : HashMap K V → HashMap K V
  unfolding assign_all insert_or_assign entry_set
  from_map other = record { backend = assign_all (entry_set other) [] }
