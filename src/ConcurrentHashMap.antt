-- ===== src/ConcurrentHashMap.antt =====
-- src/utils/ConcurrentHashMap.h: the map with a mutex. Every method holds the mutex from its first
-- access to its last, so a method is one step, and a run of several threads is a sequence of steps.
pub mod Laws
pub mod Threads
use neo_group_captcha_bot.UnorderedMap.{find, insert_or_assign, erase, assign_all, is_some}
use neo_group_captcha_bot.Common.{
  ℕ, Bool, true, false, List, [], ◌∷◌, Option, none, some, Eq, length, if◌then◌else◌, ◌==◌,
}

pub record ConcurrentHashMap {ℓ} (K V : Type ℓ) : Type ℓ where
  pub backend : List (K × V)

module _ {ℓ} {K V : Type ℓ} where
  unfoldable pub empty : ConcurrentHashMap K V
  empty = record { backend = [] }

  unfoldable pub entry_set : ConcurrentHashMap K V → List (K × V)
  entry_set m = m.backend

  unfoldable pub size : ConcurrentHashMap K V → ℕ
  size m = length m.backend

  unfoldable pub is_empty : ConcurrentHashMap K V → Bool
  unfolding size
  is_empty m = size m == 0

  unfoldable pub clear : ConcurrentHashMap K V → ConcurrentHashMap K V
  clear m = record m { backend = [] }

module _ {ℓ} {K V : Type ℓ} ⦃e : Eq K⦄ where
  unfoldable pub get : ConcurrentHashMap K V → K → Option V
  get m k = find k m.backend

  unfoldable pub contains_key : ConcurrentHashMap K V → K → Bool
  contains_key m k = is_some (find k m.backend)

  unfoldable pub put : ConcurrentHashMap K V → K → V → ConcurrentHashMap K V
  put m k v = record m { backend = insert_or_assign k v m.backend }

  unfoldable pub put_if_absent : ConcurrentHashMap K V → K → V → ConcurrentHashMap K V × Bool
  put_if_absent m k v =
      if is_some (find k m.backend)
      then (m, false)
      else (record m { backend = insert_or_assign k v m.backend }, true)

  unfoldable pub remove : ConcurrentHashMap K V → K → ConcurrentHashMap K V × Bool
  remove m k = (record m { backend = erase k m.backend }, is_some (find k m.backend))

  -- A write through the pointer that `get` returns.
  unfoldable pub set_value : ConcurrentHashMap K V → K → V → ConcurrentHashMap K V
  set_value m k v =
      if is_some (find k m.backend)
      then record m { backend = insert_or_assign k v m.backend }
      else m

  -- The entries are taken under the mutex of the other map, then put in under this one's.
  unfoldable pub put_all : ConcurrentHashMap K V → ConcurrentHashMap K V → ConcurrentHashMap K V
  unfolding entry_set
  put_all m other = record m { backend = assign_all (entry_set other) m.backend }

  -- The converting constructor.
  unfoldable pub from_map : ConcurrentHashMap K V → ConcurrentHashMap K V
  unfolding entry_set
  from_map other = record { backend = assign_all (entry_set other) [] }

-- One call, as the threads make them.
pub data Call {ℓ} (K V : Type ℓ) : Type ℓ where
  gets contains removes : K → Call K V
  puts puts_if_absent : K → V → Call K V

pub data Answer {ℓ} (V : Type ℓ) : Type ℓ where
  value : Option V → Answer V
  flag : Bool → Answer V
  nothing : Answer V

module _ {ℓ} {K V : Type ℓ} ⦃e : Eq K⦄ where
  unfoldable pub step : Call K V → ConcurrentHashMap K V → ConcurrentHashMap K V × Answer V
  step (gets k) m = (m, value (get m k))
  step (contains k) m = (m, flag (contains_key m k))
  step (removes k) m = let (m', done) = remove m k in (m', flag done)
  step (puts k v) m = (put m k v, nothing)
  step (puts_if_absent k v) m = let (m', done) = put_if_absent m k v in (m', flag done)

  -- The key that a call is about.
  abbrev pub key : Call K V → K
  key (gets k) = k
  key (contains k) = k
  key (removes k) = k
  key (puts k v) = k
  key (puts_if_absent k v) = k
