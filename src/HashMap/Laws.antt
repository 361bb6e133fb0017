-- ===== src/HashMap/Laws.antt =====
-- src/utils/HashMap.h: what each operation does to the value that `get` finds, and that no key
-- occurs twice.
use neo_group_captcha_bot.Common.{suc, ◌≡◌, refl, ◌&&◌, none, some, Eq, if◌then◌else◌, arith}
use neo_group_captcha_bot.UnorderedMap.{insert_or_assign, is_some}
use neo_group_captcha_bot.UnorderedMap.Laws.{
  overlay, Distinct, find-insert_or_assign, find-erase, insert_or_assign-Distinct, erase-Distinct,
  assign_all-Distinct, find-assign_all, length-insert_or_assign, length-erase,
}
use neo_group_captcha_bot.HashMap.{
  HashMap, empty, entry_set, size, get, contains_key, put, put_if_absent, remove, set_value,
  put_all,
}

module _ {ℓ} {K V : Type ℓ} ⦃e : Eq K⦄ where
  pub record IsWf (m : HashMap K V) : Type ℓ where
    pub distinct : Distinct m.backend

  pub get-empty : (j : K) → get (empty {K = K} {V = V}) j ≡ none
  unfolding get empty
  get-empty j = refl

  pub get-put :
      (m : HashMap K V) (k j : K) (v : V)
      → get (put m k v) j ≡ (if e.beq k j then some v else get m j)
  unfolding get put
  get-put m k j v = ground (
    arith,
    find-insert_or_assign k j v (insert_or_assign k v m.backend),
    find-insert_or_assign k j v m.backend,
  )

  pub get-remove :
      (m : HashMap K V) (k j : K)
      → IsWf m
      → get (remove m k).0 j ≡ (if e.beq k j then none else get m j)
  unfolding get remove
  get-remove m k j w = find-erase k j m.backend w.distinct

  pub get-put_all :
      (m n : HashMap K V) (j : K) → IsWf n → get (put_all m n) j ≡ overlay (get n j) (get m j)
  unfolding get put_all entry_set
  get-put_all m n j w = find-assign_all j n.backend m.backend w.distinct

  pub get-set_value :
      (m : HashMap K V) (k j : K) (v : V)
      → get (set_value m k v) j ≡ (if is_some (get m k) && e.beq k j then some v else get m j)
  unfolding get set_value
  get-set_value m k j v = ground (arith, find-insert_or_assign k j v m.backend)

  pub put-IsWf : (m : HashMap K V) (k : K) (v : V) → IsWf m → IsWf (put m k v)
  unfolding put
  put-IsWf m k v w = record {
    distinct = insert_or_assign-Distinct k v _ (insert_or_assign-Distinct k v m.backend w.distinct);
  }

  pub remove-IsWf : (m : HashMap K V) (k : K) → IsWf m → IsWf (remove m k).0
  unfolding remove
  remove-IsWf m k w = record { distinct = erase-Distinct k m.backend w.distinct }

  pub set_value-IsWf : (m : HashMap K V) (k : K) (v : V) → IsWf m → IsWf (set_value m k v)
  unfolding set_value
  set_value-IsWf m k v w = ground (arith, insert_or_assign-Distinct k v m.backend w.distinct)

  pub empty-IsWf : IsWf (empty {K = K} {V = V})
  unfolding empty
  empty-IsWf = record { distinct = tt }

  pub get-put_if_absent :
      (m : HashMap K V) (k j : K) (v : V)
      → get (put_if_absent m k v).0 j ≡ (if e.beq k j then overlay (get m j) (some v) else get m j)
  unfolding get put_if_absent
  get-put_if_absent m k j v = ground (arith, e.beq_iff k j, find-insert_or_assign k j v m.backend)

  pub put_if_absent-IsWf : (m : HashMap K V) (k : K) (v : V) → IsWf m → IsWf (put_if_absent m k v).0
  unfolding put_if_absent
  put_if_absent-IsWf m k v w = ground (arith, insert_or_assign-Distinct k v m.backend w.distinct)

  pub put_all-IsWf : (m n : HashMap K V) → IsWf m → IsWf (put_all m n)
  unfolding put_all entry_set
  put_all-IsWf m n w = record { distinct = assign_all-Distinct n.backend m.backend w.distinct }

  pub size-put :
      (m : HashMap K V) (k : K) (v : V)
      → size (put m k v) ≡ (if contains_key m k then size m else suc (size m))
  unfolding size put contains_key
  size-put m k v = ground (
    arith,
    e.beq_iff k k,
    length-insert_or_assign k v m.backend,
    length-insert_or_assign k v (insert_or_assign k v m.backend),
    find-insert_or_assign k k v m.backend,
  )

  pub size-remove :
      (m : HashMap K V) (k : K)
      → size m ≡ (if (remove m k).1 then suc (size (remove m k).0) else size (remove m k).0)
  unfolding size remove
  size-remove m k = length-erase k m.backend
