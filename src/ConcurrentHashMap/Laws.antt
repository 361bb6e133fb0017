-- ===== src/ConcurrentHashMap/Laws.antt =====
-- src/utils/ConcurrentHashMap.h: each call against a function from keys to values, and what two
-- threads see of each other's calls.
use neo_group_captcha_bot.Common.{
  ◌≡◌, refl, ap, false, ◌&&◌, not, Option, none, some, Eq, if◌then◌else◌, arith,
}
use neo_group_captcha_bot.UnorderedMap.{find, is_some}
use neo_group_captcha_bot.UnorderedMap.Laws.{
  overlay, Distinct, find-insert_or_assign, find-erase, insert_or_assign-Distinct, erase-Distinct,
}
use neo_group_captcha_bot.ConcurrentHashMap.{
  ConcurrentHashMap, Call, gets, contains, removes, puts, puts_if_absent, Answer, value, flag,
  nothing, empty, get, contains_key, put, put_if_absent, remove, set_value, step, key,
}

module _ {ℓ} {K V : Type ℓ} ⦃e : Eq K⦄ where
  pub record IsWf (m : ConcurrentHashMap K V) : Type ℓ where
    pub distinct : Distinct m.backend

  pub get-empty : (j : K) → get (empty {K = K} {V = V}) j ≡ none
  unfolding get empty find
  get-empty j = refl

  pub empty-IsWf : IsWf (empty {K = K} {V = V})
  unfolding empty
  empty-IsWf = record { distinct = tt }

  pub get-put :
      (m : ConcurrentHashMap K V) (k j : K) (v : V)
      → get (put m k v) j ≡ (if e.beq k j then some v else get m j)
  unfolding get put
  get-put m k j v = find-insert_or_assign k j v m.backend

  pub put-IsWf : (m : ConcurrentHashMap K V) (k : K) (v : V) → IsWf m → IsWf (put m k v)
  unfolding put
  put-IsWf m k v w = record { distinct = insert_or_assign-Distinct k v m.backend w.distinct }

  pub get-remove :
      (m : ConcurrentHashMap K V) (k j : K)
      → IsWf m
      → get (remove m k).0 j ≡ (if e.beq k j then none else get m j)
  unfolding get remove
  get-remove m k j w = find-erase k j m.backend w.distinct

  pub remove-IsWf : (m : ConcurrentHashMap K V) (k : K) → IsWf m → IsWf (remove m k).0
  unfolding remove
  remove-IsWf m k w = record { distinct = erase-Distinct k m.backend w.distinct }

  pub get-set_value :
      (m : ConcurrentHashMap K V) (k j : K) (v : V)
      → get (set_value m k v) j ≡ (if is_some (get m k) && e.beq k j then some v else get m j)
  unfolding get set_value
  get-set_value m k j v = ground (arith, find-insert_or_assign k j v m.backend)

  get-put_if_absent :
      (m : ConcurrentHashMap K V) (k j : K) (v : V)
      → get (put_if_absent m k v).0 j ≡ (if e.beq k j then overlay (get m j) (some v) else get m j)
  unfolding get put_if_absent
  get-put_if_absent m k j v = ground (arith, e.beq_iff k j, find-insert_or_assign k j v m.backend)

  put_if_absent-IsWf :
      (m : ConcurrentHashMap K V) (k : K) (v : V) → IsWf m → IsWf (put_if_absent m k v).0
  unfolding put_if_absent
  put_if_absent-IsWf m k v w = ground (arith, insert_or_assign-Distinct k v m.backend w.distinct)

  -- What a call does to a function from keys to values, and what it answers.
  abbrev pub effect : Call K V → (K → Option V) → K → Option V
  effect (gets k) f j = f j
  effect (contains k) f j = f j
  effect (removes k) f j = if e.beq k j then none else f j
  effect (puts k v) f j = if e.beq k j then some v else f j
  effect (puts_if_absent k v) f j = if e.beq k j then overlay (f j) (some v) else f j

  abbrev pub reply : Call K V → (K → Option V) → Answer V
  reply (gets k) f = value (f k)
  reply (contains k) f = flag (is_some (f k))
  reply (removes k) f = flag (is_some (f k))
  reply (puts k v) f = nothing
  reply (puts_if_absent k v) f = flag (not (is_some (f k)))

  pub step-IsWf : (c : Call K V) (m : ConcurrentHashMap K V) → IsWf m → IsWf (step c m).0
  unfolding step
  step-IsWf (gets k) m w = w
  step-IsWf (contains k) m w = w
  step-IsWf (removes k) m w = remove-IsWf m k w
  step-IsWf (puts k v) m w = put-IsWf m k v w
  step-IsWf (puts_if_absent k v) m w = put_if_absent-IsWf m k v w

  pub get-step :
      (c : Call K V) (m : ConcurrentHashMap K V) (j : K)
      → IsWf m
      → get (step c m).0 j ≡ effect c (λ i. get m i) j
  unfolding step
  get-step (gets k) m j w = refl
  get-step (contains k) m j w = refl
  get-step (removes k) m j w = get-remove m k j w
  get-step (puts k v) m j w = get-put m k j v
  get-step (puts_if_absent k v) m j w = get-put_if_absent m k j v

  pub step-reply :
      (c : Call K V) (m : ConcurrentHashMap K V) → (step c m).1 ≡ reply c (λ i. get m i)
  unfolding step get contains_key remove
  step-reply (gets k) m = refl
  step-reply (contains k) m = refl
  step-reply (removes k) m = refl
  step-reply (puts k v) m = refl
  step-reply (puts_if_absent k v) m = unfold put_if_absent in ground arith

  -- Every call, from a map in which no key occurs twice, changes and answers as a call on the
  -- function that the map stands for, and leaves such a map.
  pub step_refines :
      (c : Call K V) (m : ConcurrentHashMap K V) (j : K)
      → IsWf m
      → (get (step c m).0 j ≡ effect c (λ i. get m i) j)
        × ((step c m).1 ≡ reply c (λ i. get m i))
        × IsWf (step c m).0
  step_refines c m j w = (get-step c m j w, step-reply c m, step-IsWf c m w)

  pub effect_other :
      (c : Call K V) (f : K → Option V) (j : K) → e.beq (key c) j ≡ false → effect c f j ≡ f j
  effect_other (gets k) f j h = refl
  effect_other (contains k) f j h = refl
  effect_other (removes k) f j h = rw h
  effect_other (puts k v) f j h = rw h
  effect_other (puts_if_absent k v) f j h = rw h

  pub effect_same :
      (c : Call K V) (f g : K → Option V) (j : K) → f j ≡ g j → effect c f j ≡ effect c g j
  effect_same (gets k) f g j h = h
  effect_same (contains k) f g j h = h
  effect_same (removes k) f g j h = rw h
  effect_same (puts k v) f g j h = rw h
  effect_same (puts_if_absent k v) f g j h = rw h

  pub reply_same :
      (c : Call K V) (f g : K → Option V) → f (key c) ≡ g (key c) → reply c f ≡ reply c g
  reply_same (gets k) f g h = ap value h
  reply_same (contains k) f g h = ap (λ o. flag (is_some o)) h
  reply_same (removes k) f g h = ap (λ o. flag (is_some o)) h
  reply_same (puts k v) f g h = refl
  reply_same (puts_if_absent k v) f g h = ap (λ o. flag (not (is_some o))) h
