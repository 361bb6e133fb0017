-- ===== src/SharedBuffer/Handles/Copies.antt =====
-- src/utils/SharedBuffer.cpp: `copy`, against the handles that were there.
use neo_group_captcha_bot.Common.{
  ℕ, zero, suc, ◌<◌, ◌≡◌, ◌≢◌, refl, ap, sym, ◌∙◌, subst, inl, inr, ◌++◌, Bool, true, false, ◌&&◌,
  not, [], ◌∷◌, Option, none, some, Bytes, length, take, drop, replicate, length-append,
  length-take, take_length, ◌==◌, if◌then◌else◌, arith, Bool-cases,
}
use neo_group_captcha_bot.SharedBuffer.{SharedBufferImpl, new_impl, Result, returns, undefined}
use neo_group_captcha_bot.SharedBuffer
use neo_group_captcha_bot.SharedBuffer.Resize.{contents, visible, IsValid, HasBytes, take-append}
use neo_group_captcha_bot.SharedBuffer.Handles.{
  Heap, at, store, impl_of, size, has_buffer, to_vector, reset_size, ensure_capacity, finish_copy,
  copy,
}

at-append : (heap : Heap) (p : SharedBufferImpl) → at (heap ++ (p ∷ [])) (length heap) ≡ some p
unfolding at
at-append [] p = refl
at-append (q ∷ qs) p = at-append qs p

at-append_old :
    (heap : Heap) (p : SharedBufferImpl) (j : ℕ)
    → j < length heap
    → at (heap ++ (p ∷ [])) j ≡ at heap j
unfolding at
at-append_old [] p j h = absurd (omega arith)
at-append_old (q ∷ qs) p zero h = refl
at-append_old (q ∷ qs) p (suc j) h = at-append_old qs p j (omega arith)

at-store :
    (heap : Heap) (i : ℕ) (p : SharedBufferImpl) → i < length heap → at (store heap i p) i ≡ some p
unfolding at store
at-store [] i p h = absurd (omega arith)
at-store (q ∷ qs) zero p h = refl
at-store (q ∷ qs) (suc i) p h = at-store qs i p (omega arith)

at-store_other :
    (heap : Heap) (i j : ℕ) (p : SharedBufferImpl) → j ≢ i → at (store heap i p) j ≡ at heap j
unfolding at store
at-store_other [] i j p h = refl
at-store_other (q ∷ qs) zero zero p h = absurd (h refl)
at-store_other (q ∷ qs) zero (suc j) p h = refl
at-store_other (q ∷ qs) (suc i) zero p h = refl
at-store_other (q ∷ qs) (suc i) (suc j) p h = at-store_other qs i j p (λ e. h (ap suc e))

abbrev fresh : ℕ → SharedBufferImpl
fresh n = record { buffer = some (replicate n 0); size = n; actual_size = n }

-- What `resetSize` makes of a new impl.
fresh_impl :
    (malloc : ℕ → Bool) (n : ℕ)
    → n ≢ 0
    → SharedBuffer.reset_size malloc new_impl n false
      ≡ (if malloc n then (fresh n, returns true) else (new_impl, returns false))
unfolding SharedBuffer.reset_size new_impl
fresh_impl malloc n h = ground arith

contents-length : (o : Option Bytes) (n a : ℕ) → HasBytes o n a → length (visible o n) ≡ n
contents-length none n a v = omega (arith, v)
contents-length (some bytes) n a v = omega (arith, length-take n bytes, v)

pub length-store :
    (heap : Heap) (i : ℕ) (p : SharedBufferImpl) → length (store heap i p) ≡ length heap
unfolding store
length-store [] i p = refl
length-store (q ∷ qs) zero p = refl
length-store (q ∷ qs) (suc i) p = ap suc (length-store qs i p)

-- The impl of a copy of `bytes`.
abbrev copied : Bytes → ℕ → SharedBufferImpl
copied bytes n = record {
  buffer = some (bytes ++ drop (length bytes) (replicate n 0));
  size = n;
  actual_size = n;
}

abbrev with_copy : Heap → Bytes → ℕ → Heap
with_copy heap bytes n = store (heap ++ (fresh n ∷ [])) (length heap) (copied bytes n)

-- The two ends of `copy`, when there is something to copy.
copy_present :
    (malloc : ℕ → Bool) (heap : Heap) (handle : Option ℕ)
    → (has_buffer heap handle && not (size heap handle == 0)) ≡ true
    → copy malloc heap handle ≡ (
        if malloc (size heap handle)
        then some (with_copy heap (to_vector heap handle) (size heap handle), some (length heap))
        else none)
unfolding copy ensure_capacity reset_size finish_copy
copy_present malloc heap handle h =
    let n = size heap handle in
    let p : SharedBufferImpl = fresh n in
    ground (arith, h, fresh_impl malloc n (λ e. ground (arith, e, h)), at-append heap p)

with_copy-new :
    (heap : Heap) (bytes : Bytes) (n : ℕ)
    → at (with_copy heap bytes n) (length heap) ≡ some (copied bytes n)
with_copy-new heap bytes n =
    at-store _ (length heap) (copied bytes n) (omega (arith, length-append heap (fresh n ∷ [])))

with_copy-old :
    (heap : Heap) (bytes : Bytes) (n j : ℕ)
    → j < length heap
    → at (with_copy heap bytes n) j ≡ at heap j
with_copy-old heap bytes n j h =
    at-store_other _ (length heap) j (copied bytes n) (λ e. absurd (omega (arith, e, h)))
    ∙ at-append_old heap _ j h

contents-copied : (bytes : Bytes) (n : ℕ) → length bytes ≡ n → contents (copied bytes n) ≡ bytes
contents-copied bytes n h =
    ap (λ m. take m (bytes ++ drop (length bytes) (replicate n 0))) (sym h)
    ∙ take-append (length bytes) bytes _ (omega arith)
    ∙ take_length bytes

-- `resetSize` on one handle leaves the buffers of the others.
reset_size-other :
    (malloc : ℕ → Bool) (heap : Heap) (handle : Option ℕ) (n j : ℕ) (keep : Bool)
    → handle ≢ some j
    → j < length heap
    → at (reset_size malloc heap handle n keep).heap j ≡ at heap j
unfolding reset_size
reset_size-other malloc heap none n j keep h k = at-append_old heap _ j k
reset_size-other malloc heap (some i) n j keep h k =
    at-store_other heap i j _ (λ e. h (ap some (sym e)))

-- With nothing to copy there are no bytes to see.
nothing_to_copy :
    (heap : Heap) (handle : Option ℕ)
    → (has_buffer heap handle && not (size heap handle == 0)) ≡ false
    → to_vector heap handle ≡ []
unfolding has_buffer size to_vector
nothing_to_copy heap handle h = no_bytes (impl_of heap handle).buffer (impl_of heap handle).size h
  where
    no_bytes :
        (o : Option Bytes) (n : ℕ)
        → ((elim o [ none ↦ false | some bytes ↦ true ]) && not (n == 0)) ≡ false
        → visible o n ≡ []
    no_bytes none n h = refl
    no_bytes (some bytes) n h = let e : n ≡ 0 = ground (arith, h) in ap (λ m. take m bytes) e

-- What a copy must be, beside the handle on the place `j`, also when it is resized afterwards.
pub record Apart (malloc : ℕ → Bool) (heap : Heap) (bytes : Bytes) (j n : ℕ) (keep : Bool)
    (r : Heap × Option ℕ) : Type 0 where
  pub same : to_vector r.0 r.1 ≡ bytes
  pub other : r.1 ≢ some j
  pub kept : at (reset_size malloc r.0 r.1 n keep).heap j ≡ at heap j

with_copy-Apart :
    (malloc : ℕ → Bool) (heap : Heap) (bytes : Bytes) (n m j : ℕ) (keep : Bool)
    → length bytes ≡ n
    → j < length heap
    → Apart malloc heap bytes j m keep (with_copy heap bytes n, some (length heap))
with_copy-Apart malloc heap bytes n m j keep e h =
    let other : some (length heap) ≢ some j = (λ x. absurd (ground (arith, x, h))) in
    record {
      same =
          unfold to_vector in
          ap (λ o. contents (elim o as (λ x. SharedBufferImpl) [ none ↦ new_impl | some p ↦ p ]))
            (with_copy-new heap bytes n)
          ∙ contents-copied bytes n e;
      other = other;
      kept =
          reset_size-other malloc (with_copy heap bytes n) (some (length heap)) m j keep other (
            omega (
              arith,
              h,
              length-store (heap ++ (fresh n ∷ [])) (length heap) (copied bytes n),
              length-append heap (fresh n ∷ []),
            ))
          ∙ with_copy-old heap bytes n j h;
    }

copy_absent :
    (malloc : ℕ → Bool) (heap : Heap) (handle : Option ℕ)
    → (has_buffer heap handle && not (size heap handle == 0)) ≡ false
    → copy malloc heap handle ≡ some (heap, none)
unfolding copy
copy_absent malloc heap handle g = rw g refl

some_injective {ℓ} : {A : Type ℓ} {a b : A} → some a ≡ some b → a ≡ b
some_injective e = cc

-- `copy`, when it does not throw, gives a handle that sees the same bytes as the one copied and
-- shares its buffer with no handle that was there: whatever size the copy is given afterwards, the
-- buffer at each place `j` stays as it was.
pub copy_lem :
    (malloc : ℕ → Bool) (heap : Heap) (handle : Option ℕ) (r : Heap × Option ℕ) (j n : ℕ)
    (keep : Bool)
    → IsValid (impl_of heap handle)
    → copy malloc heap handle ≡ some r
    → j < length heap
    → Apart malloc heap (to_vector heap handle) j n keep r
copy_lem malloc heap handle r j n keep v e h =
    elim (Bool-cases (has_buffer heap handle && not (size heap handle == 0))) [
      | inl g ↦ elim (Bool-cases (malloc (size heap handle))) [
        | inl m ↦
            let q : some
                  (with_copy heap (to_vector heap handle) (size heap handle), some (length heap))
                ≡ some r =
              ground (arith, copy_present malloc heap handle g, m, e) in
            subst (Apart malloc heap (to_vector heap handle) j n keep) (some_injective q) (
              with_copy-Apart malloc heap (to_vector heap handle) (size heap handle) n j keep
                (unfold to_vector size in contents-length (impl_of heap handle).buffer _ _ v) h)
        | inr m ↦ absurd (ground (arith, copy_present malloc heap handle g, m, e))
      ]
      | inr g ↦
          let q : some (heap, none) ≡ some r = sym (copy_absent malloc heap handle g) ∙ e in
          subst (Apart malloc heap (to_vector heap handle) j n keep) (some_injective q) (record {
            same = unfold to_vector in sym (nothing_to_copy heap handle g);
            other = λ x. absurd (ground (arith, x));
            kept = reset_size-other malloc heap none n j keep (λ x. absurd (ground (arith, x))) h;
          })
    ]
