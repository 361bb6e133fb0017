-- ===== src/SharedBuffer/Owners/Balance.antt =====
-- src/utils/SharedBuffer.cpp: the owners of each impl, counted, through one change of a handle.
use neo_group_captcha_bot.Common.{
  ℕ, zero, suc, ◌+◌, ◌≤◌, ◌≡◌, refl, sym, ap, ◌∙◌, inl, inr, ◌⊎◌, Bool-cases, ◌++◌, Bool, true,
  false, List, [], ◌∷◌, Option, none, some, length, length-append, ◌==◌, ==_iff, ltb, if◌then◌else◌,
  arith,
}
use neo_group_captcha_bot.SharedBuffer.{SharedBufferImpl, new_impl}
use neo_group_captcha_bot.SharedBuffer
use neo_group_captcha_bot.SharedBuffer.Handles.{Heap, store, impl_of, Done}
use neo_group_captcha_bot.SharedBuffer.Handles
use neo_group_captcha_bot.SharedBuffer.Handles.Copies.{length-store}
use neo_group_captcha_bot.SharedBuffer.Owners.{
  Slot, alive, gone, Owners, slot, put_slot, points, use_count, destroy_impl, release, repoint,
  finish,
}

abbrev pub times : ℕ → List ℕ → ℕ
times k [] = 0
times k (j ∷ js) = (if j == k then 1 else 0) + times k js

abbrev pub owned : ℕ → ℕ
owned n = if n == 0 then 0 else 1

abbrev pub made : ℕ → Heap → ℕ
made k heap = if ltb k (length heap) then 1 else 0

-- Each impl that was made is destroyed once or has an owner, and not both; there are no others.
abbrev pub Balanced : Owners → Type 0
Balanced s = (k : ℕ) → times k s.destroyed + owned (use_count k s.slots) ≡ made k s.heap

times-append :
    (k : ℕ) (xs : List ℕ) (j : ℕ)
    → times k (xs ++ (j ∷ [])) ≡ times k xs + (if j == k then 1 else 0)
times-append k [] j = omega arith
times-append k (x ∷ xs) j = omega (arith, times-append k xs j)

pub use_count-append :
    (k : ℕ) (xs : List Slot) (y : Slot) → use_count k (xs ++ (y ∷ [])) ≡ use_count k xs + points k y
unfolding use_count
use_count-append k [] y = omega arith
use_count-append k (x ∷ xs) y = omega (arith, use_count-append k xs y)

pub points-le : (k i : ℕ) (xs : List Slot) → points k (slot xs i) ≤ use_count k xs
unfolding use_count slot points
points-le k i [] = omega arith
points-le k zero (x ∷ xs) = omega arith
points-le k (suc i) (x ∷ xs) = omega (arith, points-le k i xs)

use_count-put :
    (k i : ℕ) (xs : List Slot) (y : Slot) (h : Option ℕ)
    → slot xs i ≡ alive h
    → use_count k (put_slot xs i y) + points k (alive h) ≡ use_count k xs + points k y
unfolding use_count slot put_slot
use_count-put k i [] y h e = cc
use_count-put k zero (x ∷ xs) y h e =
    let f : points k x ≡ points k (alive h) = ap (points k) e in omega (arith, f)
use_count-put k (suc i) (x ∷ xs) y h e = omega (arith, use_count-put k i xs y h e)

-- The last owner of the place `j` has gone.
destroy-Balanced :
    (j : ℕ) (s : Owners)
    → ((k : ℕ)
        → times k s.destroyed + owned (use_count k s.slots + points k (alive (some j)))
          ≡ made k s.heap)
    → use_count j s.slots ≡ 0
    → Balanced (destroy_impl j s)
unfolding points destroy_impl
destroy-Balanced j s h e k =
    let u : (j == k) ≡ true → use_count k s.slots ≡ 0 =
      λ f. ap (λ i. use_count i s.slots) (sym ((==_iff j k).0 f)) ∙ e in
    let q : SharedBufferImpl = SharedBuffer.reset (impl_of s.heap (some j)) in
    ground (arith, h k, times-append k s.destroyed j, length-store s.heap j q, u)

-- It still has one.
keep-Balanced :
    (j : ℕ) (s : Owners)
    → ((k : ℕ)
        → times k s.destroyed + owned (use_count k s.slots + points k (alive (some j)))
          ≡ made k s.heap)
    → (use_count j s.slots == 0) ≡ false
    → Balanced s
unfolding points
keep-Balanced j s h e k =
    let u : (j == k) ≡ true → (use_count k s.slots == 0) ≡ false =
      λ f. ap (λ i. use_count i s.slots == 0) (sym ((==_iff j k).0 f)) ∙ e in
    ground (arith, h k, u)

release-Balanced :
    (x : Slot) (s : Owners)
    → ((k : ℕ) → times k s.destroyed + owned (use_count k s.slots + points k x) ≡ made k s.heap)
    → Balanced (release x s)
unfolding release points destroy_impl
release-Balanced gone s h k = ground (arith, h k)
release-Balanced (alive none) s h k = ground (arith, h k)
release-Balanced (alive (some j)) s h k = elim (Bool-cases (use_count j s.slots == 0)) [
  | inl e ↦ rw (e, if◌then◌else◌) (destroy-Balanced j s h ((==_iff (use_count j s.slots) 0).0 e) k)
  | inr e ↦ rw (e, if◌then◌else◌) (keep-Balanced j s h e k)
]

pub repoint-Balanced :
    (i : ℕ) (y : Slot) (g : Option ℕ) (s : Owners)
    → slot s.slots i ≡ alive g
    → ((k : ℕ) → points k y ≤ use_count k s.slots)
    → Balanced s
    → Balanced (repoint i y s)
unfolding repoint
repoint-Balanced i y g s e f b = rw e (
    release-Balanced (alive g) (record s { slots = put_slot s.slots i y })
      (λ k. ground (arith, b k, f k, use_count-put k i s.slots y g e)))

-- A method gives the handle back as it was, with as many impls, or makes an impl for a null handle.
pub Grows : Heap → Option ℕ → Done → Type 0
Grows heap h d =
    ((d.handle ≡ h) × (length d.heap ≡ length heap))
    ⊎ ((h ≡ none) × (d.handle ≡ some (length heap)) × (length d.heap ≡ suc (length heap)))

pub reset_size-Grows :
    (malloc : ℕ → Bool) (heap : Heap) (h : Option ℕ) (size : ℕ) (keep_content : Bool)
    → Grows heap h (Handles.reset_size malloc heap h size keep_content)
unfolding Grows Handles.reset_size
reset_size-Grows malloc heap none size keep_content = inr (
  refl,
  refl,
  omega (
    arith,
    length-append heap ((SharedBuffer.reset_size malloc new_impl size keep_content).0 ∷ []),
  ),
)
reset_size-Grows malloc heap (some i) size keep_content = inl (refl, length-store heap i _)

pub ensure_capacity-Grows :
    (malloc : ℕ → Bool) (heap : Heap) (h : Option ℕ) (size : ℕ)
    → Grows heap h (Handles.ensure_capacity malloc heap h size)
unfolding Handles.ensure_capacity
ensure_capacity-Grows malloc heap none size = reset_size-Grows malloc heap none size false
ensure_capacity-Grows malloc heap (some i) size =
    elim (Bool-cases (ltb (impl_of heap (some i)).size size)) [
      | inl e ↦ rw (e, if◌then◌else◌) (reset_size-Grows malloc heap (some i) size true)
      | inr e ↦ rw (e, if◌then◌else◌) (unfold Grows in inl (refl, refl))
    ]

pub finish-Balanced :
    (i : ℕ) (h : Option ℕ) (d : Done) (s : Owners)
    → slot s.slots i ≡ alive h
    → Grows s.heap h d
    → Balanced s
    → Balanced (finish i d s)
unfolding finish Grows points
finish-Balanced i h d s e (inl (f, g)) b k =
    let p : points k (alive d.handle) ≡ points k (alive h) = ap (λ x. points k (alive x)) f in
    ground (arith, b k, p, g, use_count-put k i s.slots (alive d.handle) h e)
finish-Balanced i h d s e (inr (n, f, g)) b k =
    let p : points k (alive d.handle) ≡ points k (alive (some (length s.heap))) =
      ap (λ x. points k (alive x)) f in
    let o : points k (alive h) ≡ 0 = ap (λ x. points k (alive x)) n in
    let u = use_count-put k i s.slots (alive d.handle) h e in ground (arith, b k, p, o, g, u)
