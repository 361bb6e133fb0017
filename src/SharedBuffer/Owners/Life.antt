-- ===== src/SharedBuffer/Owners/Life.antt =====
-- src/utils/SharedBuffer.cpp: the life of each impl, through any calls.
use neo_group_captcha_bot.Common.{
  ℕ, ◌≤◌, ◌≡◌, ◌&&◌, ◌||◌, refl, ◌++◌, Bool, true, List, [], ◌∷◌, Option, none, some, length, ◌==◌,
  ltb, if◌then◌else◌, arith,
}
use neo_group_captcha_bot.SharedBuffer.{SharedBufferImpl, new_impl}
use neo_group_captcha_bot.SharedBuffer
use neo_group_captcha_bot.SharedBuffer.Handles.{Heap, store, impl_of, Done}
use neo_group_captcha_bot.SharedBuffer.Handles
use neo_group_captcha_bot.SharedBuffer.Handles.Copies.{length-store}
use neo_group_captcha_bot.SharedBuffer.Owners.{
  Slot, alive, gone, Owners, start, slot, points, use_count, Call, constructs, copies, assigns,
  destroys, resizes, ensures, resets, copy_slot, assign_slot, destroy_slot, reset_slot, resize_slot,
  ensure_slot, call, run,
}
use neo_group_captcha_bot.SharedBuffer.Owners.Balance.{
  times, Balanced, use_count-append, points-le, repoint-Balanced, finish-Balanced, reset_size-Grows,
  ensure_capacity-Grows,
}

append-Balanced :
    (h : Option ℕ) (s : Owners)
    → ((k : ℕ) → points k (alive h) ≤ use_count k s.slots)
    → Balanced s
    → Balanced (record s { slots = s.slots ++ (alive h ∷ []) })
append-Balanced h s f b k = ground (arith, b k, f k, use_count-append k s.slots (alive h))

-- What an object points to has an owner.
slot-points-le :
    (i : ℕ) (h : Option ℕ) (s : Owners)
    → slot s.slots i ≡ alive h
    → (k : ℕ) → points k (alive h) ≤ use_count k s.slots
slot-points-le i h s e k = rw⁻¹ e (points-le k i s.slots)

copy-Balanced :
    (x : Slot) (i : ℕ) (s : Owners) → slot s.slots i ≡ x → Balanced s → Balanced (copy_slot x s)
unfolding copy_slot
copy-Balanced gone i s e b = b
copy-Balanced (alive h) i s e b = append-Balanced h s (slot-points-le i h s e) b

assign-Balanced :
    (x y : Slot) (i j : ℕ) (s : Owners)
    → slot s.slots i ≡ x
    → slot s.slots j ≡ y
    → Balanced s
    → Balanced (assign_slot x y i s)
unfolding assign_slot
assign-Balanced gone y i j s e f b = b
assign-Balanced (alive g) gone i j s e f b = b
assign-Balanced (alive g) (alive h) i j s e f b =
    repoint-Balanced i (alive h) g s e (slot-points-le j h s f) b

destroy_slot-Balanced :
    (x : Slot) (i : ℕ) (s : Owners)
    → slot s.slots i ≡ x
    → Balanced s
    → Balanced (destroy_slot x i s)
unfolding destroy_slot
destroy_slot-Balanced gone i s e b = b
destroy_slot-Balanced (alive h) i s e b =
    repoint-Balanced i gone h s e (λ k. unfold points in omega arith) b

reset_slot-Balanced : (x : Slot) (s : Owners) → Balanced s → Balanced (reset_slot x s)
unfolding reset_slot Handles.reset
reset_slot-Balanced gone s b k = b k
reset_slot-Balanced (alive none) s b k = b k
reset_slot-Balanced (alive (some i)) s b k =
    let q : SharedBufferImpl = SharedBuffer.reset (impl_of s.heap (some i)) in
    ground (arith, b k, length-store s.heap i q)

module _ (malloc : ℕ → Bool) where
  resize-Balanced :
      (x : Slot) (i size : ℕ) (keep_content : Bool) (s : Owners)
      → slot s.slots i ≡ x
      → Balanced s
      → Balanced (resize_slot malloc x i size keep_content s)
  unfolding resize_slot
  resize-Balanced gone i size keep_content s e b = b
  resize-Balanced (alive h) i size keep_content s e b =
      finish-Balanced i h _ s e (reset_size-Grows malloc s.heap h size keep_content) b

  ensure-Balanced :
      (x : Slot) (i size : ℕ) (s : Owners)
      → slot s.slots i ≡ x
      → Balanced s
      → Balanced (ensure_slot malloc x i size s)
  unfolding ensure_slot
  ensure-Balanced gone i size s e b = b
  ensure-Balanced (alive h) i size s e b =
      finish-Balanced i h _ s e (ensure_capacity-Grows malloc s.heap h size) b

  call-Balanced : (c : Call) (s : Owners) → Balanced s → Balanced (call malloc c s)
  unfolding call
  call-Balanced constructs s b = append-Balanced none s (λ k. unfold points in omega arith) b
  call-Balanced (copies i) s b = copy-Balanced (slot s.slots i) i s refl b
  call-Balanced (assigns i j) s b =
      assign-Balanced (slot s.slots i) (slot s.slots j) i j s refl refl b
  call-Balanced (destroys i) s b = destroy_slot-Balanced (slot s.slots i) i s refl b
  call-Balanced (resizes i size keep_content) s b =
      resize-Balanced (slot s.slots i) i size keep_content s refl b
  call-Balanced (ensures i size) s b = ensure-Balanced (slot s.slots i) i size s refl b
  call-Balanced (resets i) s b = reset_slot-Balanced (slot s.slots i) s b

  run-Balanced : (cs : List Call) (s : Owners) → Balanced s → Balanced (run malloc cs s)
  unfolding run
  run-Balanced [] s b = b
  run-Balanced (c ∷ cs) s b = run-Balanced cs (call malloc c s) (call-Balanced c s b)

  -- Whatever objects are made, copied, assigned (also to themselves), resized and destroyed, and
  -- whether `malloc` succeeds or not: an impl that was made is destroyed once if no object points
  -- to it any more, and has not been destroyed else; and no object points to one that was never
  -- made. So none is left behind, none is destroyed twice, and none is used afterwards.
  pub impl_once :
      (cs : List Call) (k : ℕ)
      → let s = run malloc cs start in
        (times k s.destroyed
          ≡ (if ltb k (length s.heap) && (use_count k s.slots == 0) then 1 else 0))
        × ((ltb k (length s.heap) || (use_count k s.slots == 0)) ≡ true)
  impl_once cs k =
      let b = run-Balanced cs start (λ j. unfold use_count in ground arith) k in
      (ground (arith, b), ground (arith, b))
