-- ===== src/SharedBuffer/Owners.antt =====
-- src/utils/SharedBuffer.cpp, the constructors, the assignment and the destructor: which handles own
-- an impl, and when it is destroyed. What `std::shared_ptr` does is its documented behaviour: an
-- impl is destroyed when the last handle that points to it goes or is pointed elsewhere.
pub mod Balance
pub mod Life
use neo_group_captcha_bot.Common.{
  ℕ, zero, suc, ◌+◌, ◌++◌, Bool, true, false, List, [], ◌∷◌, Option, none, some, length, ◌==◌,
  if◌then◌else◌,
}
use neo_group_captcha_bot.SharedBuffer
use neo_group_captcha_bot.SharedBuffer.Handles.{Heap, store, impl_of, Done}
use neo_group_captcha_bot.SharedBuffer.Handles

-- An object of the class: what its `pImpl` holds, or that it was destroyed.
pub data Slot : Type 0 where
  alive : Option ℕ → Slot
  gone : Slot

-- `destroyed` has the places of the impls whose destructor has run, in that order.
pub record Owners : Type 0 where
  pub heap : Heap
  pub slots : List Slot
  pub destroyed : List ℕ

abbrev pub start : Owners
start = record { heap = []; slots = []; destroyed = [] }

unfoldable pub slot : List Slot → ℕ → Slot
slot [] i = gone
slot (x ∷ xs) zero = x
slot (x ∷ xs) (suc i) = slot xs i

unfoldable pub put_slot : List Slot → ℕ → Slot → List Slot
put_slot [] i y = []
put_slot (x ∷ xs) zero y = y ∷ xs
put_slot (x ∷ xs) (suc i) y = x ∷ put_slot xs i y

-- 1 if the object points to the place `k`.
unfoldable pub points : ℕ → Slot → ℕ
points k (alive (some i)) = if i == k then 1 else 0
points k (alive none) = 0
points k gone = 0

-- The use count of the impl at the place `k`.
unfoldable pub use_count : ℕ → List Slot → ℕ
unfolding points
use_count k [] = 0
use_count k (x ∷ xs) = points k x + use_count k xs

-- `~SharedBufferImpl`, which frees the buffer.
unfoldable pub destroy_impl : ℕ → Owners → Owners
destroy_impl k s = record s {
  heap = store s.heap k (SharedBuffer.reset (impl_of s.heap (some k)));
  destroyed = s.destroyed ++ (k ∷ []);
}

-- What an object pointed to loses an owner.
unfoldable pub release : Slot → Owners → Owners
unfolding destroy_impl use_count
release (alive (some k)) s = if use_count k s.slots == 0 then destroy_impl k s else s
release (alive none) s = s
release gone s = s

-- An object is made to point elsewhere, or goes.
unfoldable pub repoint : ℕ → Slot → Owners → Owners
unfolding release put_slot slot
repoint i y s = release (slot s.slots i) (record s { slots = put_slot s.slots i y })

-- The calls that make, share and destroy objects, and the methods. A call on an object that is not
-- there does nothing. `copy` is `constructs`, `ensures`, a `memcpy`, and `destroys` if it throws.
pub data Call : Type 0 where
  constructs : Call
  copies : ℕ → Call
  assigns : ℕ → ℕ → Call
  destroys : ℕ → Call
  resizes : ℕ → ℕ → Bool → Call
  ensures : ℕ → ℕ → Call
  resets : ℕ → Call

copy_slot : Slot → Owners → Owners
copy_slot gone s = s
copy_slot (alive h) s = record s { slots = s.slots ++ (alive h ∷ []) }

assign_slot : Slot → Slot → ℕ → Owners → Owners
unfolding repoint
assign_slot (alive g) (alive h) i s = repoint i (alive h) s
assign_slot gone x i s = s
assign_slot (alive g) gone i s = s

destroy_slot : Slot → ℕ → Owners → Owners
unfolding repoint
destroy_slot gone i s = s
destroy_slot (alive h) i s = repoint i gone s

reset_slot : Slot → Owners → Owners
reset_slot gone s = s
reset_slot (alive h) s = record s { heap = Handles.reset s.heap h }

-- What a method leaves: its buffers, and its handle.
pub finish : ℕ → Done → Owners → Owners
unfolding put_slot
finish i d s = record s { heap = d.heap; slots = put_slot s.slots i (alive d.handle) }

module _ (malloc : ℕ → Bool) where
  resize_slot : Slot → ℕ → ℕ → Bool → Owners → Owners
  unfolding finish
  resize_slot gone i size keep_content s = s
  resize_slot (alive h) i size keep_content s =
      finish i (Handles.reset_size malloc s.heap h size keep_content) s

  ensure_slot : Slot → ℕ → ℕ → Owners → Owners
  unfolding finish
  ensure_slot gone i size s = s
  ensure_slot (alive h) i size s = finish i (Handles.ensure_capacity malloc s.heap h size) s

  unfoldable pub call : Call → Owners → Owners
  unfolding slot copy_slot assign_slot destroy_slot resize_slot ensure_slot reset_slot
  call constructs s = record s { slots = s.slots ++ (alive none ∷ []) }
  call (copies i) s = copy_slot (slot s.slots i) s
  call (assigns i j) s = assign_slot (slot s.slots i) (slot s.slots j) i s
  call (destroys i) s = destroy_slot (slot s.slots i) i s
  call (resizes i size keep_content) s = resize_slot (slot s.slots i) i size keep_content s
  call (ensures i size) s = ensure_slot (slot s.slots i) i size s
  call (resets i) s = reset_slot (slot s.slots i) s

  unfoldable pub run : List Call → Owners → Owners
  unfolding call
  run [] s = s
  run (c ∷ cs) s = run cs (call c s)
