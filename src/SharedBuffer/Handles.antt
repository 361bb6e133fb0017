-- ===== src/SharedBuffer/Handles.antt =====
-- src/utils/SharedBuffer.cpp, class SharedBuffer: handles that share a buffer. The impls that
-- handles point to stand in a list, and `pImpl` is the place of one or null; one that no handle
-- points to any more stays in the list and is seen by nobody.
pub mod Copies
use neo_group_captcha_bot.Common.{
  ◌+◌, ◌%◌, ◌^◌, ℕ, zero, suc, ◌++◌, Bool, true, false, ◌&&◌, not, List, [], ◌∷◌, Option, none,
  some, Bytes, length, take, drop, ltb, ◌==◌, is_empty, if◌then◌else◌,
}
use neo_group_captcha_bot.SharedBuffer.{SharedBufferImpl, new_impl, Result, returns, undefined}
use neo_group_captcha_bot.SharedBuffer
use neo_group_captcha_bot.SharedBuffer.Resize.{contents}

abbrev pub Heap : Type 0
Heap = List SharedBufferImpl

unfoldable pub at : Heap → ℕ → Option SharedBufferImpl
at [] i = none
at (p ∷ ps) zero = some p
at (p ∷ ps) (suc i) = at ps i

unfoldable pub store : Heap → ℕ → SharedBufferImpl → Heap
store [] i q = []
store (p ∷ ps) zero q = q ∷ ps
store (p ∷ ps) (suc i) q = p ∷ store ps i q

abbrev pub impl_of : Heap → Option ℕ → SharedBufferImpl
impl_of heap none = new_impl
impl_of heap (some i) = elim (at heap i) [ none ↦ new_impl | some p ↦ p ]

-- `size()`, and `get()` as whether it is null.
unfoldable pub size : Heap → Option ℕ → ℕ
unfolding new_impl at
size heap handle = (impl_of heap handle).size

unfoldable pub has_buffer : Heap → Option ℕ → Bool
unfolding new_impl at
has_buffer heap handle = elim (impl_of heap handle).buffer [ none ↦ false | some bytes ↦ true ]

unfoldable pub to_vector : Heap → Option ℕ → Bytes
unfolding new_impl at
to_vector heap handle = contents (impl_of heap handle)

-- `at` of an element of `size_of` bytes: its place in the buffer, or null.
unfoldable pub element_at : Heap → Option ℕ → ℕ → ℕ → Option ℕ
unfolding size
element_at heap handle size_of s =
    if ltb (size heap handle) ((s + size_of) % 2 ^ 64) then none else some s

-- The buffers, the handle after the call, and what it returns.
pub record Done : Type 0 where
  pub heap : Heap
  pub handle : Option ℕ
  pub result : Result

unfoldable pub reset : Heap → Option ℕ → Heap
unfolding store at
reset heap none = heap
reset heap (some i) = store heap i (SharedBuffer.reset (impl_of heap (some i)))

-- The bytes that `memcpy` writes at the start of a buffer.
abbrev write_front : SharedBufferImpl → Bytes → SharedBufferImpl
write_front p bytes = elim p.buffer [
  | none ↦ p
  | some old ↦ record p { buffer = some (bytes ++ drop (length bytes) old) }
]

finish_copy : Result → Heap → ℕ → Bytes → Option (Heap × Option ℕ)
unfolding store at
finish_copy (returns true) heap i bytes =
    some (store heap i (write_front (impl_of heap (some i)) bytes), some i)
finish_copy (returns false) heap i bytes = none
finish_copy undefined heap i bytes = none

abbrev is_false : Result → Bool
is_false (returns false) = true
is_false _ = false

module _ (malloc : ℕ → Bool) where
  -- A handle that is null gets a new impl, also if the allocation fails then.
  unfoldable pub reset_size : Heap → Option ℕ → ℕ → Bool → Done
  unfolding store at new_impl
  reset_size heap none size keep_content =
      let (p, r) = SharedBuffer.reset_size malloc new_impl size keep_content in
      record { heap = heap ++ (p ∷ []); handle = some (length heap); result = r }
  reset_size heap (some i) size keep_content =
      let (p, r) = SharedBuffer.reset_size malloc (impl_of heap (some i)) size keep_content in
      record { heap = store heap i p; handle = some i; result = r }

  -- `ensureCapacity(size, std::nothrow)`.
  unfoldable pub ensure_capacity : Heap → Option ℕ → ℕ → Done
  unfolding reset_size at
  ensure_capacity heap none size = reset_size heap none size false
  ensure_capacity heap (some i) size =
      if ltb (impl_of heap (some i)).size size
      then reset_size heap (some i) size true
      else record { heap = heap; handle = some i; result = returns true }

  -- The other `ensureCapacity`, with whether it throws `std::bad_alloc`.
  unfoldable pub require_capacity : Heap → Option ℕ → ℕ → Done × Bool
  unfolding ensure_capacity
  require_capacity heap handle size =
      if size == 0
      then (record { heap = heap; handle = handle; result = returns true }, false)
      else (ensure_capacity heap handle size, is_false (ensure_capacity heap handle size).result)

  -- `copy`: the buffers and the handle of the copy; `none` if `std::bad_alloc` is thrown.
  unfoldable pub copy : Heap → Option ℕ → Option (Heap × Option ℕ)
  unfolding ensure_capacity has_buffer finish_copy
  copy heap handle =
      if has_buffer heap handle && not (size heap handle == 0)
      then (let d = ensure_capacity heap none (size heap handle) in
          finish_copy d.result d.heap (length heap) (to_vector heap handle))
      else some (heap, none)
