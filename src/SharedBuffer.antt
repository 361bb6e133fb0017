-- ===== src/SharedBuffer.antt =====
-- src/utils/SharedBuffer.cpp: the buffers that `std::shared_ptr` shares. `malloc` is a parameter: it
-- says of each size whether it succeeds. The mutex makes each method of SharedBufferImpl one step.
pub mod Resize
pub mod Handles
pub mod Owners
use neo_group_captcha_bot.Common.{
  ℕ, zero, suc, ◌+◌, ◌-◌, ◌*◌, ◌/◌, ◌^◌, ◌%◌, ◌++◌, Bool, true, false, ◌&&◌, ◌||◌, not, List, [],
  ◌∷◌, Option, none, some, Bytes, length, take, drop, replicate, ltb, leb, ◌==◌, if◌then◌else◌,
}
use neo_group_captcha_bot.Single.{Single, to_single, truncated}

-- `int(float(size) / LOAD_FACTOR)`, where LOAD_FACTOR is 3/4; `none` if the value is no `int`, and
-- the conversion is undefined.
unfoldable pub quotient : ℕ → ℕ
quotient size = let f = to_single size 1 in truncated (to_single (f.num * 4) (f.den * 3))

unfoldable pub grown_size : ℕ → Option ℕ
grown_size size = if ltb (quotient size) (2 ^ 31) then some (quotient size) else none

-- `none` is the null pointer; the bytes of a buffer are as many as `mActualSize`.
pub record SharedBufferImpl : Type 0 where
  pub buffer : Option Bytes
  pub size : ℕ
  pub actual_size : ℕ

unfoldable pub new_impl : SharedBufferImpl
new_impl = record { buffer = none; size = 0; actual_size = 0 }

-- What a method returns, or that its behaviour is undefined.
pub data Result : Type 0 where
  returns : Bool → Result
  undefined : Result

-- The contents of the new buffer: `memcpy` of `copied` bytes, and zeros.
abbrev pub moved : Bytes → ℕ → ℕ → Bytes
moved old copied new_size = take copied old ++ replicate (new_size - copied) 0

abbrev is_present : Option Bytes → Bool
is_present none = false
is_present (some bytes) = true

-- `std::min(size, mSize)` bytes if the content is kept, and none else.
abbrev pub copied_bytes : Bool → ℕ → ℕ → ℕ
copied_bytes keep_content size old_size =
    if keep_content then (if ltb old_size size then old_size else size) else 0

-- `SharedBufferImpl::reset`.
unfoldable pub reset : SharedBufferImpl → SharedBufferImpl
unfolding new_impl
reset p = elim p.buffer [ none ↦ p | some bytes ↦ new_impl ]

module _ (malloc : ℕ → Bool) where
  -- The buffer is replaced by one of `new_size` bytes; copying past the end of either is undefined.
  unfoldable pub replace : SharedBufferImpl → Bytes → ℕ → ℕ → ℕ → SharedBufferImpl × Result
  replace p old copied new_size size =
      if not (malloc new_size)
      then (p, returns false)
      else if ltb new_size copied || ltb p.actual_size copied
      then (p, undefined)
      else (
        record { buffer = some (moved old copied new_size); size = size; actual_size = new_size },
        returns true,
      )

  unfoldable pub grow : Option ℕ → SharedBufferImpl → Bytes → ℕ → ℕ → SharedBufferImpl × Result
  unfolding replace
  grow none p old copied size = (p, undefined)
  grow (some new_size) p old copied size = replace p old copied new_size size

  unfoldable pub resize_present : SharedBufferImpl → Bytes → ℕ → Bool → SharedBufferImpl × Result
  unfolding grow
  resize_present p old size keep_content =
      if ltb (size * 2 % 2 ^ 64) p.actual_size || ltb p.actual_size size
      then grow (grown_size size) p old (copied_bytes keep_content size p.size) size
      else (record p { size = size }, returns true)

  -- `SharedBufferImpl::resetSize`.
  unfoldable pub reset_size : SharedBufferImpl → ℕ → Bool → SharedBufferImpl × Result
  unfolding resize_present
  reset_size p size keep_content =
      if size == 0 then (record p { size = 0 }, returns (is_present p.buffer)) else elim p.buffer [
        | some old ↦ resize_present p old size keep_content
        | none ↦
            if malloc size
            then (
              record { buffer = some (replicate size 0); size = size; actual_size = size },
              returns true,
            )
            else (p, returns false)
      ]
