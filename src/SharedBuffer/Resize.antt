-- ===== src/SharedBuffer/Resize.antt =====
-- src/utils/SharedBuffer.cpp: `resetSize` of one buffer.
use neo_group_captcha_bot.Common.{
  ℕ, zero, suc, ◌≤◌, ◌≡◌, ◌≢◌, refl, ap, ◌⊎◌, ◌++◌, true, false, List, [], ◌∷◌, Option, none, some,
  Bytes, length, take, arith,
}
use neo_group_captcha_bot.SharedBuffer.{SharedBufferImpl, Result, returns, undefined}

-- The sizes for which the new size is computed with no overflow, with room to spare.
abbrev pub size_limit : ℕ
size_limit = 1500000000

-- Without a buffer the size is 0; a buffer has `mActualSize` bytes, and the size is within them.
abbrev pub HasBytes : Option Bytes → ℕ → ℕ → Type 0
HasBytes none size actual_size = size ≡ 0
HasBytes (some bytes) size actual_size = (length bytes ≡ actual_size) × (size ≤ actual_size)

abbrev pub IsValid : SharedBufferImpl → Type 0
IsValid p = HasBytes p.buffer p.size p.actual_size

-- The bytes that a caller sees.
abbrev pub visible : Option Bytes → ℕ → Bytes
visible none size = []
visible (some bytes) size = take size bytes

abbrev pub contents : SharedBufferImpl → Bytes
contents p = visible p.buffer p.size

pub take-append :
    {A : Type 0} (m : ℕ) (xs ys : List A) → m ≤ length xs → take m (xs ++ ys) ≡ take m xs
take-append zero xs ys h = refl
take-append (suc m) [] ys h = absurd (omega arith)
take-append (suc m) (x ∷ xs) ys h = ap (◌∷◌ x) (take-append m xs ys (omega arith))

-- What a change of the size to `size` must give: the buffer is still well-formed, and either the
-- call fails and the bytes stay, or it has the size and the first `kept` bytes.
pub record Resized (p : SharedBufferImpl) (kept size : ℕ) (q : SharedBufferImpl) (r : Result)
    : Type 0 where
  pub valid : IsValid q
  pub defined : r ≢ undefined
  pub outcome :
      ((r ≡ returns false) × (contents q ≡ contents p))
      ⊎ ((r ≡ returns true) × (q.size ≡ size) × (take kept (contents q) ≡ take kept (contents p)))
