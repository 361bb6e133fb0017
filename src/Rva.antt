-- ===== src/Rva.antt =====
-- src/utils/Rva.h: `access` and `at`, and the two `at` of src/utils/SharedBuffer.h, which make the
-- same test. The size of the type is an argument.
pub mod Access
use neo_group_captcha_bot.Common.{
  ℕ, ◌+◌, ◌%◌, Bool, not, Option, none, some, ltb, two_64, if◌then◌else◌,
}

pub record Rva : Type 0 where
  pub address : ℕ
  pub length : ℕ  -- size_t

-- `access<T>(offset)`: the sum is a `size_t`.
unfoldable pub access : Rva → ℕ → ℕ → Bool
access rva size_of offset = not (ltb rva.length ((offset + size_of) % two_64))

-- `at<T>(offset)`: an address, or null.
unfoldable pub at : Rva → ℕ → ℕ → Option ℕ
at rva size_of offset =
    if ltb rva.length ((offset + size_of) % two_64) then none else some (rva.address + offset)
