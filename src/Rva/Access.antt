-- ===== src/Rva/Access.antt =====
-- src/utils/Rva.h: which offsets are let through.
use neo_group_captcha_bot.Common.{
  ℕ, ◌+◌, ◌-◌, ◌≤◌, ◌<◌, ◌≡◌, ◌↔◌, ◌⊎◌, true, none, some, two_64, if◌then◌else◌, arith,
}
use neo_group_captcha_bot.Rva.{Rva, access, at}

-- `access` lets an offset through exactly if the value ends within the length, or if the sum of
-- offset and size wraps around to a number within the length; and `at` gives the address of the
-- offset exactly then.
access_iff :
    (rva : Rva) (size_of offset : ℕ)
    → offset < two_64
    → size_of < two_64
    → rva.length < two_64
    → ((access rva size_of offset ≡ true) ↔ (
        (offset + size_of ≤ rva.length)
        ⊎ ((two_64 ≤ offset + size_of) × (offset + size_of - two_64 ≤ rva.length))))
      × (at rva size_of offset
          ≡ (if access rva size_of offset then some (rva.address + offset) else none))
unfolding access at
access_iff rva size_of offset a b c = ground arith
