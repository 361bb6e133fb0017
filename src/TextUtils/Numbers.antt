-- ===== src/TextUtils/Numbers.antt =====
-- src/utils/TextUtils.cpp: `parseInt32` and its kin, over `std::from_chars`: digits of the base, in
-- either case, after a '-' for the signed types; what follows the digits is passed over.
use neo_group_captcha_bot.Common.{
  ℕ, ◌+◌, ◌-◌, ◌*◌, ◌^◌, Bool, true, false, ◌&&◌, [], ◌∷◌, ℤ, pos, Bytes, ltb, leb, ◌==◌,
  if◌then◌else◌,
}
use neo_group_captcha_bot.IoUtils.{negated}

-- The value of a byte as a digit: 36 for a byte that is none.
unfoldable pub digit_value : ℕ → ℕ
digit_value c =
    if leb 48 c && leb c 57
    then c - 48
    else if leb 65 c && leb c 90
    then c - 55
    else if leb 97 c && leb c 122
    then c - 87
    else 36

-- The number that the digits at the front make after the number before them.
unfoldable pub read_digits : ℕ → ℕ → Bytes → ℕ
unfolding digit_value
read_digits base n [] = n
read_digits base n (c ∷ cs) =
    let rest = read_digits base (n * base + digit_value c) cs in
    if ltb (digit_value c) base then rest else n

abbrev pub starts_number : ℕ → Bytes → Bool
starts_number base [] = false
starts_number base (c ∷ cs) = ltb (digit_value c) base

-- What is returned, and `*result`, which stays as it is after an error.
unfoldable pub parse_unsigned : ℕ → ℕ → Bytes → ℕ → Bool × ℕ
unfolding read_digits
parse_unsigned bits result str base =
    let value = read_digits base 0 str in
    if starts_number base str
    then if ltb value (2 ^ bits) then (true, value) else (false, result)
    else (false, result)

-- The digits after a '-', down to -2^(bits - 1), or without one.
abbrev pub parse_negative : ℕ → ℤ → Bytes → ℕ → Bool × ℤ
parse_negative bits result str base =
    let value = read_digits base 0 str in
    if starts_number base str
    then if leb value (2 ^ (bits - 1)) then (true, negated value) else (false, result)
    else (false, result)

abbrev pub parse_positive : ℕ → ℤ → Bytes → ℕ → Bool × ℤ
parse_positive bits result str base =
    let value = read_digits base 0 str in
    if starts_number base str
    then if ltb value (2 ^ (bits - 1)) then (true, pos value) else (false, result)
    else (false, result)

unfoldable pub parse_signed : ℕ → ℤ → Bytes → ℕ → Bool × ℤ
unfolding read_digits
parse_signed bits result [] base = (false, result)
parse_signed bits result (c ∷ cs) base =
    if c == 45 then parse_negative bits result cs base else parse_positive bits result (c ∷ cs) base

unfoldable pub parse_int32 : ℤ → Bytes → ℕ → Bool × ℤ
unfolding parse_signed
parse_int32 result str base = parse_signed 32 result str base

unfoldable pub parse_uint32 : ℕ → Bytes → ℕ → Bool × ℕ
unfolding parse_unsigned
parse_uint32 result str base = parse_unsigned 32 result str base

unfoldable pub parse_int64 : ℤ → Bytes → ℕ → Bool × ℤ
unfolding parse_signed
parse_int64 result str base = parse_signed 64 result str base

unfoldable pub parse_uint64 : ℕ → Bytes → ℕ → Bool × ℕ
unfolding parse_unsigned
parse_uint64 result str base = parse_unsigned 64 result str base
