-- ===== src/ProcessUtils/Numbers.antt =====
-- src/utils/ProcessUtils.cpp: what its calls of `std::stoi` read, in base 10.
use neo_group_captcha_bot.Common.{
  ℕ, ◌+◌, ◌-◌, ◌*◌, ◌^◌, Bool, true, false, ◌&&◌, ◌||◌, [], ◌∷◌, Option, none, some, ℤ, pos, Bytes,
  ltb, leb, ◌==◌, if◌then◌else◌,
}
use neo_group_captcha_bot.IoUtils.{negated}

abbrev pub is_digit : ℕ → Bool
is_digit c = leb 48 c && leb c 57

-- `isspace`: the space, and the bytes from 9 to 13.
abbrev pub is_space : ℕ → Bool
is_space c = c == 32 || (leb 9 c && leb c 13)

abbrev pub without_spaces : Bytes → Bytes
without_spaces [] = []
without_spaces (c ∷ cs) = if is_space c then without_spaces cs else c ∷ cs

-- The number that the digits at the front make after the number before them.
unfoldable pub digits_from : ℕ → Bytes → ℕ
digits_from n [] = n
digits_from n (c ∷ cs) =
    let rest = digits_from (n * 10 + (c - 48)) cs in if is_digit c then rest else n

abbrev pub starts_digit : Bytes → Bool
starts_digit [] = false
starts_digit (c ∷ cs) = is_digit c

-- An `int` goes from -2^31 to 2^31 - 1; `none` where `std::stoi` throws.
unfoldable pub signed_int : Bool → Bytes → Option ℤ
unfolding digits_from
signed_int minus text =
    if starts_digit text
    then if minus
      then if leb (digits_from 0 text) (2 ^ 31) then some (negated (digits_from 0 text)) else none
      else if ltb (digits_from 0 text) (2 ^ 31)
      then some (pos (digits_from 0 text))
      else none
    else none

abbrev pub after_spaces : Bytes → Option ℤ
after_spaces [] = none
after_spaces (c ∷ cs) =
    if c == 45
    then signed_int true cs
    else if c == 43
    then signed_int false cs
    else signed_int false (c ∷ cs)

unfoldable pub stoi : Bytes → Option ℤ
unfolding signed_int
stoi text = after_spaces (without_spaces text)
