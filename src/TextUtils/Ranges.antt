-- ===== src/TextUtils/Ranges.antt =====
-- src/utils/TextUtils.cpp: the numbers that `parseInt32` and its kin give.
use native.Mathlib.Nat.{one-le-pow}
use neo_group_captcha_bot.Common.{
  ℕ, zero, suc, ◌-◌, ◌^◌, ◌≤◌, ◌<◌, ◌≡◌, refl, Bool, true, false, [], ◌∷◌, ℤ, pos, negsuc, Bytes,
  ltb, leb, ltb→lt, leb→le, ◌==◌, arith, Bool-cases, inl, inr, ◌⊎◌,
}
use neo_group_captcha_bot.IoUtils.{negated}
use neo_group_captcha_bot.TextUtils.Numbers.{
  read_digits, starts_number, parse_signed, parse_negative, parse_positive,
}

-- The numbers of a signed type.
abbrev pub Fits : ℕ → ℤ → Type 0
Fits bits (pos n) = n < 2 ^ (bits - 1)
Fits bits (negsuc n) = suc n ≤ 2 ^ (bits - 1)

-- An error that leaves the result, or a number that fits.
abbrev pub IsParsed : ℕ → ℤ → Bool × ℤ → Type 0
IsParsed bits result r =
    (r ≡ (false, result)) ⊎ ((value : ℤ) × (r ≡ (true, value)) × Fits bits value)

negated-Fits : (bits n : ℕ) → n ≤ 2 ^ (bits - 1) → Fits bits (negated n)
negated-Fits bits zero h = one-le-pow (bits - 1) 2 (omega arith)
negated-Fits bits (suc n) h = h

parse_negative-IsParsed :
    (bits : ℕ) (result : ℤ) (text : Bytes) (base : ℕ)
    → IsParsed bits result (parse_negative bits result text base)
parse_negative-IsParsed bits result text base =
    let value = read_digits base 0 text in
    elim (Bool-cases (starts_number base text)) [
      | inr f ↦ rw f (inl refl)
      | inl t ↦ elim (Bool-cases (leb value (2 ^ (bits - 1)))) [
        | inr g ↦ rw (t, g) (inl refl)
        | inl g ↦
            rw (t, g)
              (inr (negated value, refl, negated-Fits bits value (leb→le value (2 ^ (bits - 1)) g)))
      ]
    ]

parse_positive-IsParsed :
    (bits : ℕ) (result : ℤ) (text : Bytes) (base : ℕ)
    → IsParsed bits result (parse_positive bits result text base)
parse_positive-IsParsed bits result text base =
    let value = read_digits base 0 text in
    elim (Bool-cases (starts_number base text)) [
      | inr f ↦ rw f (inl refl)
      | inl t ↦ elim (Bool-cases (ltb value (2 ^ (bits - 1)))) [
        | inr g ↦ rw (t, g) (inl refl)
        | inl g ↦ rw (t, g) (inr (pos value, refl, ltb→lt value (2 ^ (bits - 1)) g))
      ]
    ]

-- Whatever the text and the base: either an error leaves the result as it was, or the result is a
-- number of the signed type.
parse_signed-IsParsed :
    (bits : ℕ) (result : ℤ) (text : Bytes) (base : ℕ)
    → IsParsed bits result (parse_signed bits result text base)
unfolding parse_signed
parse_signed-IsParsed bits result [] base = inl refl
parse_signed-IsParsed bits result (c ∷ cs) base = elim (Bool-cases (c == 45)) [
  | inl t ↦ rw t (parse_negative-IsParsed bits result cs base)
  | inr f ↦ rw f (parse_positive-IsParsed bits result (c ∷ cs) base)
]
