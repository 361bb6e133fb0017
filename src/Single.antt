-- ===== src/Single.antt =====
-- `float` arithmetic as src/utils/SharedBuffer.cpp uses it: values of 24 bits, rounded to the nearest
-- and to the even one of two, of fractions that are 0 or at least 1.
use neo_group_captcha_bot.Common.{
  ℕ, zero, suc, ◌+◌, ◌*◌, ◌/◌, ◌%◌, ◌^◌, ◌≤◌, ◌<◌, ◌≡◌, refl, ap, ◌∙◌, ◌⊎◌, inl, inr, ltb, lt→ltb,
  ge→ltb, ◌==◌, if◌then◌else◌, arith,
}
use native.Mathlib.Decide.{dec_lt}
use native.Mathlib.Nat.{
  div-mul-le_self, lt-div-mul-add, le-div_iff_mul-le, mul-le-mul_right, add-div_right, div-one,
  add-mul, div-div-eq-div-mul, mul-div-mul_right,
}

-- The value `num / den`.
pub record Single : Type 0 where
  pub num : ℕ
  pub den : ℕ

unfoldable pub round_even : ℕ → ℕ → ℕ
round_even a b =
    let q = a / b in
    let r = a % b in if ltb (2 * r) b then q else if 2 * r == b then q + q % 2 else q + 1

-- The weight of the last bit of a number of at least 24 bits.
unfoldable pub last_bit : ℕ → ℕ → ℕ
last_bit zero n = 1
last_bit (suc fuel) n = let rest = last_bit fuel (n / 2) in if ltb n (2 ^ 24) then 1 else 2 * rest

-- What a fraction below 2^24 is multiplied by to have 24 bits before the point.
unfoldable pub scale : ℕ → ℕ → ℕ → ℕ
scale zero a b = 1
scale (suc fuel) a b =
    let rest = scale fuel (2 * a) b in if ltb (a / b) (2 ^ 23) then 2 * rest else 1

-- The nearest `float` to `a / b`. The fuel is enough for what is below 2^88.
unfoldable pub to_single : ℕ → ℕ → Single
unfolding round_even last_bit scale
to_single a b =
    if ltb (a / b) (2 ^ 24)
    then (let c = scale 24 a b in record { num = round_even (a * c) b; den = c })
    else (let u = last_bit 64 (a / b) in record { num = round_even a (b * u) * u; den = 1 })

-- Truncated towards zero.
abbrev pub truncated : Single → ℕ
truncated x = x.num / x.den

round_even-ge : (a b : ℕ) → a / b ≤ round_even a b
unfolding round_even
round_even-ge a b = ground arith

round_even-le : (a b : ℕ) → round_even a b ≤ a / b + 1
unfolding round_even
round_even-le a b = ground arith

round_even_exact : (a : ℕ) → round_even a 1 ≡ a
unfolding round_even
round_even_exact a = ground arith

scale-pos : (fuel a b : ℕ) → 0 < scale fuel a b
unfolding scale
scale-pos zero a b = omega arith
scale-pos (suc fuel) a b = ground (arith, scale-pos fuel (2 * a) b)

last_bit-pos : (fuel n : ℕ) → 0 < last_bit fuel n
unfolding last_bit
last_bit-pos zero n = omega arith
last_bit-pos (suc fuel) n = ground (arith, last_bit-pos fuel (n / 2))

last_bit-le : (fuel n : ℕ) → 2 ^ 23 ≤ n → last_bit fuel n * 2 ^ 23 ≤ n
unfolding last_bit
last_bit-le zero n h = omega (arith, h)
last_bit-le (suc fuel) n h = ground (arith, last_bit-le fuel (n / 2), h)

pub den-pos : (a b : ℕ) → 0 < (to_single a b).den
unfolding to_single
den-pos a b = ground (arith, scale-pos 24 a b)

-- The two cases of `to_single`.
Small : ℕ → ℕ → Single
Small a b = record { num = round_even (a * scale 24 a b) b; den = scale 24 a b }

Large : ℕ → ℕ → Single
Large a b = record { num = round_even a (b * last_bit 64 (a / b)) * last_bit 64 (a / b); den = 1 }

to_single-small : (a b : ℕ) → a / b < 2 ^ 24 → to_single a b ≡ Small a b
unfolding to_single Small
to_single-small a b h = rw (lt→ltb (a / b) (2 ^ 24) h) refl

to_single-large : (a b : ℕ) → 2 ^ 24 ≤ a / b → to_single a b ≡ Large a b
unfolding to_single Large
to_single-large a b h = rw (ge→ltb (a / b) (2 ^ 24) h) refl

-- A number below 2^24 is exact.
pub small_exact : (a : ℕ) → a < 2 ^ 24 → (to_single a 1).num ≡ a * (to_single a 1).den
unfolding Small
small_exact a h = rw (to_single-small a 1 (omega (arith, h))) (round_even_exact (a * scale 24 a 1))

div-le-div : {m n : ℕ} (c : ℕ) → 0 < c → m ≤ n → m / c ≤ n / c
div-le-div {m} {n} c h le = (le-div_iff_mul-le h).1 (omega (arith, div-mul-le_self m c, le))

Small-ge : (a b : ℕ) → 0 < b → a / b ≤ truncated (Small a b)
unfolding Small
Small-ge a b h =
    let c = scale 24 a b in
    let e : a * c / b / c ≡ a / b =
      div-div-eq-div-mul (a * c) b c ∙ mul-div-mul_right a b (scale-pos 24 a b) in
    omega (arith, e, div-le-div c (scale-pos 24 a b) (round_even-ge (a * c) b))

Small-le : (a b : ℕ) → 0 < b → truncated (Small a b) ≤ a / b + 1
unfolding Small
Small-le a b h =
    let c = scale 24 a b in
    let e : a * c / b / c ≡ a / b =
      div-div-eq-div-mul (a * c) b c ∙ mul-div-mul_right a b (scale-pos 24 a b) in
    let m : round_even (a * c) b ≤ a * c / b + c =
      omega (arith, round_even-le (a * c) b, scale-pos 24 a b) in
    omega
      (arith, e, div-le-div c (scale-pos 24 a b) m, add-div_right (a * c / b) (scale-pos 24 a b))

Large-ge : (a b : ℕ) → 0 < b → 2 ^ 24 ≤ a / b → a / b ≤ truncated (Large a b) + a / b / 2 ^ 23
unfolding Large
Large-ge a b h k =
    let u = last_bit 64 (a / b) in
    let t : a / b / u * u ≤ round_even a (b * u) * u =
      mul-le-mul_right u (omega (arith, div-div-eq-div-mul a b u, round_even-ge a (b * u))) in
    omega (
      arith,
      t,
      div-one (round_even a (b * u) * u),
      lt-div-mul-add {a = a / b} (last_bit-pos 64 (a / b)),
      last_bit-le 64 (a / b) (omega (arith, k)),
    )

Large-le : (a b : ℕ) → 0 < b → 2 ^ 24 ≤ a / b → truncated (Large a b) ≤ a / b + a / b / 2 ^ 23
unfolding Large
Large-le a b h k =
    let u = last_bit 64 (a / b) in
    let t : round_even a (b * u) * u ≤ (a / b / u + 1) * u =
      mul-le-mul_right u (omega (arith, div-div-eq-div-mul a b u, round_even-le a (b * u))) in
    omega (
      arith,
      t,
      div-one (round_even a (b * u) * u),
      add-mul (a / b / u) 1 u,
      div-mul-le_self (a / b) u,
      last_bit-le 64 (a / b) (omega (arith, k)),
    )

-- Rounding moves a value by at most the part 1 / 2^23 of it, and by less than 1 if that is less.
pub truncated-ge : (a b : ℕ) → 0 < b → a / b ≤ truncated (to_single a b) + a / b / 2 ^ 23
truncated-ge a b h = elim (dec_lt (a / b) (2 ^ 24)) [
  | yes p ↦ rw (to_single-small a b p) (omega (arith, Small-ge a b h))
  | no p ↦ rw (to_single-large a b (omega (arith, p))) (Large-ge a b h (omega (arith, p)))
]

pub truncated-le : (a b : ℕ) → 0 < b → truncated (to_single a b) ≤ a / b + a / b / 2 ^ 23 + 1
truncated-le a b h = elim (dec_lt (a / b) (2 ^ 24)) [
  | yes p ↦ rw (to_single-small a b p) (omega (arith, Small-le a b h))
  | no p ↦
      rw (to_single-large a b (omega (arith, p))) (omega (arith, Large-le a b h (omega (arith, p))))
]

-- A `size_t` as a `float`: exact, or a whole number.
pub whole-or-exact :
    (a : ℕ)
    → ((to_single a 1).num ≡ a * (to_single a 1).den) ⊎ ((2 ^ 24 ≤ a) × ((to_single a 1).den ≡ 1))
unfolding Large
whole-or-exact a = elim (dec_lt a (2 ^ 24)) [
  | yes p ↦ inl (small_exact a p)
  | no p ↦ inr (omega (arith, p), ap (λ x. x.den) (to_single-large a 1 (omega (arith, p))))
]
