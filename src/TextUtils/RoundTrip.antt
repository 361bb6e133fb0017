-- ===== src/TextUtils/RoundTrip.antt =====
-- src/utils/TextUtils.cpp: printing and parsing numbers.
use native.Mathlib.Nat.{mod-add-div, mod-lt, mul_comm, div-lt_self}
use neo_group_captcha_bot.Common.{
  ℕ, zero, suc, ◌+◌, ◌-◌, ◌*◌, ◌/◌, ◌%◌, ◌^◌, ◌≤◌, ◌<◌, ◌≡◌, refl, ap, ◌++◌, append_assoc, true,
  false, Bool, leb, [], ◌∷◌, ℤ, pos, negsuc, Bytes, ltb, ltb→lt, lt→ltb, ltb→ge, le→leb, ◌∙◌, ◌==◌,
  if◌then◌else◌, arith, Bool-cases, inl, inr,
}
use neo_group_captcha_bot.TextUtils.Ranges.{Fits}
use neo_group_captcha_bot.TextUtils.Numbers.{
  digit_value, read_digits, starts_number, parse_unsigned, parse_signed, parse_positive,
  parse_int32, parse_int64, parse_uint32, parse_uint64,
}

-- A digit, and a number in a base: the quotient's digits before the last.
abbrev pub digit : ℕ → ℕ
digit d = if ltb d 10 then 48 + d else 87 + d

abbrev pub print_loop : ℕ → ℕ → ℕ → Bytes
print_loop zero base n = []
print_loop (suc fuel) base n =
    let front = print_loop fuel base (n / base) in
    if ltb n base then digit n ∷ [] else front ++ (digit (n % base) ∷ [])

-- With a base of 2 at least there are no more digits than the number and one.
abbrev pub print : ℕ → ℕ → Bytes
print base n = print_loop (suc n) base n

abbrev pub print_signed : ℕ → ℤ → Bytes
print_signed base (pos n) = print base n
print_signed base (negsuc n) = 45 ∷ print base (suc n)

digit_value-digit : (d : ℕ) → d < 36 → digit_value (digit d) ≡ d
unfolding digit_value
digit_value-digit d h = ground (arith, h)

read-digit :
    (base n d : ℕ) (rest : Bytes)
    → d < base
    → base ≤ 36
    → read_digits base n (digit d ∷ rest) ≡ read_digits base (n * base + d) rest
unfolding read_digits
read-digit base n d rest h k =
    let e : digit_value (digit d) ≡ d = digit_value-digit d (omega (arith, h, k)) in
    rw (e, lt→ltb d base h) refl

quotient-lt : (base n fuel : ℕ) → 2 ≤ base → base ≤ n → n < suc fuel → n / base < fuel
quotient-lt base n fuel b g h =
    let l : n / base < n = div-lt_self {n = n} {k = base} (omega (arith, b, g)) b in
    omega (arith, l, h)

last_digit : (base n : ℕ) → n / base * base + n % base ≡ n
last_digit base n = omega (arith, mod-add-div n base, mul_comm base (n / base))

read-print_loop :
    (fuel base n : ℕ) (rest : Bytes)
    → 2 ≤ base
    → base ≤ 36
    → n < fuel
    → read_digits base 0 (print_loop fuel base n ++ rest) ≡ read_digits base n rest
read-print_loop zero base n rest b k h = absurd (omega (arith, h))
read-print_loop (suc fuel) base n rest b k h = elim (Bool-cases (ltb n base)) [
  | inl t ↦
      let z : 0 * base + n ≡ n = omega arith in
      rw t (read-digit base 0 n rest (ltb→lt n base t) k ∙ ap (λ m. read_digits base m rest) z)
  | inr f ↦
      let front : Bytes = print_loop fuel base (n / base) in
      let d : ℕ = n % base in
      let q : n / base < fuel = quotient-lt base n fuel b (ltb→ge n base f) h in
      let last = read-digit base (n / base) d rest (mod-lt n (omega (arith, b))) k in
      rw
        (
          f,
          append_assoc front (digit d ∷ []) rest,
          read-print_loop fuel base (n / base) (digit d ∷ rest) b k q,
          last,
          last_digit base n,
        )
        refl
]

starts-print_loop :
    (fuel base n : ℕ) (rest : Bytes)
    → 2 ≤ base
    → base ≤ 36
    → n < fuel
    → starts_number base (print_loop fuel base n ++ rest) ≡ true
starts-print_loop zero base n rest b k h = absurd (omega (arith, h))
starts-print_loop (suc fuel) base n rest b k h = elim (Bool-cases (ltb n base)) [
  | inl t ↦
      let l : n < base = ltb→lt n base t in
      rw (t, digit_value-digit n (omega (arith, l, k)), t) refl
  | inr f ↦
      let front : Bytes = print_loop fuel base (n / base) in
      let q : n / base < fuel = quotient-lt base n fuel b (ltb→ge n base f) h in
      rw (f, append_assoc front (digit (n % base) ∷ []) rest)
        (starts-print_loop fuel base (n / base) (digit (n % base) ∷ rest) b k q)
]

-- Reading stops before a byte that is no digit.
read-other :
    (base n : ℕ) (rest : Bytes) → starts_number base rest ≡ false → read_digits base n rest ≡ n
unfolding read_digits
read-other base n [] h = refl
read-other base n (c ∷ cs) h = rw h refl

read-print :
    (base n : ℕ) (rest : Bytes)
    → 2 ≤ base
    → base ≤ 36
    → starts_number base rest ≡ false
    → read_digits base 0 (print base n ++ rest) ≡ n
read-print base n rest b k h =
    read-print_loop (suc n) base n rest b k (omega arith) ∙ read-other base n rest h

-- Printed digits do not start with a '-'.
no_minus :
    (bits base : ℕ) (result : ℤ) (text : Bytes)
    → starts_number base text ≡ true
    → base ≤ 36
    → parse_signed bits result text base ≡ parse_positive bits result text base
unfolding parse_signed digit_value
no_minus bits base result [] h k = absurd (ground (arith, h))
no_minus bits base result (c ∷ cs) h k =
    let e : (c == 45) ≡ false = ground (arith, h, k) in rw e refl

-- What a parser gives of a number that it may have no room for.
abbrev pub signed_result : ℕ → ℤ → ℤ → Bool × ℤ
signed_result bits result (pos n) =
    if ltb n (2 ^ (bits - 1)) then (true, pos n) else (false, result)
signed_result bits result (negsuc n) =
    if leb (suc n) (2 ^ (bits - 1)) then (true, negsuc n) else (false, result)

abbrev pub unsigned_result : ℕ → ℕ → ℕ → Bool × ℕ
unsigned_result bits result n = if ltb n (2 ^ bits) then (true, n) else (false, result)

parse_unsigned-read :
    (bits result base n : ℕ) (rest : Bytes)
    → 2 ≤ base
    → base ≤ 36
    → starts_number base rest ≡ false
    → parse_unsigned bits result (print base n ++ rest) base ≡ unsigned_result bits result n
unfolding parse_unsigned
parse_unsigned-read bits result base n rest b k h =
    rw (starts-print_loop (suc n) base n rest b k (omega arith), read-print base n rest b k h) refl

parse_signed-read :
    (bits base : ℕ) (result value : ℤ) (rest : Bytes)
    → 2 ≤ base
    → base ≤ 36
    → starts_number base rest ≡ false
    → parse_signed bits result (print_signed base value ++ rest) base
      ≡ signed_result bits result value
unfolding parse_signed
parse_signed-read bits base result (pos n) rest b k h =
    let s = starts-print_loop (suc n) base n rest b k (omega arith) in
    no_minus bits base result (print base n ++ rest) s k ∙ rw (s, read-print base n rest b k h) refl
parse_signed-read bits base result (negsuc n) rest b k h =
    rw
      (
        starts-print_loop (suc (suc n)) base (suc n) rest b k (omega arith),
        read-print base (suc n) rest b k h,
      )
      refl

pub parse_signed-print :
    (bits base : ℕ) (result value : ℤ) (rest : Bytes)
    → 2 ≤ base
    → base ≤ 36
    → Fits bits value
    → starts_number base rest ≡ false
    → parse_signed bits result (print_signed base value ++ rest) base ≡ (true, value)
parse_signed-print bits base result (pos n) rest b k l h =
    parse_signed-read bits base result (pos n) rest b k h ∙ rw (lt→ltb n (2 ^ (bits - 1)) l) refl
parse_signed-print bits base result (negsuc n) rest b k l h =
    parse_signed-read bits base result (negsuc n) rest b k h
    ∙ rw (le→leb (suc n) (2 ^ (bits - 1)) l) refl

-- The four parsers on printed numbers, in each base from 2 to 36, with a '-' before a negative one,
-- and whatever follows, if that does not start with a digit of the base: each gives the number if it
-- is one of its type (of 32 or 64 bits, signed or not), and otherwise an error, and leaves the result
-- as it was.
pub parse_int32-print :
    (base : ℕ) (value old : ℤ) (n m : ℕ) (rest : Bytes)
    → 2 ≤ base
    → base ≤ 36
    → starts_number base rest ≡ false
    → (parse_int32 old (print_signed base value ++ rest) base ≡ signed_result 32 old value)
      × (parse_int64 old (print_signed base value ++ rest) base ≡ signed_result 64 old value)
      × (parse_uint32 m (print base n ++ rest) base ≡ unsigned_result 32 m n)
      × (parse_uint64 m (print base n ++ rest) base ≡ unsigned_result 64 m n)
unfolding parse_int32 parse_int64 parse_uint32 parse_uint64
parse_int32-print base value old n m rest b k h = (
  parse_signed-read 32 base old value rest b k h,
  parse_signed-read 64 base old value rest b k h,
  parse_unsigned-read 32 m base n rest b k h,
  parse_unsigned-read 64 m base n rest b k h,
)
