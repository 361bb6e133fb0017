-- ===== src/Uuid/Shape.antt =====
-- src/utils/Uuid.cpp: the form of a random UUID (version 4, variant 1).
use neo_group_captcha_bot.Common.{
  ℕ, zero, suc, ◌≤◌, ◌<◌, ◌≡◌, refl, ◌++◌, Bool, true, false, ◌&&◌, ◌||◌, List, [], ◌∷◌, Bytes, leb,
  ◌==◌, arith, ap, ◌∙◌, sym, append-nil,
}
use neo_group_captcha_bot.Uuid.{hex_digit, write_digits, random_uuid}

abbrev pub is_hex : ℕ → Bool
is_hex c = (leb 48 c && leb c 57) || (leb 97 c && leb c 102)

abbrev pub is_variant : ℕ → Bool
is_variant c = c == 56 || (c == 57 || (c == 97 || c == 98))

abbrev pub is_dash : ℕ → Bool
is_dash c = c == 45

abbrev pub is_four : ℕ → Bool
is_four c = c == 52

abbrev pub times : ℕ → (ℕ → Bool) → List (ℕ → Bool) → List (ℕ → Bool)
times zero p ps = ps
times (suc n) p ps = p ∷ times n p ps

-- xxxxxxxx-xxxx-4xxx-yxxx-xxxxxxxxxxxx
abbrev pub uuid_form : List (ℕ → Bool)
uuid_form = times 8 is_hex (
    is_dash
    ∷ times 4 is_hex (
        is_dash
        ∷ is_four
        ∷ times 3 is_hex (is_dash ∷ is_variant ∷ times 3 is_hex (is_dash ∷ times 12 is_hex []))))

-- Byte for byte, and of the same length.
abbrev pub fits : List (ℕ → Bool) → Bytes → Bool
fits [] [] = true
fits [] (c ∷ cs) = false
fits (p ∷ ps) [] = false
fits (p ∷ ps) (c ∷ cs) = p c && fits ps cs

is_hex-hex_digit : (n : ℕ) → n < 16 → is_hex (hex_digit n) ≡ true
is_hex-hex_digit n h = ground arith

is_variant-hex_digit : (n : ℕ) → 8 ≤ n → n ≤ 11 → is_variant (hex_digit n) ≡ true
is_variant-hex_digit n a b = ground arith

fits-write_digits :
    (dis : ℕ → ℕ) (i n : ℕ) (ps : List (ℕ → Bool)) (rest : Bytes)
    → ((j : ℕ) → dis j < 16)
    → fits (times n is_hex ps) (write_digits dis i n ++ rest) ≡ fits ps rest
unfolding write_digits
fits-write_digits dis i zero ps rest h = refl
fits-write_digits dis i (suc n) ps rest h =
    ground (arith, is_hex-hex_digit (dis i) (h i), fits-write_digits dis (suc i) n ps rest h)

-- If the first distribution gives numbers below 16, and the second one from 8 to 11, the text is a
-- UUID of version 4: 36 bytes, dashes and hexadecimal digits where they belong, the digit 4, and
-- one of 8, 9, a and b.
random_uuid_lem :
    (dis : ℕ → ℕ) (dis2 : ℕ)
    → ((j : ℕ) → dis j < 16)
    → 8 ≤ dis2
    → dis2 ≤ 11
    → fits uuid_form (random_uuid dis dis2) ≡ true
unfolding random_uuid
random_uuid_lem dis dis2 h a b =
    let node = write_digits dis 18 12 in
    let sequence = write_digits dis 15 3 ++ (45 ∷ node) in
    let high = write_digits dis 12 3 ++ (45 ∷ hex_digit dis2 ∷ sequence) in
    let middle = write_digits dis 8 4 ++ (45 ∷ 52 ∷ high) in
    let node_form = times 12 is_hex [] in
    let sequence_form = times 3 is_hex (is_dash ∷ node_form) in
    let high_form = times 3 is_hex (is_dash ∷ is_variant ∷ sequence_form) in
    let middle_form = times 4 is_hex (is_dash ∷ is_four ∷ high_form) in
    fits-write_digits dis 0 8 (is_dash ∷ middle_form) (45 ∷ middle) h
    ∙ fits-write_digits dis 8 4 (is_dash ∷ is_four ∷ high_form) (45 ∷ 52 ∷ high) h
    ∙ fits-write_digits dis 12 3 (is_dash ∷ is_variant ∷ sequence_form)
        (45 ∷ hex_digit dis2 ∷ sequence) h
    ∙ ap (λ v. v && fits sequence_form sequence) (is_variant-hex_digit dis2 a b)
    ∙ fits-write_digits dis 15 3 (is_dash ∷ node_form) (45 ∷ node) h
    ∙ ap (fits node_form) (sym (append-nil node))
    ∙ fits-write_digits dis 18 12 [] [] h
