-- ===== src/Uuid.antt =====
-- src/utils/Uuid.cpp: `randomUuid`. The numbers that the two distributions give, one after the
-- other, are parameters.
pub mod Shape
use neo_group_captcha_bot.Common.{
  ℕ, zero, suc, ◌+◌, ◌++◌, List, [], ◌∷◌, Bytes, codes, ltb, if◌then◌else◌,
}

-- What `<< std::hex` writes for a number below 16.
abbrev pub hex_digit : ℕ → ℕ
hex_digit n = if ltb n 10 then 48 + n else 87 + n

-- The rounds of a loop that writes one number each, from the number `i` of `dis` on.
unfoldable pub write_digits : (ℕ → ℕ) → ℕ → ℕ → Bytes
write_digits dis i zero = []
write_digits dis i (suc n) = hex_digit (dis i) ∷ write_digits dis (suc i) n

-- `dis` gives 30 numbers, `dis2` one.
unfoldable pub random_uuid : (ℕ → ℕ) → ℕ → Bytes
random_uuid dis dis2 =
    write_digits dis 0 8
    ++ (codes "-"
        ++ (write_digits dis 8 4
            ++ (codes "-4"
                ++ (write_digits dis 12 3
                    ++ (codes "-"
                        ++ (hex_digit dis2 ∷ write_digits dis 15 3
                            ++ (codes "-" ++ write_digits dis 18 12)))))))
