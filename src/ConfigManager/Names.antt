-- ===== src/ConfigManager/Names.antt =====
-- src/utils/config/ConfigManager.cpp: the names of the stores.
use neo_group_captcha_bot.Common.{ℕ, [], ◌∷◌, ℤ, pos, Bytes, drop}
use neo_group_captcha_bot.TextUtils.Numbers.{parse_signed}

-- The number that the name of a store ends with.
abbrev number_of : Bytes → ℤ
number_of id = (parse_signed 64 (pos 0) (drop 2 id) 10).1

abbrev first_byte : Bytes → ℕ
first_byte [] = 0
first_byte (c ∷ cs) = c
