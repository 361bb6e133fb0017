-- ===== src/TextUtils.antt =====
-- src/utils/TextUtils.cpp: `splitString`.
pub mod Split
pub mod Numbers
pub mod Ranges
pub mod RoundTrip
use neo_group_captcha_bot.Common.{
  ℕ, zero, suc, ◌+◌, ◌++◌, List, [], ◌∷◌, Option, none, some, map, Bytes, is_empty, length, take,
  drop, starts_with, if◌then◌else◌,
}

-- `strs.find(splits)`.
unfoldable pub find : Bytes → Bytes → Option ℕ
unfolding starts_with
find [] splits = if is_empty splits then some 0 else none
find (c ∷ cs) splits =
    let later = find cs splits in
    if starts_with splits (c ∷ cs)
    then some 0
    else elim later [ none ↦ none | some pos ↦ some (suc pos) ]

abbrev add_part : Bytes → Option (List Bytes) → Option (List Bytes)
add_part part none = none
add_part part (some parts) = some (part ∷ parts)

-- The loop; `none` if it has not ended after that many rounds.
unfoldable pub split_loop : ℕ → Bytes → Bytes → Option (List Bytes)
unfolding find
split_loop zero strs splits = none
split_loop (suc fuel) strs splits = elim (find strs splits) [
  | none ↦ some []
  | some pos ↦ add_part (take pos strs) (split_loop fuel (drop (pos + length splits) strs) splits)
]

-- As many rounds as there are bytes, and one more, are enough unless `splits` is empty.
unfoldable pub split_string : Bytes → Bytes → Option (List Bytes)
unfolding split_loop
split_string str splits =
    if is_empty str
    then some []
    else split_loop (suc (length (str ++ splits))) (str ++ splits) splits
