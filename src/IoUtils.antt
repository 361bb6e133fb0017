-- ===== src/IoUtils.antt =====
-- src/utils/io_utils.cpp: `wait_for_input`. What the calls of `poll` give is a parameter.
pub mod Wait
use neo_group_captcha_bot.Common.{
  ℕ, zero, suc, Bool, true, false, List, [], ◌∷◌, Option, none, some, ℤ, pos, negsuc, ◌==◌,
  if◌then◌else◌,
}

-- A call of `poll` with one descriptor: 1, 0, or -1 with the error number that it sets.
pub data Poll : Type 0 where
  ready : Poll
  timed_out : Poll
  failed : ℕ → Poll

-- EINTR.
abbrev pub eintr : ℕ
eintr = 4

abbrev pub negated : ℕ → ℤ
negated zero = pos 0
negated (suc n) = negsuc n

-- `poll` leaves `errno` alone unless it fails.
abbrev errno_after : ℕ → Poll → ℕ
errno_after errno (failed err) = err
errno_after errno _ = errno

abbrev is_ready : Poll → Bool
is_ready ready = true
is_ready _ = false

-- With the value of `errno` before the call; `none` if it still polls after these calls.
unfoldable pub wait_for_input : ℕ → List Poll → Option ℤ
wait_for_input errno [] = none
wait_for_input errno (p ∷ ps) =
    let err = errno_after errno p in
    let again = wait_for_input err ps in
    if is_ready p
    then some (pos 1)
    else if err == 0
    then some (pos 0)
    else if err == eintr
    then again
    else some (negated err)
