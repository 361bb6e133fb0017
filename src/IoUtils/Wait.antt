-- ===== src/IoUtils/Wait.antt =====
-- src/utils/io_utils.cpp: interruptions, and timeouts with what `errno` holds.
use neo_group_captcha_bot.Common.{
  ℕ, zero, suc, ◌≡◌, ◌≢◌, ◌++◌, [], ◌∷◌, none, some, pos, ◌==◌, if◌then◌else◌, arith, replicate,
}
use neo_group_captcha_bot.IoUtils.{ready, timed_out, failed, eintr, negated, wait_for_input}

-- Any number of interruptions is passed over: input that comes after them gives 1, and an error
-- other than an interruption gives its number, negated.
interruptions_passed :
    (errno n err : ℕ)
    → err ≢ 0
    → err ≢ eintr
    → (wait_for_input errno (replicate n (failed eintr) ++ (ready ∷ [])) ≡ some (pos 1))
      × (wait_for_input errno (replicate n (failed eintr) ++ (failed err ∷ []))
          ≡ some (negated err))
unfolding wait_for_input
interruptions_passed errno zero err h k = ground (arith, h, k)
interruptions_passed errno (suc n) err h k = ground (arith, interruptions_passed eintr n err h k)

-- A call that only times out gives what `errno` held before it: 0 for 0, no result in any number of
-- timeouts if an interruption came before, and else the old error number, negated.
timeouts_read_errno :
    (errno n : ℕ)
    → wait_for_input errno (replicate (suc n) timed_out)
      ≡ (if errno == 0 then some (pos 0) else if errno == eintr then none else some (negated errno))
unfolding wait_for_input
timeouts_read_errno errno zero = ground arith
timeouts_read_errno errno (suc n) = ground (arith, timeouts_read_errno errno n)
