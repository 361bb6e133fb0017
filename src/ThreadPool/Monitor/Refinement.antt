-- ===== src/ThreadPool/Monitor/Refinement.antt =====
-- src/utils/CachedThreadPool.cpp: `getTask` with its waits, and `get_task`, which is one step.
use neo_group_captcha_bot.Common.{
  ◌≡◌, refl, [], ◌∷◌, ◌++◌, true, false, Option, some, is_neg, int_beq, pos, negsuc, ℤ,
}
use neo_group_captcha_bot.ThreadPool.{ThreadPool, get_task}
use neo_group_captcha_bot.ThreadPool.Monitor.{Caller, Monitor, must_wait}

pub zero_not_neg : (z : ℤ) → int_beq z (pos 0) ≡ true → is_neg z ≡ false
zero_not_neg (pos n) h = refl
zero_not_neg (negsuc n) h = cc

module _ {ℓ} {T : Type ℓ} where
  abbrev pub pool_of : ThreadPool T → Monitor T → ThreadPool T
  pool_of p m = record p { task_queue = m.task_queue; is_shutdown = m.is_shutdown }

  -- The caller returns, with what `get_task` gives in that state, and leaves the state that it gives.
  abbrev pub Returned : ThreadPool T → Caller → Monitor T → Monitor T → Type ℓ
  Returned p c m n =
      (r : Option T) × (get_task (pool_of p m) c.timeout ≡ some (pool_of p n, r))
      × (n.answers ≡ m.answers ++ ((c, r) ∷ []))
      × (n.waiters ≡ m.waiters)

  -- It blocks, in a pool that is running and has nothing in its queue, and changes nothing else.
  abbrev pub Blocked : ThreadPool T → Caller → Monitor T → Monitor T → Type ℓ
  Blocked p c m n =
      (must_wait m ≡ true)
      × (n.waiters ≡ m.waiters ++ (c ∷ []))
      × (pool_of p n ≡ pool_of p m)
      × (n.answers ≡ m.answers)
