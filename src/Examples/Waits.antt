-- ===== src/Examples/Waits.antt =====
-- src/utils/CachedThreadPool.cpp: a few threads in `getTask`. A task is a number.
use neo_group_captcha_bot.Common.{
  ℕ, ◌≤◌, ◌≡◌, ◌⊎◌, refl, true, false, [], ◌∷◌, ◌++◌, none, some, length, All, pos, negsuc,
}
use neo_group_captcha_bot.ThreadPool.{await_termination}
use neo_group_captcha_bot.ThreadPool.Monitor.{
  Caller, Monitor, first, later, fresh, enter, resume, resume_all, enqueue, wake, shut_down, enters,
  notifies, resumes, shuts_down, Reach, here, next, must_wait, answer_from,
}
use neo_group_captcha_bot.ThreadPool.Monitor.Wakeup.{no_lost_wakeup}
use neo_group_captcha_bot.ThreadPool.Monitor.Release.{callers, shutdown_releases}
use neo_group_captcha_bot.ThreadPool.Monitor.Null.{null_after_shutdown}
use neo_group_captcha_bot.ThreadPool.Termination
use neo_group_captcha_bot.ThreadPool.Termination.{Termination, opened, Return, unnotified}
use neo_group_captcha_bot.ThreadPool.Termination.Returns.{InTime, await-InTime}
use neo_group_captcha_bot.Examples.Pool.{small}

-- One thread waits with no limit, the other for a minute.
abbrev core : Caller
core = record { thread = 1; timeout = negsuc 0 }

abbrev extra : Caller
extra = record { thread = 2; timeout = pos 60000 }

abbrev both_wait : Monitor ℕ
both_wait = record {
  task_queue = [];
  is_shutdown = false;
  waiters = core ∷ extra ∷ [];
  woken = [];
  answers = [];
}

both_wait-Reach : Reach fresh both_wait
unfolding enter must_wait
both_wait-Reach = next (next here (enters fresh core)) (enters _ extra)

-- A task comes, and the second thread is chosen.
abbrev told : Monitor ℕ
told = wake extra (core ∷ []) (enqueue 7 both_wait)

told-Reach : Reach fresh told
told-Reach = next both_wait-Reach (notifies both_wait 7 extra (core ∷ []) (later first))

no_lost_wakeup_example :
    (length told.task_queue ≤ length told.woken) × ((resume_all told.woken told).task_queue ≡ [])
no_lost_wakeup_example = no_lost_wakeup told told-Reach (λ e. cc)

-- Then the pool is shut down.
abbrev stopped : Monitor ℕ
stopped = record {
  task_queue = 7 ∷ [];
  is_shutdown = true;
  waiters = [];
  woken = extra ∷ core ∷ [];
  answers = [];
}

stopped-Reach : Reach fresh stopped
unfolding shut_down
stopped-Reach = next told-Reach (shuts_down told)

shutdown_releases_example :
    let n = resume_all stopped.woken stopped in
    (stopped.waiters ≡ [])
    × Reach stopped n
    × (n.waiters ≡ [])
    × (n.woken ≡ [])
    × (callers n ≡ callers stopped ++ stopped.woken)
shutdown_releases_example = shutdown_releases stopped stopped-Reach refl

-- Both take the lock: one finds the task, the other nothing.
abbrev over : Monitor ℕ
over = record {
  task_queue = [];
  is_shutdown = true;
  waiters = [];
  woken = [];
  answers = (extra, some 7) ∷ (core, none) ∷ [];
}

over-Reach : Reach fresh over
unfolding resume must_wait answer_from
over-Reach =
    next (next stopped-Reach (resumes stopped extra (core ∷ []) first)) (resumes _ core [] first)

null_after_shutdown_example : over.is_shutdown ≡ true
null_after_shutdown_example =
    null_after_shutdown over core ((extra, some 7) ∷ []) [] over-Reach refl refl

-- A caller that does not wait returns null at once; one whose minute is over, too.
abbrev hasty : Caller
hasty = record { thread = 3; timeout = pos 0 }

-- A call of `awaitTermination(-1)` on a pool that is still running ends for no reason.
abbrev early : Termination ℕ
early = record {
  pool = small;
  blocked = [];
  returns = record { caller = core; was_terminated = false; cause = unnotified } ∷ [];
}

early-Reach : Termination.Reach (opened small) early
unfolding Termination.await await_termination Termination.wait_by
early-Reach =
    Termination.next (Termination.next Termination.here (Termination.awaits (opened small) core))
      (Termination.ends _ core [] first)

await-InTime_example :
    All InTime early.returns × ((small.is_terminated ≡ false) ⊎ (early.blocked ≡ []))
await-InTime_example = await-InTime small early refl early-Reach
