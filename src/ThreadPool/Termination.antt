-- ===== src/ThreadPool/Termination.antt =====
-- src/utils/CachedThreadPool.cpp: `mTerminationLock` with `mTerminationCondition`, which
-- `awaitTermination` waits for, and `onWorkerExit` notifies. A step is what one thread does under
-- the lock, or the end of a wait; the rest of the pool changes as it likes.
pub mod Returns
use neo_group_captcha_bot.Common.{
  ◌++◌, Bool, true, false, ◌&&◌, List, [], ◌∷◌, map, is_empty, if◌then◌else◌, ◌≡◌,
}
use neo_group_captcha_bot.ThreadPool.{
  ThreadPool, settle, Wait, returned, until_notified, up_to, await_termination,
}
use neo_group_captcha_bot.ThreadPool.Monitor.{Caller, Picks}

-- How a call of `awaitTermination` came to its end: with no wait, by `notify_all`, or by a wait
-- that ended with no notification, as its time was over or for no reason.
pub data Cause : Type 0 where
  at_once notified unnotified : Cause

pub record Return : Type 0 where
  pub caller : Caller
  pub was_terminated : Bool
  pub cause : Cause

-- `blocked` are the callers in a wait, `returns` the calls that have returned.
pub record Termination {ℓ} (T : Type ℓ) : Type ℓ where
  pub pool : ThreadPool T
  pub blocked : List Caller
  pub returns : List Return

module _ {ℓ} {T : Type ℓ} where
  abbrev pub opened : ThreadPool T → Termination T
  opened p = record { pool = p; blocked = []; returns = [] }

  abbrev pub return_by : Cause → Termination T → Caller → Return
  return_by cause s c = record { caller = c; was_terminated = s.pool.is_terminated; cause = cause }

  unfoldable pub wait_by : Wait → Caller → Termination T → Termination T
  wait_by returned c s = record s { returns = s.returns ++ (return_by at_once s c ∷ []) }
  wait_by until_notified c s = record s { blocked = s.blocked ++ (c ∷ []) }
  wait_by (up_to timeout) c s = record s { blocked = s.blocked ++ (c ∷ []) }

  -- `awaitTermination`, up to its wait or its return.
  unfoldable pub await : Caller → Termination T → Termination T
  unfolding wait_by await_termination
  await c s = wait_by (await_termination s.pool c.timeout) c s

  -- The wait is in no loop: the call returns, whatever ended the wait.
  abbrev pub release : Caller → List Caller → Termination T → Termination T
  release c cs s = record s { blocked = cs; returns = s.returns ++ (return_by unnotified s c ∷ []) }

  release_all : Termination T → Termination T
  release_all s = record s {
    blocked = [];
    returns = s.returns ++ map (return_by notified s) s.blocked;
  }

  -- The second half of `onWorkerExit`, with `notify_all`.
  unfoldable pub settle_and_notify : Termination T → Termination T
  unfolding settle release_all
  settle_and_notify s =
      let t = record s { pool = settle s.pool } in
      if s.pool.is_shutdown && is_empty s.pool.workers then release_all t else t

  pub data Step : Termination T → Termination T → Type ℓ where
    awaits : (s : Termination T) (c : Caller) → Step s (await c s)
    settles : (s : Termination T) → Step s (settle_and_notify s)
    ends :
        (s : Termination T) (c : Caller) (cs : List Caller)
        → Picks c s.blocked cs
        → Step s (release c cs s)
    changes :
        (s : Termination T) (q : ThreadPool T)
        → q.is_terminated ≡ s.pool.is_terminated
        → Step s (record s { pool = q })

  pub data Reach (s : Termination T) : Termination T → Type ℓ where
    here : Reach s s
    next : {t u : Termination T} → Reach s t → Step t u → Reach s u
