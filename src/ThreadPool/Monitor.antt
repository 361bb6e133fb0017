-- ===== src/ThreadPool/Monitor.antt =====
-- src/utils/CachedThreadPool.cpp: `mQueueLock` with `mQueueCondition`. `getTask` is taken apart at
-- its waits: a thread goes in, may wait, is woken, and takes the lock again. A step is what one
-- thread does from taking the lock to giving it up, or the end of a wait; the steps form a relation,
-- as the condition variable may choose any waiter and may wake one for no reason.
pub mod Wakeup
pub mod Release
pub mod Null
pub mod Refinement
use neo_group_captcha_bot.Common.{
  ℕ, ◌++◌, Bool, true, false, ◌&&◌, not, List, [], ◌∷◌, Option, none, some, ℤ, pos, int_beq, is_neg,
  is_empty, if◌then◌else◌, ◌≡◌,
}

-- A thread in `getTask`, and the timeout that it passed.
pub record Caller : Type 0 where
  pub thread : ℕ
  pub timeout : ℤ

-- `waiters` are blocked in a wait; the wait of those in `woken` is over, and they want the lock.
-- `answers` records who returned with what, `none` for null.
pub record Monitor {ℓ} (T : Type ℓ) : Type ℓ where
  pub task_queue : List T
  pub is_shutdown : Bool
  pub waiters : List Caller
  pub woken : List Caller
  pub answers : List (Caller × Option T)

-- One caller is taken out of a list, which leaves the other list.
pub data Picks (c : Caller) : List Caller → List Caller → Type 0 where
  first : {cs : List Caller} → Picks c (c ∷ cs) cs
  later : {d : Caller} {cs ds : List Caller} → Picks c cs ds → Picks c (d ∷ cs) (d ∷ ds)

module _ {ℓ} {T : Type ℓ} where
  -- The monitor of a pool that has just been made.
  abbrev pub fresh : Monitor T
  fresh = record { task_queue = []; is_shutdown = false; waiters = []; woken = []; answers = [] }

  -- The condition of both waits.
  unfoldable pub must_wait : Monitor T → Bool
  must_wait m = is_empty m.task_queue && not m.is_shutdown

  -- The end of all three branches: null, or the front of the queue.
  unfoldable pub answer_from : List T → Caller → Monitor T → Monitor T
  answer_from [] c m = record m { answers = m.answers ++ ((c, none) ∷ []) }
  answer_from (task ∷ rest) c m = record m {
    task_queue = rest;
    answers = m.answers ++ ((c, some task) ∷ []);
  }

  abbrev pub answer : Caller → Monitor T → Monitor T
  answer c m = answer_from m.task_queue c m

  -- `wait` and `wait_until` give up the lock.
  abbrev pub block : Caller → Monitor T → Monitor T
  block c m = record m { waiters = m.waiters ++ (c ∷ []) }

  -- `getTask`, up to a wait or to the return.
  unfoldable pub enter : Caller → Monitor T → Monitor T
  unfolding must_wait answer_from
  enter c m =
      if int_beq c.timeout (pos 0)
      then answer c m
      else if must_wait m
      then block c m
      else answer c m

  -- `getTask` after a wait, with the lock: only the wait without a limit is in a loop.
  unfoldable pub resume : Caller → Monitor T → Monitor T
  unfolding must_wait answer_from
  resume c m = if is_neg c.timeout && must_wait m then block c m else answer c m

  -- The callers of the list, which are awake, take the lock in turn.
  unfoldable pub resume_all : List Caller → Monitor T → Monitor T
  unfolding resume
  resume_all [] m = m
  resume_all (c ∷ cs) m = resume_all cs (resume c (record m { woken = cs }))

  -- The last lines of `execute`, without the notification.
  abbrev pub enqueue : T → Monitor T → Monitor T
  enqueue task m = record m { task_queue = m.task_queue ++ (task ∷ []) }

  -- The wait of this caller ends, and leaves these waiters.
  abbrev pub wake : Caller → List Caller → Monitor T → Monitor T
  wake c waiters m = record m { waiters = waiters; woken = m.woken ++ (c ∷ []) }

  -- `shutdown`, with `notify_all`.
  unfoldable pub shut_down : Monitor T → Monitor T
  shut_down m = record m { is_shutdown = true; waiters = []; woken = m.woken ++ m.waiters }

  -- `notify_one` wakes nobody only if nobody waits. `wakes` is the end of a wait with no
  -- notification: a spurious one, or the end of its time.
  pub data Step : Monitor T → Monitor T → Type ℓ where
    enters : (m : Monitor T) (c : Caller) → Step m (enter c m)
    enqueues : (m : Monitor T) (task : T) → m.waiters ≡ [] → Step m (enqueue task m)
    notifies :
        (m : Monitor T) (task : T) (c : Caller) (cs : List Caller)
        → Picks c m.waiters cs
        → Step m (wake c cs (enqueue task m))
    wakes :
        (m : Monitor T) (c : Caller) (cs : List Caller)
        → Picks c m.waiters cs
        → Step m (wake c cs m)
    resumes :
        (m : Monitor T) (c : Caller) (cs : List Caller)
        → Picks c m.woken cs
        → Step m (resume c (record m { woken = cs }))
    shuts_down : (m : Monitor T) → Step m (shut_down m)

  pub data Reach (m : Monitor T) : Monitor T → Type ℓ where
    here : Reach m m
    next : {n k : Monitor T} → Reach m n → Step n k → Reach m k
