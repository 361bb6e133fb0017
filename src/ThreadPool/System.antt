-- ===== src/ThreadPool/System.antt =====
-- src/utils/CachedThreadPool.cpp: the pool with its callers and its worker threads, which take
-- their steps in any order. A schedule is a list of events; an event that is not enabled does
-- nothing. Tasks are taken to return: one that throws ends the process.
pub mod Conservation
pub mod Bounds
pub mod Shutdown
pub mod Overlap
pub mod Progress
pub mod Service
use neo_group_captcha_bot.Common.{
  ℕ, zero, suc, ◌++◌, Bool, true, false, ◌&&◌, ◌||◌, not, List, [], ◌∷◌, Option, none, some, ℤ,
  slot_at, set_slot, remove_slot, ◌==◌, if◌then◌else◌,
}
use neo_group_captcha_bot.ThreadPool.{
  Phase, holding, idle, waiting, leaving, Worker, ThreadPool, Spawn, created, failed, Outcome,
  returns, throws, Plan, start, enqueue, plan_with, act, current_worker_count, get_task, shutdown,
  poll_timeout, remove_worker, settle,
}

-- Where a call of `execute` stands, which holds no lock: past its test of the flags, with the number
-- of workers that it has read, and with what it has decided.
pub data Call {ℓ} (T : Type ℓ) : Type ℓ where
  checked : T → Call T
  counted : T → ℕ → Call T
  decided : T → Plan → Call T

-- `calls` are the calls of `execute` that have not ended, and `exiting` counts the threads between
-- the two halves of `onWorkerExit`. The last four fields
-- record what happened: the tasks that `execute` took, those that went through the queue, in the
-- order in which they went in and came out, and those that have been run.
pub record System {ℓ} (T : Type ℓ) : Type ℓ where
  pub pool : ThreadPool T
  pub calls : List (Call T)
  pub exiting : ℕ
  pub accepted : List T
  pub enqueued : List T
  pub dequeued : List T
  pub finished : List T

-- `submits` is the beginning of a call of `execute`, and `goes_on` the next part of one of the calls.
pub data Event {ℓ} (T : Type ℓ) : Type ℓ where
  submits : T → Event T
  goes_on : ℕ → Spawn → Event T
  shuts_down : Event T
  polls takes runs exits : ℕ → Event T
  settles : Event T

module _ {ℓ} {T : Type ℓ} where
  unfoldable pub initial : ThreadPool T → System T
  initial p = record {
    pool = p;
    calls = [];
    exiting = 0;
    accepted = [];
    enqueued = [];
    dequeued = [];
    finished = [];
  }

  unfoldable pub phase_of : ℕ → List (Worker T) → Option (Phase T)
  phase_of i [] = none
  phase_of i (w ∷ ws) = if w.thread == i then some w.phase else phase_of i ws

  unfoldable pub set_phase : ℕ → Phase T → List (Worker T) → List (Worker T)
  set_phase i ph [] = []
  set_phase i ph (w ∷ ws) =
      if w.thread == i then record w { phase = ph } ∷ ws else w ∷ set_phase i ph ws

  abbrev pub with_phase : System T → ℕ → Phase T → System T
  with_phase s i ph = record s { pool = record p { workers = set_phase i ph p.workers } }
    where
      open s use {pool as p}

  -- What the history records of an accepted task.
  abbrev pub log_task : Plan → System T → T → System T
  log_task (start _) s t = record s { accepted = s.accepted ++ (t ∷ []) }
  log_task enqueue s t = record s {
    accepted = s.accepted ++ (t ∷ []);
    enqueued = s.enqueued ++ (t ∷ []);
  }

  submit_with : Outcome → ThreadPool T → Plan → System T → T → System T
  submit_with throws p pl s t = record s { pool = p }
  submit_with returns p pl s t = record (log_task pl s t) { pool = p }

  -- The test of the flags; an exception leaves everything as it is.
  unfoldable pub submit : System T → T → System T
  submit s t =
      if s.pool.is_shutdown || s.pool.is_terminated
      then s
      else record s { calls = s.calls ++ (checked t ∷ []) }

  -- It reads the number of workers, then decides with the queue that it finds, and then acts.
  unfoldable pub continue : Option (Call T) → System T → ℕ → Spawn → System T
  unfolding submit_with set_slot remove_slot
  continue none s k spawn = s
  continue (some (checked t)) s k spawn = record s {
    calls = set_slot k (counted t (current_worker_count s.pool)) s.calls;
  }
  continue (some (counted t n)) s k spawn = record s {
    calls = set_slot k (decided t (plan_with n s.pool)) s.calls;
  }
  continue (some (decided t pl)) s k spawn =
      let (p, outcome) = act pl s.pool t spawn in
      submit_with outcome p pl (record s { calls = remove_slot k s.calls }) t

  -- `bool allowQuit = …`, and the call of `getTask`.
  pub poll : Option (Phase T) → System T → ℕ → System T
  unfolding set_phase
  poll (some idle) s i = with_phase s i (waiting (poll_timeout s.pool))
  poll _ s i = s

  taken : Option (ThreadPool T × Option T) → System T → ℕ → System T
  unfolding set_phase
  taken none s i = s
  taken (some (p, none)) s i = with_phase (record s { pool = p }) i leaving
  taken (some (p, some t)) s i =
      with_phase (record s { pool = p; dequeued = s.dequeued ++ (t ∷ []) }) i (holding t)

  -- `getTask` returns.
  take_task : Option (Phase T) → System T → ℕ → System T
  unfolding taken
  take_task (some (waiting timeout)) s i = taken (get_task s.pool timeout) s i
  take_task _ s i = s

  -- `task->operator()()`, and `task.reset()`.
  pub run_task : Option (Phase T) → System T → ℕ → System T
  unfolding set_phase
  run_task (some (holding t)) s i =
      with_phase (record s { finished = s.finished ++ (t ∷ []) }) i idle
  run_task _ s i = s

  pub exit_worker : Option (Phase T) → System T → ℕ → System T
  exit_worker (some leaving) s i = record s {
    pool = remove_worker s.pool i;
    exiting = suc s.exiting;
  }
  exit_worker _ s i = s

  settle_one : ℕ → System T → System T
  settle_one zero s = s
  settle_one (suc n) s = record s { pool = settle s.pool; exiting = n }

  unfoldable pub step : System T → Event T → System T
  unfolding poll take_task run_task exit_worker settle_one phase_of submit continue slot_at
  step s (submits t) = submit s t
  step s (goes_on k spawn) = continue (slot_at k s.calls) s k spawn
  step s shuts_down = record s { pool = shutdown s.pool }
  step s (polls i) = poll (phase_of i s.pool.workers) s i
  step s (takes i) = take_task (phase_of i s.pool.workers) s i
  step s (runs i) = run_task (phase_of i s.pool.workers) s i
  step s (exits i) = exit_worker (phase_of i s.pool.workers) s i
  step s settles = settle_one s.exiting s

  unfoldable pub run : System T → List (Event T) → System T
  run s [] = s
  run s (e ∷ es) = run (step s e) es
