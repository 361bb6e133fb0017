-- ===== src/ThreadPool/System/Conservation.antt =====
-- src/utils/CachedThreadPool.cpp: no task is lost or run twice, and the queue is first in, first
-- out, whatever the order of the threads' steps.
use neo_group_captcha_bot.Common.{
  slot_at, ℕ, zero, suc, ◌+◌, ◌≡◌, refl, sym, ◌++◌, append_assoc, true, List, [], ◌∷◌, Option, none,
  some, arith, is_empty,
}
use neo_group_captcha_bot.ThreadPool.{
  Phase, holding, idle, waiting, leaving, Worker, ThreadPool, Spawn, created, failed, start,
  enqueue, act, get_task, shutdown, poll_timeout, remove_worker, erase_worker, settle, start_worker,
  push,
}
use neo_group_captcha_bot.ThreadPool.System.{
  System, Call, checked, counted, decided, continue, Event, submits, goes_on, shuts_down, polls,
  takes, runs, exits, settles, initial, phase_of, set_phase, submit, poll, taken, take_task,
  run_task, exit_worker, settle_one, step, run,
}

module _ {ℓ} {T : Type ℓ} (w : T → ℕ) where
  -- The tasks of a list, each counted with its weight.
  abbrev pub total : List T → ℕ
  total [] = 0
  total (t ∷ ts) = w t + total ts

  abbrev pub weight : Phase T → ℕ
  weight (holding t) = w t
  weight idle = 0
  weight (waiting timeout) = 0
  weight leaving = 0

  -- The tasks that the workers hold.
  abbrev pub held : List (Worker T) → ℕ
  held [] = 0
  held (x ∷ xs) = weight x.phase + held xs

  total-append : (xs ys : List T) → total (xs ++ ys) ≡ total xs + total ys
  total-append [] ys = omega arith
  total-append (x ∷ xs) ys = omega (arith, total-append xs ys)

  held-append : (xs ys : List (Worker T)) → held (xs ++ ys) ≡ held xs + held ys
  held-append [] ys = omega arith
  held-append (x ∷ xs) ys = omega (arith, held-append xs ys)

  pub total-is_empty : (xs : List T) → is_empty xs ≡ true → total xs ≡ 0
  total-is_empty [] h = refl
  total-is_empty (x ∷ xs) h = cc

  pub held-is_empty : (xs : List (Worker T)) → is_empty xs ≡ true → held xs ≡ 0
  held-is_empty [] h = refl
  held-is_empty (x ∷ xs) h = cc

  held-set_phase :
      (i : ℕ) (old ph : Phase T) (ws : List (Worker T))
      → phase_of i ws ≡ some old
      → held (set_phase i ph ws) + weight old ≡ held ws + weight ph
  unfolding phase_of set_phase
  held-set_phase i old ph [] h = cc
  held-set_phase i old ph (x ∷ xs) h = ground (arith, held-set_phase i old ph xs)

  held-erase_worker :
      (i : ℕ) (ws : List (Worker T))
      → phase_of i ws ≡ some leaving
      → held (erase_worker i ws) ≡ held ws
  unfolding phase_of erase_worker
  held-erase_worker i [] h = cc
  held-erase_worker i (x ∷ xs) h = ground (arith, held-erase_worker i xs)

-- What holds between two steps.
module _ {ℓ} {T : Type ℓ} where
  pub record Inv (w : T → ℕ) (s : System T) : Type ℓ where
    pub fifo : s.enqueued ≡ s.dequeued ++ s.pool.task_queue
    pub conserved :
        total w s.accepted ≡ total w s.finished + held w s.pool.workers + total w s.pool.task_queue

  module _ (w : T → ℕ) where
    initial-Inv : (p : ThreadPool T) → p.workers ≡ [] → p.task_queue ≡ [] → Inv w (initial p)
    unfolding initial
    initial-Inv p hw hq = record { fifo = sym hq; conserved = rw (hw, hq) refl }

    submit-Inv : (s : System T) (t : T) → Inv w s → Inv w (submit s t)
    unfolding submit
    submit-Inv s t v = ground arith

    continue-Inv :
        (o : Option (Call T)) (s : System T) (k : ℕ) (spawn : Spawn)
        → Inv w s
        → Inv w (continue o s k spawn)
    unfolding continue act start_worker push
    continue-Inv none s k spawn v = v
    continue-Inv (some (checked t)) s k spawn v = record { fifo = v.fifo; conserved = v.conserved }
    continue-Inv (some (counted t n)) s k spawn v = record {
      fifo = v.fifo;
      conserved = v.conserved;
    }
    continue-Inv (some (decided t (start core))) s k (failed err) v = record {
      fifo = v.fifo;
      conserved = v.conserved;
    }
    continue-Inv (some (decided t (start core))) s k (created i) v = ground (
      arith,
      total-append w s.accepted (t ∷ []),
      held-append w s.pool.workers
          (record { thread = i; is_core_worker = core; phase = holding t } ∷ []),
    )
    continue-Inv (some (decided t enqueue)) s k spawn v = ground (
      arith,
      total-append w s.accepted (t ∷ []),
      total-append w s.pool.task_queue (t ∷ []),
      append_assoc s.dequeued s.pool.task_queue (t ∷ []),
    )

    poll-Inv :
        (o : Option (Phase T)) (s : System T) (i : ℕ)
        → phase_of i s.pool.workers ≡ o
        → Inv w s
        → Inv w (poll o s i)
    unfolding poll
    poll-Inv (some idle) s i h v =
        ground (arith, held-set_phase w i idle (waiting (poll_timeout s.pool)) s.pool.workers h)
    poll-Inv (some (holding t)) s i h v = v
    poll-Inv (some (waiting n)) s i h v = v
    poll-Inv (some leaving) s i h v = v
    poll-Inv none s i h v = v

    take_task-Inv :
        (o : Option (Phase T)) (s : System T) (i : ℕ)
        → phase_of i s.pool.workers ≡ o
        → Inv w s
        → Inv w (take_task o s i)
    unfolding take_task taken get_task
    take_task-Inv (some (waiting n)) s i h v = take_queue s.pool.task_queue refl
      where
        take_queue : (q : List T) → s.pool.task_queue ≡ q → Inv w (take_task (some (waiting n)) s i)
        take_queue [] e = ground (arith, e, held-set_phase w i (waiting n) leaving s.pool.workers h)
        take_queue (t ∷ rest) e = ground (
          arith,
          e,
          append_assoc s.dequeued (t ∷ []) rest,
          held-set_phase w i (waiting n) (holding t) s.pool.workers h,
          total-append w s.finished (t ∷ []),
        )
    take_task-Inv (some idle) s i h v = v
    take_task-Inv (some (holding t)) s i h v = v
    take_task-Inv (some leaving) s i h v = v
    take_task-Inv none s i h v = v

    run_task-Inv :
        (o : Option (Phase T)) (s : System T) (i : ℕ)
        → phase_of i s.pool.workers ≡ o
        → Inv w s
        → Inv w (run_task o s i)
    unfolding run_task
    run_task-Inv (some (holding t)) s i h v = ground (
      arith,
      held-set_phase w i (holding t) idle s.pool.workers h,
      total-append w s.finished (t ∷ []),
    )
    run_task-Inv (some idle) s i h v = v
    run_task-Inv (some (waiting n)) s i h v = v
    run_task-Inv (some leaving) s i h v = v
    run_task-Inv none s i h v = v

    exit_worker-Inv :
        (o : Option (Phase T)) (s : System T) (i : ℕ)
        → phase_of i s.pool.workers ≡ o
        → Inv w s
        → Inv w (exit_worker o s i)
    unfolding exit_worker remove_worker
    exit_worker-Inv (some leaving) s i h v = ground (arith, held-erase_worker w i s.pool.workers h)
    exit_worker-Inv (some idle) s i h v = v
    exit_worker-Inv (some (waiting n)) s i h v = v
    exit_worker-Inv (some (holding t)) s i h v = v
    exit_worker-Inv none s i h v = v

    settle_one-Inv : (n : ℕ) (s : System T) → Inv w s → Inv w (settle_one n s)
    unfolding settle_one settle
    settle_one-Inv zero s v = v
    settle_one-Inv (suc n) s v = ground arith

    pub step-Inv : (s : System T) (e : Event T) → Inv w s → Inv w (step s e)
    unfolding step
    step-Inv s (submits t) v = submit-Inv s t v
    step-Inv s (goes_on k spawn) v = continue-Inv (slot_at k s.calls) s k spawn v
    step-Inv s shuts_down v = unfold shutdown in record { fifo = v.fifo; conserved = v.conserved }
    step-Inv s (polls i) v = poll-Inv (phase_of i s.pool.workers) s i refl v
    step-Inv s (takes i) v = take_task-Inv (phase_of i s.pool.workers) s i refl v
    step-Inv s (runs i) v = run_task-Inv (phase_of i s.pool.workers) s i refl v
    step-Inv s (exits i) v = exit_worker-Inv (phase_of i s.pool.workers) s i refl v
    step-Inv s settles v = settle_one-Inv s.exiting s v

    run-Inv : (s : System T) (es : List (Event T)) → Inv w s → Inv w (run s es)
    unfolding run
    run-Inv s [] v = v
    run-Inv s (e ∷ es) v = run-Inv (step s e) es (step-Inv s e v)

    -- After any schedule from a pool with no worker and no task: the tasks that went into the
    -- queue are, in that order, those that came out of it and those that are still in it; and
    -- every accepted task is in exactly one place, run, held by a worker or queued (counted with
    -- any weight for each task).
    pub run_conserves :
        (p : ThreadPool T) (es : List (Event T))
        → p.workers ≡ []
        → p.task_queue ≡ []
        → let s = run (initial p) es in
          (s.enqueued ≡ s.dequeued ++ s.pool.task_queue)
          × (total w s.accepted
              ≡ total w s.finished + held w s.pool.workers + total w s.pool.task_queue)
    run_conserves p es hw hq =
        let v = run-Inv (initial p) es (initial-Inv p hw hq) in (v.fifo, v.conserved)
