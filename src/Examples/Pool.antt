-- ===== src/Examples/Pool.antt =====
-- src/utils/CachedThreadPool.cpp on short schedules. A task is a number.
use neo_group_captcha_bot.Common.{
  slot_at, set_slot, remove_slot, ℕ, ◌+◌, ◌≤◌, ◌≡◌, refl, true, false, List, [], ◌∷◌, ◌++◌, length,
  pos, arith,
}
use neo_group_captcha_bot.ThreadPool
use neo_group_captcha_bot.ThreadPool.{ThreadPool, Worker, leaving, holding, created, plan, act}
use neo_group_captcha_bot.ThreadPool.System.{
  System, submit, continue, Event, submits, goes_on, shuts_down, polls, takes, runs, exits, settles,
  initial, phase_of, step, run,
}
use neo_group_captcha_bot.ThreadPool.System.Conservation.{total, held, run_conserves}
use neo_group_captcha_bot.ThreadPool.System.Bounds.{at_most, workers-le-max}
use neo_group_captcha_bot.ThreadPool.System.Service.{queue_is_served}
use neo_group_captcha_bot.ThreadPool.System.Progress.{shutdown_terminates}

-- One worker, at once; then a task for the queue, and all of both threads' steps to the end.
abbrev schedule : List (Event ℕ)
schedule =
    submits 7
    ∷ goes_on 0 (created 1)
    ∷ goes_on 0 (created 1)
    ∷ goes_on 0 (created 1)
    ∷ submits 8
    ∷ goes_on 0 (created 2)
    ∷ goes_on 0 (created 2)
    ∷ goes_on 0 (created 2)
    ∷ runs 1
    ∷ polls 1
    ∷ takes 1
    ∷ runs 1
    ∷ shuts_down
    ∷ polls 1
    ∷ takes 1
    ∷ exits 1
    ∷ settles
    ∷ []

abbrev weight : ℕ → ℕ
weight t = t

abbrev pub small : ThreadPool ℕ
small = record {
  core_pool_size = pos 1;
  max_pool_size = pos 1;
  keep_alive_time = pos 60000;
  max_queue_size = pos 64;
  is_shutdown = false;
  is_terminated = false;
  workers = [];
  task_queue = [];
}

run_conserves_example :
    let s = run (initial small) schedule in
    (s.enqueued ≡ s.dequeued ++ s.pool.task_queue)
    × (total weight s.accepted
        ≡ total weight s.finished + held weight s.pool.workers + total weight s.pool.task_queue)
run_conserves_example = run_conserves weight small schedule refl refl

-- Two calls read that there is no worker, and both start one.
abbrev two_at_once : List (Event ℕ)
two_at_once =
    submits 7
    ∷ submits 8
    ∷ goes_on 0 (created 1)
    ∷ goes_on 1 (created 2)
    ∷ goes_on 0 (created 1)
    ∷ goes_on 1 (created 2)
    ∷ goes_on 0 (created 1)
    ∷ goes_on 0 (created 2)
    ∷ []

abbrev made : System ℕ
made = initial (ThreadPool.new (pos 4) (pos 1) (pos 60000) (pos 64))

two_calls : at_most 2 made two_at_once ≡ true
unfolding at_most step initial submit continue slot_at set_slot remove_slot ThreadPool.new
    ThreadPool.act ThreadPool.start_worker ThreadPool.push
two_calls = refl

workers-le-max_example : length (run made two_at_once).pool.workers ≤ 1 + 1
workers-le-max_example =
    workers-le-max 4 1 1 (pos 60000) (pos 64) two_at_once (omega arith) two_calls

-- The bound is reached.
one_too_many : length (run made two_at_once).pool.workers ≡ 2
unfolding run step initial submit continue slot_at set_slot remove_slot ThreadPool.new
    ThreadPool.act ThreadPool.start_worker ThreadPool.push
one_too_many = refl

-- Shut down while the worker runs its first task, with another one in the queue.
abbrev stopping : System ℕ
stopping = record {
  pool = record small {
    is_shutdown = true;
    workers = record { thread = 1; is_core_worker = true; phase = holding 7 } ∷ [];
    task_queue = 8 ∷ [];
  };
  calls = [];
  exiting = 0;
  accepted = [];
  enqueued = [];
  dequeued = [];
  finished = [];
}

shutdown_terminates_example :
    (es : List (Event ℕ)) × ((run stopping es).pool.is_terminated ≡ true) × (length es ≤ 9)
shutdown_terminates_example = shutdown_terminates stopping refl (omega arith)

queue_is_served_example :
    (es : List (Event ℕ)) × ((run stopping es).pool.task_queue ≡ [])
    × ((run stopping es).finished ≡ 7 ∷ 8 ∷ [])
    × (length es ≤ 4)
unfolding phase_of
queue_is_served_example =
    queue_is_served stopping 1 (holding 7) refl (λ e. absurd (ground (arith, e)))
