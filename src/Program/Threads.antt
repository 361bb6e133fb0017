-- ===== src/Program/Threads.antt =====
-- The program of src/core/startup.cpp with the workers of its two thread pools
-- (src/core/manager/SessionManager.h, `mThreadPool`, and src/utils/SyncUtils.cpp, `sThreadPool`): a
-- task is run by a worker that holds it, on the session that the task captured.
pub mod Erasure
pub mod Handlers
pub mod Steps
pub mod Refinement
use neo_group_captcha_bot.Common.{ℕ, List, [], ◌∷◌, Option, none, some, ℤ, Bytes}
use neo_group_captcha_bot.ThreadPool.{Phase, holding, idle, ThreadPool}
use neo_group_captcha_bot.ThreadPool.System
use neo_group_captcha_bot.ThreadPool.System.{initial, phase_of}
use neo_group_captcha_bot.State.{Task, set_offline, ask_code, ask_password, World}
use neo_group_captcha_bot.Session.Auth.{run_task}
use neo_group_captcha_bot.Manager.{get_session}
use neo_group_captcha_bot.Program.{Event, on_session}
use neo_group_captcha_bot.Program

-- The pool of `getExecutors`, and the one of `async`.
pub data Pool : Type 0 where
  executors asyncs : Pool

-- What a worker's thread does: the steps of `Worker::run`, where `works` runs the task in its hand,
-- with the line that is typed at its prompt.
pub data Act : Type 0 where
  polls takes exits : ℕ → Act
  works : ℕ → Bytes → Act

pub data Move : Type 0 where
  program : Event → Move
  worker : Pool → Act → Move

unfoldable pub pool_of : Pool → World → Option (ThreadPool Task)
pool_of executors w = some w.manager.thread_pool
pool_of asyncs w = w.async_pool

unfoldable pub set_pool : Pool → ThreadPool Task → World → World
set_pool executors p w = record w { manager = record (w.manager) { thread_pool = p } }
set_pool asyncs p w = record w { async_pool = some p }

-- The session that a task captured.
abbrev pub owner : Task → ℤ
owner (set_offline id) = id
owner (ask_code id) = id
owner (ask_password id) = id

-- A step of the pool alone, as ThreadPool.System takes it.
abbrev pub pool_step : System.Event Task → ThreadPool Task → ThreadPool Task
pool_step e p = (System.step (initial p) e).pool

unfoldable pub perform : Task → Bytes → World → World
perform task line w =
    on_session (get_session w (owner task)) (owner task) (λ s v. run_task task line s v) w

-- The task is run, and the worker, which held it, goes on; the task may have used the pool.
unfoldable pub after_task : Pool → ℕ → Option (ThreadPool Task) → World → World
after_task pl i none w = w
after_task pl i (some p) w = set_pool pl (pool_step (System.runs i) p) w

unfoldable pub work : Option (Phase Task) → Pool → ℕ → Bytes → World → World
unfolding after_task pool_of
work (some (holding task)) pl i line w =
    let v = perform task line w in after_task pl i (pool_of pl v) v
work _ pl i line w = w

unfoldable pub act_on : Act → Pool → ThreadPool Task → World → World
act_on (polls i) pl p w = set_pool pl (pool_step (System.polls i) p) w
act_on (takes i) pl p w = set_pool pl (pool_step (System.takes i) p) w
act_on (exits i) pl p w = set_pool pl (pool_step (System.exits i) p) w
act_on (works i line) pl p w = work (phase_of i p.workers) pl i line w

unfoldable pub move_worker : Option (ThreadPool Task) → Pool → Act → World → World
unfolding act_on
move_worker none pl a w = w
move_worker (some p) pl a w = act_on a pl p w

unfoldable pub step : World → Move → World
unfolding move_worker
step w (program e) = Program.step w e
step w (worker pl a) = move_worker (pool_of pl w) pl a w

unfoldable pub run : World → List Move → World
run w [] = w
run w (m ∷ ms) = run (step w m) ms
