-- ===== src/ThreadPool.antt =====
-- src/utils/CachedThreadPool.cpp, class CachedThreadPool::Impl: the state of the pool and its
-- methods, each as one step under the locks that it holds; `execute`, which holds none, as a call with
-- nothing in between. The result of `pthread_create` is an argument, and a wait on a condition variable
-- is a step that is not enabled.
pub mod System
pub mod Monitor
pub mod Termination
use neo_group_captcha_bot.Common.{
  ℕ, suc, ◌++◌, Bool, true, false, ◌&&◌, ◌||◌, not, List, [], ◌∷◌, Option, none, some, ℤ, pos,
  negsuc, to_u64, ltb_ℤ, is_neg, length, is_empty, ltb, ◌==◌, if◌then◌else◌,
}

-- Where a worker's thread stands in `Worker::run`.
pub data Phase {ℓ} (T : Type ℓ) : Type ℓ where
  holding : T → Phase T  -- `task` is set: it runs next
  idle : Phase T  -- head of the loop, `task` is null
  waiting : ℤ → Phase T  -- in `getTask` with this timeout
  leaving : Phase T  -- `getTask` returned null

pub record Worker {ℓ} (T : Type ℓ) : Type ℓ where
  pub thread : ℕ  -- pthread_t
  pub is_core_worker : Bool
  pub phase : Phase T

pub record ThreadPool {ℓ} (T : Type ℓ) : Type ℓ where
  pub core_pool_size : ℤ
  pub max_pool_size : ℤ
  pub keep_alive_time : ℤ
  pub max_queue_size : ℤ
  pub is_shutdown : Bool
  pub is_terminated : Bool
  pub workers : List (Worker T)
  pub task_queue : List T

-- What `pthread_create` does: a new thread, or an error code.
pub data Spawn : Type 0 where
  created : ℕ → Spawn
  failed : ℕ → Spawn

pub data Outcome : Type 0 where
  returns : Outcome
  throws : Outcome

-- What `execute` decides from the counts that it reads.
pub data Plan : Type 0 where
  start : Bool → Plan
  enqueue : Plan

module _ {ℓ} {T : Type ℓ} where
  -- The constructor, with its three adjustments.
  unfoldable pub new : ℤ → ℤ → ℤ → ℤ → ThreadPool T
  new core_pool_size max_pool_size keep_alive_time queue_size = record {
    core_pool_size = if ltb_ℤ max_pool_size core_pool_size then max_pool_size else core_pool_size;
    max_pool_size = max_pool_size;
    keep_alive_time = if is_neg keep_alive_time then pos 0 else keep_alive_time;
    max_queue_size = if is_neg queue_size then pos 64 else queue_size;
    is_shutdown = false;
    is_terminated = false;
    workers = [];
    task_queue = [];
  }

  abbrev pub current_worker_count : ThreadPool T → ℕ
  current_worker_count p = length p.workers

  unfoldable pub start_worker : ThreadPool T → T → Bool → Spawn → ThreadPool T × Outcome
  start_worker p first_task is_core (failed err) = (p, throws)
  start_worker p first_task is_core (created thread) = (
    record p {
      workers =
          p.workers
          ++ (record { thread = thread; is_core_worker = is_core; phase = holding first_task }
              ∷ []);
    },
    returns,
  )

  unfoldable pub push : ThreadPool T → T → ThreadPool T
  push p task = record p { task_queue = p.task_queue ++ (task ∷ []) }

  -- With the number of workers that was read. An `int` that is compared with a `size_t` is
  -- converted to it.
  abbrev pub plan_with : ℕ → ThreadPool T → Plan
  plan_with worker_count p =
      if ltb worker_count (to_u64 p.core_pool_size)
      then start true
      else if not (is_empty p.task_queue) && ltb worker_count (to_u64 p.max_pool_size)
      then start false
      else enqueue

  unfoldable pub plan : ThreadPool T → Plan
  plan p = plan_with (current_worker_count p) p

  unfoldable pub act : Plan → ThreadPool T → T → Spawn → ThreadPool T × Outcome
  unfolding start_worker push
  act (start is_core) p task spawn = start_worker p task is_core spawn
  act enqueue p task spawn = (push p task, returns)

  -- `none` is a null task.
  unfoldable pub execute : ThreadPool T → Option T → Spawn → ThreadPool T × Outcome
  unfolding plan act
  execute p none spawn = (p, returns)
  execute p (some task) spawn =
      if p.is_shutdown || p.is_terminated then (p, throws) else act (plan p) p task spawn

  take_front : List T → ThreadPool T → ThreadPool T × Option T
  take_front [] p = (p, none)
  take_front (task ∷ rest) p = (record p { task_queue = rest }, some task)

  -- `none`: the thread waits on. With a timeout of 0 or more the wait may end at any time.
  unfoldable pub get_task : ThreadPool T → ℤ → Option (ThreadPool T × Option T)
  unfolding take_front
  get_task p timeout =
      if is_neg timeout && is_empty p.task_queue && not p.is_shutdown
      then none
      else some (take_front p.task_queue p)

  unfoldable pub shutdown : ThreadPool T → ThreadPool T
  shutdown p = record p { is_shutdown = true }

  -- Not implemented: it is `shutdown`.
  unfoldable pub shutdown_now : ThreadPool T → ThreadPool T
  unfolding shutdown
  shutdown_now p = shutdown p

  -- The timeout that a worker passes to `getTask`.
  unfoldable pub poll_timeout : ThreadPool T → ℤ
  poll_timeout p =
      if ltb (to_u64 p.core_pool_size) (current_worker_count p) then p.keep_alive_time else negsuc 0

  unfoldable pub erase_worker : ℕ → List (Worker T) → List (Worker T)
  erase_worker i [] = []
  erase_worker i (w ∷ ws) = if w.thread == i then ws else w ∷ erase_worker i ws

  -- The first half of `onWorkerExit`, under `mWorkerLock`.
  unfoldable pub remove_worker : ThreadPool T → ℕ → ThreadPool T
  unfolding erase_worker
  remove_worker p i = record p { workers = erase_worker i p.workers }

  -- Its second half, under `mTerminationLock`.
  unfoldable pub settle : ThreadPool T → ThreadPool T
  settle p = if p.is_shutdown && is_empty p.workers then record p { is_terminated = true } else p

  unfoldable pub on_worker_exit : ThreadPool T → ℕ → ThreadPool T
  unfolding remove_worker settle
  on_worker_exit p i = settle (remove_worker p i)

-- What a call of `awaitTermination` does when it is made: it returns, it waits for a notification
-- that only `settle` sends, or it waits for one for that many milliseconds at most.
pub data Wait : Type 0 where
  returned : Wait
  until_notified : Wait
  up_to : ℤ → Wait

unfoldable pub await_termination {ℓ} : {T : Type ℓ} → ThreadPool T → ℤ → Wait
await_termination p timeout =
    if p.is_terminated then returned else if is_neg timeout then until_notified else up_to timeout
