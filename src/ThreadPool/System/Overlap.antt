-- ===== src/ThreadPool/System/Overlap.antt =====
-- src/utils/CachedThreadPool.cpp: what calls of `execute` and leaving workers can do to one another,
-- since `execute` reads the number of workers with no lock.
use neo_group_captcha_bot.Common.{
  slot_at, set_slot, ℕ, suc, ◌≤◌, ◌≡◌, refl, ◌∙◌, true, false, List, [], ◌∷◌, ◌++◌, to_u64, arith,
  length, length-append,
}
use neo_group_captcha_bot.ThreadPool.{
  holding, leaving, Worker, ThreadPool, Spawn, created, enqueue, plan, act, remove_worker,
  erase_worker, start_worker, push, settle,
}
use neo_group_captcha_bot.ThreadPool.System.{
  System, decided, continue, Event, submits, goes_on, exits, settles, phase_of, submit, exit_worker,
  settle_one, step, run,
}

module _ {ℓ} {T : Type ℓ} where
  -- Two callers that both read the count one below the core size, in a pool whose two sizes are
  -- equal, both start a worker: the pool then has one worker more than its maximum.
  pub act_twice_exceeds :
      (p : ThreadPool T) (a b : T) (i j : ℕ)
      → suc (length p.workers) ≡ to_u64 p.core_pool_size
      → to_u64 p.core_pool_size ≡ to_u64 p.max_pool_size
      → let q = (act (plan p) (act (plan p) p a (created i)).0 b (created j)).0 in
        length q.workers ≡ suc (to_u64 q.max_pool_size)
  unfolding act plan start_worker
  act_twice_exceeds p a b i j h k = ground (
    arith,
    length-append p.workers (record { thread = i; is_core_worker = true; phase = holding a } ∷ []),
    length-append
        (p.workers ++ (record { thread = i; is_core_worker = true; phase = holding a } ∷ []))
        (record { thread = j; is_core_worker = true; phase = holding b } ∷ []),
  )

  -- The workers of these threads, each on its way out of `getTask` with no task.
  abbrev pub all_leaving : List ℕ → List (Worker T)
  all_leaving [] = []
  all_leaving (i ∷ is) =
      record { thread = i; is_core_worker = true; phase = leaving } ∷ all_leaving is

  abbrev pub exit_all : List ℕ → List (Event T)
  exit_all [] = []
  exit_all (i ∷ is) = exits i ∷ exit_all is

  run-exit_all :
      (is : List ℕ) (s : System T)
      → s.pool.workers ≡ all_leaving is
      → ((run s (exit_all is)).pool.workers ≡ [])
        × ((run s (exit_all is)).pool.task_queue ≡ s.pool.task_queue)
  unfolding run
  run-exit_all [] s h = (h, refl)
  run-exit_all (i ∷ is) s h =
      let one : ((step s (exits i)).pool.workers ≡ all_leaving is)
          × ((step s (exits i)).pool.task_queue ≡ s.pool.task_queue) =
        unfold step exit_worker phase_of remove_worker erase_worker in ground (arith, h) in
      let (gone, kept) = run-exit_all is (step s (exits i)) one.0 in (gone, kept ∙ one.1)

  -- All parts of a call of `execute`, and what follows it.
  abbrev pub whole_call : T → Spawn → List (Event T) → List (Event T)
  whole_call t spawn rest = submits t ∷ goes_on 0 spawn ∷ goes_on 0 spawn ∷ goes_on 0 spawn ∷ rest

  -- A task that is submitted while every worker is on its way out (its wait has run out, its entry
  -- is still in the map, so the count reaches the core size and the queue is empty) is accepted
  -- into the queue, and once those workers have left there is nobody to run it.
  pub execute_strands :
      (s : System T) (t : T) (spawn : Spawn) (is : List ℕ)
      → s.pool.workers ≡ all_leaving is
      → to_u64 s.pool.core_pool_size ≤ length s.pool.workers
      → s.pool.task_queue ≡ []
      → s.pool.is_shutdown ≡ false
      → s.pool.is_terminated ≡ false
      → s.calls ≡ []
      → let u = run s (whole_call t spawn (exit_all is)) in
        (u.pool.workers ≡ []) × (u.pool.task_queue ≡ t ∷ [])
  execute_strands s t spawn is hw hc hq hs ht hn =
      let v =
        step (step (step (step s (submits t)) (goes_on 0 spawn)) (goes_on 0 spawn))
          (goes_on 0 spawn) in
      let one : (v.pool.workers ≡ s.pool.workers) × (v.pool.task_queue ≡ t ∷ []) =
        unfold step submit continue slot_at set_slot act push in ground (arith, hq, hn) in
      let (gone, kept) = run-exit_all is v (one.0 ∙ hw) in unfold run in (gone, kept ∙ one.1)

  -- A call that has decided on the queue when the pool comes to its end leaves its task there, in a
  -- pool that is marked as terminated.
  late_task :
      (s : System T) (t : T) (spawn : Spawn)
      → s.pool.is_terminated ≡ true
      → s.pool.task_queue ≡ []
      → s.calls ≡ decided t enqueue ∷ []
      → let u = step s (goes_on 0 spawn) in
        (u.pool.is_terminated ≡ true)
        × (u.pool.task_queue ≡ t ∷ [])
        × (u.accepted ≡ s.accepted ++ (t ∷ []))
  unfolding step continue slot_at act push
  late_task s t spawn h q c = ground (arith, h, q, c)

  -- When two workers of a pool that is shut down leave together, the pool is marked as terminated
  -- while one of them has still to do the second half of `onWorkerExit`.
  marked_while_exiting :
      (s : System T) (i j : ℕ)
      → s.pool.is_shutdown ≡ true
      → s.pool.workers ≡ all_leaving (i ∷ j ∷ [])
      → s.exiting ≡ 0
      → let u = run s (exits i ∷ exits j ∷ settles ∷ []) in
        (u.pool.is_terminated ≡ true) × (u.exiting ≡ 1)
  unfolding run step exit_worker phase_of remove_worker erase_worker settle_one settle
  marked_while_exiting s i j h w e = ground (arith, h, w, e)
