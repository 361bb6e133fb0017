-- ===== src/ThreadPool/System/Progress.antt =====
-- src/utils/CachedThreadPool.cpp: after `shutdown` the workers come to their end.
use neo_group_captcha_bot.Common.{
  ℕ, zero, suc, ◌+◌, ◌*◌, ◌≤◌, ◌<◌, ◌≡◌, refl, true, List, [], ◌∷◌, some, length, arith, ==_iff,
}
use neo_group_captcha_bot.ThreadPool.{
  Phase, holding, idle, waiting, leaving, Worker, get_task, take_front, poll_timeout, remove_worker,
  erase_worker, settle,
}
use neo_group_captcha_bot.ThreadPool.System.{
  System, Event, polls, takes, runs, exits, settles, phase_of, set_phase, poll, taken, take_task,
  run_task, exit_worker, settle_one, step, run,
}

module _ {ℓ} {T : Type ℓ} where
  -- The steps that a worker has left, at most, where each task in the queue costs three.
  abbrev steps_left : Phase T → ℕ
  steps_left (holding t) = 5
  steps_left idle = 4
  steps_left (waiting timeout) = 3
  steps_left leaving = 2

  abbrev all_left : List (Worker T) → ℕ
  all_left [] = 0
  all_left (w ∷ ws) = steps_left w.phase + all_left ws

  abbrev measure : System T → ℕ
  measure s = all_left s.pool.workers + 3 * length s.pool.task_queue

  -- One more step has been made, and there is still somebody to make the next.
  record Closer (s u : System T) : Type ℓ where
    pub fewer : measure u < measure s
    pub ended : u.pool.is_shutdown ≡ true
    pub someone : 0 < length u.pool.workers + u.exiting

  head_phase :
      (w : Worker T) (ws l : List (Worker T)) → l ≡ w ∷ ws → phase_of w.thread l ≡ some w.phase
  unfolding phase_of
  head_phase w ws [] e = ground (arith, e)
  head_phase w ws (x ∷ xs) e = ground (arith, e, ==_iff w.thread w.thread)

  head_set_phase :
      (w : Worker T) (ws l : List (Worker T)) (ph : Phase T)
      → l ≡ w ∷ ws
      → set_phase w.thread ph l ≡ record w { phase = ph } ∷ ws
  unfolding set_phase
  head_set_phase w ws [] ph e = ground (arith, e)
  head_set_phase w ws (x ∷ xs) ph e = ground (arith, e, ==_iff w.thread w.thread)

  head_erase_worker :
      (w : Worker T) (ws l : List (Worker T)) → l ≡ w ∷ ws → erase_worker w.thread l ≡ ws
  unfolding erase_worker
  head_erase_worker w ws [] e = ground (arith, e)
  head_erase_worker w ws (x ∷ xs) e = ground (arith, e, ==_iff w.thread w.thread)

  -- The first worker of a pool that is shut down can make a step.
  advance :
      (ph : Phase T) (q : List T) (s : System T) (w : Worker T) (ws : List (Worker T))
      → w.phase ≡ ph
      → s.pool.task_queue ≡ q
      → s.pool.workers ≡ w ∷ ws
      → s.pool.is_shutdown ≡ true
      → (e : Event T) × Closer s (step s e)
  unfolding step
  advance (holding t) q s w ws e f g h = (
    runs w.thread,
    unfold run_task in
        ground (arith, head_phase w ws s.pool.workers g, head_set_phase w ws s.pool.workers idle g),
  )
  advance idle q s w ws e f g h = (
    polls w.thread,
    unfold poll in
        ground (
          arith,
          head_phase w ws s.pool.workers g,
          head_set_phase w ws s.pool.workers (waiting (poll_timeout s.pool)) g,
        ),
  )
  advance (waiting n) [] s w ws e f g h = (
    takes w.thread,
    unfold take_task taken get_task take_front in
        ground
          (arith, head_phase w ws s.pool.workers g, head_set_phase w ws s.pool.workers leaving g),
  )
  advance (waiting n) (t ∷ rest) s w ws e f g h = (
    takes w.thread,
    unfold take_task taken get_task take_front in
        ground (
          arith,
          head_phase w ws s.pool.workers g,
          head_set_phase w ws s.pool.workers (holding t) g,
        ),
  )
  advance leaving q s w ws e f g h = (
    exits w.thread,
    unfold exit_worker remove_worker in
        ground (arith, head_phase w ws s.pool.workers g, head_erase_worker w ws s.pool.workers g),
  )

  few_steps : (ph : Phase T) → steps_left ph ≤ 5
  few_steps (holding t) = omega arith
  few_steps idle = omega arith
  few_steps (waiting timeout) = omega arith
  few_steps leaving = omega arith

  few_left : (ws : List (Worker T)) → all_left ws ≤ 5 * length ws
  few_left [] = omega arith
  few_left (w ∷ ws) = omega (arith, few_steps w.phase, few_left ws)

  steps_to_end :
      (n : ℕ) (l : List (Worker T)) (s : System T)
      → s.pool.workers ≡ l
      → measure s < n
      → s.pool.is_shutdown ≡ true
      → 0 < length s.pool.workers + s.exiting
      → (es : List (Event T)) × ((run s es).pool.is_terminated ≡ true) × (length es ≤ n)
  unfolding run
  steps_to_end zero l s g m h k = absurd (omega (arith, m))
  steps_to_end (suc n) [] s g m h k =
      (settles ∷ [], unfold step settle_one settle in ground (arith, g, h, k), omega arith)
  steps_to_end (suc n) (w ∷ ws) s g m h k =
      let (e, c) = advance w.phase s.pool.task_queue s w ws refl refl g h in
      let (es, t, few) =
        steps_to_end n (step s e).pool.workers (step s e) refl (omega (arith, c.fewer, m)) c.ended
          c.someone in
      (e ∷ es, t, omega (arith, few))

  -- In every state after `shutdown` in which a worker is in the map or on its way out, the threads
  -- can bring the pool to its end: some further steps, at most five for each worker, three for each
  -- task in the queue, and one, after which it is marked as terminated.
  pub shutdown_terminates :
      (s : System T)
      → s.pool.is_shutdown ≡ true
      → 0 < length s.pool.workers + s.exiting
      → (es : List (Event T)) × ((run s es).pool.is_terminated ≡ true)
        × (length es ≤ 5 * length s.pool.workers + 3 * length s.pool.task_queue + 1)
  shutdown_terminates s h k =
      let (es, t, few) = steps_to_end (suc (measure s)) s.pool.workers s refl (omega arith) h k in
      (es, t, omega (arith, few, few_left s.pool.workers))
