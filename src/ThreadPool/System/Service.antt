-- ===== src/ThreadPool/System/Service.antt =====
-- src/utils/CachedThreadPool.cpp, `Worker::run`: what one worker makes of the queue.
use neo_group_captcha_bot.Common.{
  ℕ, ◌+◌, ◌*◌, ◌≤◌, ◌≡◌, ◌≢◌, refl, sym, ap, ◌∙◌, List, [], ◌∷◌, ◌++◌, append_assoc, append-nil,
  some, ℤ, length, arith,
}
use neo_group_captcha_bot.ThreadPool.{
  ThreadPool, Phase, holding, idle, waiting, leaving, Worker, get_task, take_front, poll_timeout,
}
use neo_group_captcha_bot.ThreadPool.System.{
  System, Event, polls, takes, runs, phase_of, set_phase, poll, taken, take_task, run_task, step,
  run,
}

module _ {ℓ} {T : Type ℓ} where
  phase_of-set_phase :
      (i : ℕ) (old ph : Phase T) (ws : List (Worker T))
      → phase_of i ws ≡ some old
      → phase_of i (set_phase i ph ws) ≡ some ph
  unfolding phase_of set_phase
  phase_of-set_phase i old ph [] h = cc
  phase_of-set_phase i old ph (w ∷ ws) h = ground (arith, phase_of-set_phase i old ph ws)

  -- Where the worker `i` stands, what waits in the queue, and what has been run.
  record At (i : ℕ) (ph : Phase T) (queue finished : List T) (s : System T) : Type ℓ where
    stands : phase_of i s.pool.workers ≡ some ph
    waits : s.pool.task_queue ≡ queue
    done : s.finished ≡ finished

  run-At :
      (i : ℕ) (t : T) (q f : List T) (s : System T)
      → At i (holding t) q f s
      → At i idle q (f ++ (t ∷ [])) (step s (runs i))
  unfolding step run_task
  run-At i t q f s a = rw a.stands (record {
    stands = phase_of-set_phase i (holding t) idle s.pool.workers a.stands;
    waits = a.waits;
    done = ap (λ l. l ++ (t ∷ [])) a.done;
  })

  poll-At :
      (i : ℕ) (q f : List T) (s : System T)
      → At i idle q f s
      → At i (waiting (poll_timeout s.pool)) q f (step s (polls i))
  unfolding step poll
  poll-At i q f s a = rw a.stands (record {
    stands = phase_of-set_phase i idle (waiting (poll_timeout s.pool)) s.pool.workers a.stands;
    waits = a.waits;
    done = a.done;
  })

  get_task-front :
      (p : ThreadPool T) (n : ℤ) (t : T) (q : List T)
      → p.task_queue ≡ t ∷ q
      → get_task p n ≡ some (record p { task_queue = q }, some t)
  unfolding get_task take_front
  get_task-front p n t q e = ground (arith, e)

  take-At :
      (i : ℕ) (n : ℤ) (t : T) (q f : List T) (s : System T)
      → At i (waiting n) (t ∷ q) f s
      → At i (holding t) q f (step s (takes i))
  unfolding step take_task taken
  take-At i n t q f s a =
      rw (a.stands, get_task-front s.pool n t q a.waits)
        (record {
          stands = phase_of-set_phase i (waiting n) (holding t) s.pool.workers a.stands;
          waits = refl;
          done = a.done;
        })

  -- The task that a worker holds.
  abbrev pub in_hand : Phase T → List T
  in_hand (holding t) = t ∷ []
  in_hand _ = []

  -- Some steps after which the queue is empty and those tasks have been run.
  record Served (s : System T) (tasks : List T) (most : ℕ) : Type ℓ where
    steps : List (Event T)
    few : length steps ≤ most
    empty_queue : (run s steps).pool.task_queue ≡ []
    in_order : (run s steps).finished ≡ s.finished ++ tasks

  serve_holding :
      (i : ℕ) (t : T) (q : List T) (s : System T)
      → At i (holding t) q s.finished s
      → Served s (t ∷ q) (3 * length q + 1)
  unfolding run
  serve_holding i t [] s a =
      let b = run-At i t [] s.finished s a in
      record { steps = runs i ∷ []; few = omega arith; empty_queue = b.waits; in_order = b.done }
  serve_holding i t (u ∷ q) s a =
      let s1 : System T = step s (runs i) in
      let b : At i idle (u ∷ q) (s.finished ++ (t ∷ [])) s1 = run-At i t (u ∷ q) s.finished s a in
      let s2 : System T = step s1 (polls i) in
      let c = poll-At i (u ∷ q) (s.finished ++ (t ∷ [])) s1 b in
      let s3 : System T = step s2 (takes i) in
      let d = take-At i (poll_timeout s1.pool) u q (s.finished ++ (t ∷ [])) s2 c in
      let r = serve_holding i u q s3 (record { stands = d.stands; waits = d.waits; done = refl }) in
      record {
        steps = runs i ∷ polls i ∷ takes i ∷ r.steps;
        few = omega (arith, r.few);
        empty_queue = r.empty_queue;
        in_order =
            r.in_order ∙ ap (λ l. l ++ (u ∷ q)) d.done ∙ append_assoc s.finished (t ∷ []) (u ∷ q);
      }

  -- A worker that waits, with the queue as it is.
  serve_waiting :
      (i : ℕ) (n : ℤ) (q : List T) (s : System T)
      → At i (waiting n) q s.finished s
      → Served s q (3 * length q)
  unfolding run
  serve_waiting i n [] s a = record {
    steps = [];
    few = omega arith;
    empty_queue = a.waits;
    in_order = sym (append-nil s.finished);
  }
  serve_waiting i n (t ∷ q) s a =
      let s1 : System T = step s (takes i) in
      let b : At i (holding t) q s.finished s1 = take-At i n t q s.finished s a in
      let r = serve_holding i t q s1 (record { stands = b.stands; waits = b.waits; done = refl }) in
      record {
        steps = takes i ∷ r.steps;
        few = omega (arith, r.few);
        empty_queue = r.empty_queue;
        in_order = r.in_order ∙ ap (λ l. l ++ (t ∷ q)) b.done;
      }

  serve_idle :
      (i : ℕ) (q : List T) (s : System T) → At i idle q s.finished s → Served s q (3 * length q + 1)
  unfolding run
  serve_idle i q s a =
      let s1 : System T = step s (polls i) in
      let b = poll-At i q s.finished s a in
      let r =
        serve_waiting i (poll_timeout s.pool) q s1
          (record { stands = b.stands; waits = b.waits; done = refl }) in
      record {
        steps = polls i ∷ r.steps;
        few = omega (arith, r.few);
        empty_queue = r.empty_queue;
        in_order = r.in_order ∙ ap (λ l. l ++ q) b.done;
      }

  serve :
      (i : ℕ) (ph : Phase T) (s : System T)
      → phase_of i s.pool.workers ≡ some ph
      → ph ≢ leaving
      → Served s (in_hand ph ++ s.pool.task_queue) (3 * length s.pool.task_queue + 1)
  serve i (holding t) s h k =
      serve_holding i t s.pool.task_queue s (record { stands = h; waits = refl; done = refl })
  serve i idle s h k =
      serve_idle i s.pool.task_queue s (record { stands = h; waits = refl; done = refl })
  serve i (waiting n) s h k =
      let r =
        serve_waiting i n s.pool.task_queue s (record { stands = h; waits = refl; done = refl }) in
      record {
        steps = r.steps;
        few = omega (arith, r.few);
        empty_queue = r.empty_queue;
        in_order = r.in_order;
      }
  serve i leaving s h k = absurd (k refl)

  -- One worker is enough: in every state with a worker in the map that is not on its way out, shut
  -- down or not, there are steps, at most three for each task in the queue and one, after which the
  -- queue is empty and what has been run is what had been, the task in that worker's hand if it
  -- has one, and the tasks of the queue in their order.
  pub queue_is_served :
      (s : System T) (i : ℕ) (ph : Phase T)
      → phase_of i s.pool.workers ≡ some ph
      → ph ≢ leaving
      → (es : List (Event T)) × ((run s es).pool.task_queue ≡ [])
        × ((run s es).finished ≡ s.finished ++ (in_hand ph ++ s.pool.task_queue))
        × (length es ≤ 3 * length s.pool.task_queue + 1)
  queue_is_served s i ph h k =
      let r = serve i ph s h k in (r.steps, r.empty_queue, r.in_order, r.few)
