-- ===== src/ThreadPool/System/Bounds.antt =====
-- src/utils/CachedThreadPool.cpp: how many workers there are, when so many calls of `execute`
-- overlap.
use neo_group_captcha_bot.Common.{
  ℕ, suc, ◌+◌, ◌≤◌, ◌<◌, ◌≡◌, refl, ap, true, Bool, leb, leb→le, ◌&&◌, List, [], ◌∷◌, Option, none,
  some, ℤ, pos, to_u64, two_64, arith, length, length-append, slot_at, set_slot, length-set_slot,
  sum_of, sum_of-append, sum_of-le, sum_of-set_slot, sum_of-remove_slot, ltb, if◌then◌else◌,
}
use neo_group_captcha_bot.ThreadPool.{
  Phase, holding, Worker, ThreadPool, Spawn, created, failed, start, enqueue, plan_with, new, act,
  current_worker_count, get_task, shutdown, remove_worker, erase_worker, settle, start_worker, push,
  take_front,
}
use neo_group_captcha_bot.ThreadPool.System.{
  System, Call, checked, counted, decided, continue, Event, submits, goes_on, shuts_down, polls,
  takes, runs, exits, settles, initial, set_phase, submit, poll, taken, take_task, run_task,
  exit_worker, settle_one, step, run,
}

module _ {ℓ} {T : Type ℓ} where
  pub length-set_phase :
      (i : ℕ) (ph : Phase T) (ws : List (Worker T)) → length (set_phase i ph ws) ≡ length ws
  unfolding set_phase
  length-set_phase i ph [] = refl
  length-set_phase i ph (x ∷ xs) = ground (arith, length-set_phase i ph xs)

  length-erase_worker : (i : ℕ) (ws : List (Worker T)) → length (erase_worker i ws) ≤ length ws
  unfolding erase_worker
  length-erase_worker i [] = omega arith
  length-erase_worker i (x ∷ xs) = ground (arith, length-erase_worker i xs)

  -- Whether a call may still start a worker, in a pool with that maximum: 1 or 0.
  abbrev pub may_start : ℕ → Call T → ℕ
  may_start m (checked t) = 0
  may_start m (counted t n) = if ltb n m then 1 else 0
  may_start m (decided t (start core)) = 1
  may_start m (decided t enqueue) = 0

  may_start-le : (m : ℕ) (c : Call T) → may_start m c ≤ 1
  may_start-le m (checked t) = omega arith
  may_start-le m (counted t n) = ground arith
  may_start-le m (decided t (start core)) = omega arith
  may_start-le m (decided t enqueue) = omega arith

  -- At most so many calls of `execute` are under way at any time of the schedule.
  unfoldable pub at_most : ℕ → System T → List (Event T) → Bool
  at_most n s [] = leb (length s.calls) n
  at_most n s (e ∷ es) = let rest = at_most n (step s e) es in leb (length s.calls) n && rest

  -- The pool has its two sizes still, and with the calls that may start one, at most so many workers
  -- as the larger of them, and as calls that overlap another.
  pub record Bounded (c m : ℤ) (n : ℕ) (s : System T) : Type ℓ where
    pub core_size : s.pool.core_pool_size ≡ c
    pub max_size : s.pool.max_pool_size ≡ m
    pub few : length s.pool.workers + sum_of (may_start (to_u64 m)) s.calls ≤ to_u64 m + n

  module _ (c m : ℤ) (n : ℕ) (le : to_u64 c ≤ to_u64 m) where
    -- With a number of workers below no size, nothing is started.
    plan-may_start :
        (p : ThreadPool T) (t : T) (count : ℕ)
        → p.core_pool_size ≡ c
        → p.max_pool_size ≡ m
        → may_start (to_u64 m) (decided t (plan_with count p))
          ≤ may_start (to_u64 m) (counted t count)
    plan-may_start p t count hc hm =
        ground (arith, le, ap (λ (z : ℤ). to_u64 z) hc, ap (λ (z : ℤ). to_u64 z) hm)

    submit-Bounded : (s : System T) (t : T) → Bounded c m n s → Bounded c m n (submit s t)
    unfolding submit
    submit-Bounded s t v =
        ground (arith, sum_of-append (may_start (to_u64 m)) s.calls (checked t ∷ []))

    continue-Bounded :
        (o : Option (Call T)) (s : System T) (k : ℕ) (spawn : Spawn)
        → slot_at k s.calls ≡ o
        → length s.calls ≤ suc n
        → Bounded c m n s
        → Bounded c m n (continue o s k spawn)
    unfolding continue act start_worker push
    continue-Bounded none s k spawn h l v = v
    continue-Bounded (some (checked t)) s k spawn h l v =
        let d = counted t (current_worker_count s.pool) in
        ground (
          arith,
          sum_of-set_slot (may_start (to_u64 m)) k (checked t) d s.calls h,
          sum_of-le (may_start (to_u64 m)) (set_slot k d s.calls) (may_start-le (to_u64 m)),
          length-set_slot k d s.calls,
        )
    continue-Bounded (some (counted t count)) s k spawn h l v =
        let d = decided t (plan_with count s.pool) in
        let e = sum_of-set_slot (may_start (to_u64 m)) k (counted t count) d s.calls h in
        let f = plan-may_start s.pool t count v.core_size v.max_size in
        record { core_size = v.core_size; max_size = v.max_size; few = omega (arith, e, f, v.few) }
    continue-Bounded (some (decided t (start core))) s k (failed err) h l v =
        let e = sum_of-remove_slot (may_start (to_u64 m)) k (decided t (start core)) s.calls h in
        record { core_size = v.core_size; max_size = v.max_size; few = omega (arith, e, v.few) }
    continue-Bounded (some (decided t (start core))) s k (created i) h l v =
        let e = sum_of-remove_slot (may_start (to_u64 m)) k (decided t (start core)) s.calls h in
        let w : Worker T = record { thread = i; is_core_worker = core; phase = holding t } in
        let f = length-append s.pool.workers (w ∷ []) in
        record { core_size = v.core_size; max_size = v.max_size; few = omega (arith, e, f, v.few) }
    continue-Bounded (some (decided t enqueue)) s k spawn h l v =
        let e = sum_of-remove_slot (may_start (to_u64 m)) k (decided t enqueue) s.calls h in
        record { core_size = v.core_size; max_size = v.max_size; few = omega (arith, e, v.few) }

    pub step-Bounded :
        (s : System T) (e : Event T)
        → length s.calls ≤ suc n
        → Bounded c m n s
        → Bounded c m n (step s e)
    unfolding step
    step-Bounded s (submits t) l v = submit-Bounded s t v
    step-Bounded s (goes_on k spawn) l v = continue-Bounded (slot_at k s.calls) s k spawn refl l v
    step-Bounded s shuts_down l v = unfold shutdown in ground arith
    step-Bounded s (polls i) l v = unfold poll in grind (arith, length-set_phase)
    step-Bounded s (takes i) l v =
        unfold take_task taken get_task take_front in grind (arith, length-set_phase)
    step-Bounded s (runs i) l v = unfold run_task in grind (arith, length-set_phase)
    step-Bounded s (exits i) l v =
        unfold exit_worker remove_worker in ground (arith, length-erase_worker i s.pool.workers)
    step-Bounded s settles l v = unfold settle_one settle in ground arith

    run-Bounded :
        (s : System T) (es : List (Event T))
        → at_most (suc n) s es ≡ true
        → Bounded c m n s
        → Bounded c m n (run s es)
    unfolding run at_most
    run-Bounded s [] l v = v
    run-Bounded s (e ∷ es) l v =
        run-Bounded (step s e) es (ground (arith, l))
          (step-Bounded s e (leb→le (length s.calls) (suc n) (ground (arith, l))) v)

  -- A pool made with sizes that are not negative (and fit a `size_t`), also where the core size given
  -- was larger: if at most `suc n` calls of `execute` are under way at any time of a schedule, it has
  -- at most `n` workers more than its maximum; so never more than its maximum if no two calls overlap.
  pub workers-le-max :
      (core max n : ℕ) (keep queue : ℤ) (es : List (Event T))
      → max < two_64
      → at_most (suc n) (initial (new (pos core) (pos max) keep queue)) es ≡ true
      → length (run (initial (new (pos core) (pos max) keep queue)) es).pool.workers ≤ max + n
  workers-le-max core max n keep queue es h few =
      let p = new {T = T} (pos core) (pos max) keep queue in
      let s = initial p in
      let v =
        run-Bounded p.core_pool_size p.max_pool_size n (unfold new in ground arith) s es few
          (unfold initial new in ground arith) in
      unfold new in omega (arith, v.few)
