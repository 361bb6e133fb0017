-- ===== src/ThreadPool/Monitor/Wakeup.antt =====
-- src/utils/CachedThreadPool.cpp: `notify_one` in `execute` against the waits of `getTask`.
use neo_group_captcha_bot.Common.{
  suc, ◌≤◌, ◌≡◌, ◌≢◌, ◌⊎◌, inl, inr, refl, ap, List, [], ◌∷◌, Bool, true, false, not, ◌&&◌, length,
  length-append, length-zero, ◌-◌, is_neg, is_empty, int_beq, pos, Bool-cases, if◌then◌else◌, arith,
}
use neo_group_captcha_bot.ThreadPool.Monitor.{
  Caller, Monitor, Picks, first, later, fresh, must_wait, answer_from, answer, block, enter, resume,
  resume_all, shut_down, Step, enters, enqueues, notifies, wakes, resumes, shuts_down, Reach, here,
  next,
}

pub length-Picks : {c : Caller} {cs ds : List Caller} → Picks c cs ds → length cs ≡ suc (length ds)
length-Picks first = omega arith
length-Picks (later p) = omega (arith, length-Picks p)

module _ {ℓ} {T : Type ℓ} where
  abbrev pub Heard : Monitor T → Type 0
  Heard m = (m.waiters ≡ []) ⊎ (length m.task_queue ≤ length m.woken)

  pub must_wait-nil : (m : Monitor T) → must_wait m ≡ true → m.task_queue ≡ []
  unfolding must_wait
  must_wait-nil m h = go m.task_queue m.is_shutdown h
    where
      go : (q : List T) (b : Bool) → (is_empty q && not b) ≡ true → q ≡ []
      go [] b h = refl
      go (t ∷ q) b h = cc

  answer-Heard :
      (q : List T) (c : Caller) (m : Monitor T)
      → (m.waiters ≡ []) ⊎ (length q ≤ suc (length m.woken))
      → q ≡ m.task_queue
      → Heard (answer_from q c m)
  unfolding answer_from
  answer-Heard [] c m h e = ground arith
  answer-Heard (t ∷ q) c m h e = ground arith

  block-Heard : (c : Caller) (m : Monitor T) → must_wait m ≡ true → Heard (block c m)
  block-Heard c m h = inr (rw (must_wait-nil m h) (omega arith))

  -- Going in, and going on after a wait of which the condition counts or not.
  decide-Heard :
      (b : Bool) (c : Caller) (m : Monitor T)
      → (b ≡ true → must_wait m ≡ true)
      → (m.waiters ≡ []) ⊎ (length m.task_queue ≤ suc (length m.woken))
      → Heard (if b then block c m else answer c m)
  decide-Heard true c m f h = block-Heard c m (f refl)
  decide-Heard false c m f h = answer-Heard m.task_queue c m h refl

  pub enter-if :
      (c : Caller) (m : Monitor T)
      → enter c m
        ≡ (if not (int_beq c.timeout (pos 0)) && must_wait m then block c m else answer c m)
  unfolding enter
  enter-if c m = elim (Bool-cases (int_beq c.timeout (pos 0))) [
    | inl e ↦ rw (e, if◌then◌else◌, not, ◌&&◌) refl
    | inr e ↦ rw (e, if◌then◌else◌, not, ◌&&◌) refl
  ]

  enter-Heard : (c : Caller) (m : Monitor T) → Heard m → Heard (enter c m)
  enter-Heard c m h = rw (enter-if c m) (
      decide-Heard (not (int_beq c.timeout (pos 0)) && must_wait m) c m (λ d. ground arith)
        (ground arith))

  resume-Heard :
      (c : Caller) (m : Monitor T)
      → (m.waiters ≡ []) ⊎ (length m.task_queue ≤ suc (length m.woken))
      → Heard (resume c m)
  unfolding resume
  resume-Heard c m h = decide-Heard (is_neg c.timeout && must_wait m) c m (λ d. ground arith) h

  -- Somebody waits, so the other half of the invariant holds.
  Picks-Heard :
      {c : Caller} {cs : List Caller} (m : Monitor T)
      → Picks c m.waiters cs
      → Heard m
      → length m.task_queue ≤ length m.woken
  Picks-Heard m p (inr h) = h
  Picks-Heard m p (inl e) =
      let n : length m.waiters ≡ 0 = ap length e in absurd (omega (arith, n, length-Picks p))

  Step-Heard : {m n : Monitor T} → Step m n → Heard m → Heard n
  Step-Heard (enters m c) h = enter-Heard c m h
  Step-Heard (enqueues m task e) h = inl e
  Step-Heard (notifies m task c cs p) h = inr (
      omega (
        arith,
        Picks-Heard m p h,
        length-append m.task_queue (task ∷ []),
        length-append m.woken (c ∷ []),
      ))
  Step-Heard (wakes m c cs p) h =
      inr (omega (arith, Picks-Heard m p h, length-append m.woken (c ∷ [])))
  Step-Heard (resumes m c cs p) h =
      resume-Heard c (record m { woken = cs }) (ground (arith, length-Picks p))
  Step-Heard (shuts_down m) h = unfold shut_down in inl refl

  Reach-Heard : {m n : Monitor T} → Reach m n → Heard m → Heard n
  Reach-Heard here h = h
  Reach-Heard (next r s) h = Step-Heard s (Reach-Heard r h)

  answer-queue :
      (q : List T) (c : Caller) (m : Monitor T)
      → m.task_queue ≡ q
      → length (answer_from q c m).task_queue ≡ length q - 1
  unfolding answer_from
  answer-queue [] c m e = ap length e
  answer-queue (t ∷ q) c m e = omega arith

  -- A caller that takes the lock takes a task if there is one.
  resume-queue :
      (c : Caller) (m : Monitor T) → length (resume c m).task_queue ≡ length m.task_queue - 1
  unfolding resume
  resume-queue c m = go (is_neg c.timeout && must_wait m) (λ d. ground arith)
    where
      go :
          (b : Bool)
          → (b ≡ true → must_wait m ≡ true)
          → length (if b then block c m else answer c m).task_queue ≡ length m.task_queue - 1
      go true f =
          let e : length m.task_queue ≡ 0 = ap length (must_wait-nil m (f refl)) in omega (arith, e)
      go false f = answer-queue m.task_queue c m refl

  resume_all-empties :
      (cs : List Caller) (m : Monitor T)
      → length m.task_queue ≤ length cs
      → (resume_all cs m).task_queue ≡ []
  unfolding resume_all
  resume_all-empties [] m h = length-zero m.task_queue (omega (arith, h))
  resume_all-empties (c ∷ cs) m h =
      let k : Monitor T = record m { woken = cs } in
      resume_all-empties cs (resume c k) (omega (arith, h, resume-queue c k))

  -- No wake-up is lost: in every state that the threads reach from a pool that has just been made,
  -- whichever waiters `notify_one` chooses and whichever waits end for no reason, if a thread is
  -- still blocked in a wait, there are no more tasks in the queue than threads that are awake and
  -- on their way to it, and once those have taken the lock the queue is empty.
  pub no_lost_wakeup :
      (m : Monitor T)
      → Reach fresh m
      → m.waiters ≢ []
      → (length m.task_queue ≤ length m.woken) × ((resume_all m.woken m).task_queue ≡ [])
  no_lost_wakeup m r w = elim (Reach-Heard r (inl refl)) [
    | inl e ↦ absurd (w e)
    | inr h ↦ (h, resume_all-empties m.woken m h)
  ]
