-- ===== src/ThreadPool/Monitor/Release.antt =====
-- src/utils/CachedThreadPool.cpp: `shutdown` against the waits of `getTask`.
use mathlib.Core.List.{map-append}
use neo_group_captcha_bot.Common.{
  sym, subst, ◌∙◌, ◌≡◌, refl, ap, inl, inr, List, [], ◌∷◌, ◌++◌, Bool, true, false, not, ◌&&◌, none,
  some, map, append_assoc, append-nil, is_neg, int_beq, pos, Bool-cases, if◌then◌else◌, length,
  arith,
}
use neo_group_captcha_bot.ThreadPool.Monitor.{
  Caller, Monitor, Picks, first, fresh, must_wait, answer_from, answer, block, resume, resume_all,
  shut_down, Step, enters, enqueues, notifies, wakes, resumes, shuts_down, Reach, here, next,
}
use neo_group_captcha_bot.ThreadPool.Monitor.Wakeup.{length-Picks, enter-if}

module _ {ℓ} {T : Type ℓ} where
  abbrev pub Quiet : Monitor T → Type 0
  Quiet m = m.is_shutdown ≡ true → m.waiters ≡ []

  must_wait-shutdown : (m : Monitor T) → m.is_shutdown ≡ true → must_wait m ≡ false
  unfolding must_wait
  must_wait-shutdown m h = ground arith

  -- An answer leaves the waiters, those that are awake, and the flag.
  answer-Quiet : (q : List T) (c : Caller) (m : Monitor T) → Quiet m → Quiet (answer_from q c m)
  unfolding answer_from
  answer-Quiet [] c m h = h
  answer-Quiet (t ∷ q) c m h = h

  decide-Quiet :
      (b : Bool) (c : Caller) (m : Monitor T)
      → (b ≡ true → must_wait m ≡ true)
      → Quiet m
      → Quiet (if b then block c m else answer c m)
  decide-Quiet true c m f h = λ e. absurd (ground (arith, f refl, must_wait-shutdown m e))
  decide-Quiet false c m f h = answer-Quiet m.task_queue c m h

  Picks-Quiet :
      {c : Caller} {cs : List Caller} (m : Monitor T)
      → Picks c m.waiters cs
      → Quiet m
      → m.is_shutdown ≡ false
  Picks-Quiet m p h = elim (Bool-cases m.is_shutdown) [
    | inl e ↦
        let n : length m.waiters ≡ 0 = ap length (h e) in absurd (omega (arith, n, length-Picks p))
    | inr e ↦ e
  ]

  Step-Quiet : {m n : Monitor T} → Step m n → Quiet m → Quiet n
  Step-Quiet (enters m c) h =
      rw (enter-if c m)
        (decide-Quiet (not (int_beq c.timeout (pos 0)) && must_wait m) c m (λ d. ground arith) h)
  Step-Quiet (enqueues m task e) h = h
  Step-Quiet (notifies m task c cs p) h = λ e. absurd (ground (arith, e, Picks-Quiet m p h))
  Step-Quiet (wakes m c cs p) h = λ e. absurd (ground (arith, e, Picks-Quiet m p h))
  Step-Quiet (resumes m c cs p) h =
      unfold resume in
      decide-Quiet (is_neg c.timeout && must_wait m) c (record m { woken = cs }) (λ d. ground arith)
        h
  Step-Quiet (shuts_down m) h = unfold shut_down in λ e. refl

  pub Reach-Quiet : {m n : Monitor T} → Reach m n → Quiet m → Quiet n
  Reach-Quiet here h = h
  Reach-Quiet (next r s) h = Step-Quiet s (Reach-Quiet r h)

  abbrev pub callers : Monitor T → List Caller
  callers m = map (λ a. a.0) m.answers

  -- What a thread that has been woken finds after `shutdown`.
  resume-shutdown : (c : Caller) (m : Monitor T) → m.is_shutdown ≡ true → resume c m ≡ answer c m
  unfolding resume
  resume-shutdown c m h = go (is_neg c.timeout) (must_wait m) (must_wait-shutdown m h)
    where
      go : (a b : Bool) → b ≡ false → (if a && b then block c m else answer c m) ≡ answer c m
      go a false e = ground arith
      go a true e = cc

  answer-keeps :
      (q : List T) (c : Caller) (m : Monitor T)
      → let n = answer_from q c m in
        (n.waiters ≡ m.waiters)
        × (n.woken ≡ m.woken)
        × (n.is_shutdown ≡ m.is_shutdown)
        × (callers n ≡ callers m ++ (c ∷ []))
  unfolding answer_from
  answer-keeps [] c m = (refl, refl, refl, map-append (λ a. a.0) m.answers ((c, none) ∷ []))
  answer-keeps (t ∷ q) c m = (refl, refl, refl, map-append (λ a. a.0) m.answers ((c, some t) ∷ []))

  Reach-trans : {m n k : Monitor T} → Reach m n → Reach n k → Reach m k
  Reach-trans r here = r
  Reach-trans r (next s st) = next (Reach-trans r s) st

  record Released (cs : List Caller) (m n : Monitor T) : Type ℓ where
    reached : Reach m n
    waiters_stay : n.waiters ≡ m.waiters
    nobody_woken : n.woken ≡ []
    all_answered : callers n ≡ callers m ++ cs

  resume_all-Released :
      (cs : List Caller) (m : Monitor T)
      → m.is_shutdown ≡ true
      → m.woken ≡ cs
      → Released cs m (resume_all cs m)
  unfolding resume_all
  resume_all-Released [] m h e = record {
    reached = here;
    waiters_stay = refl;
    nobody_woken = e;
    all_answered = sym (append-nil (callers m));
  }
  resume_all-Released (c ∷ cs) m h e =
      let k : Monitor T = record m { woken = cs } in
      let n : Monitor T = resume c k in
      let step : Step m n = resumes m c cs (subst (λ l. Picks c l cs) (sym e) first) in
      let f : n ≡ answer c k = resume-shutdown c k h in
      let (w, o, i, a) = answer-keeps m.task_queue c k in
      let v : Released cs n (resume_all cs n) =
        resume_all-Released cs n (ap (λ x. x.is_shutdown) f ∙ i ∙ h) (ap (λ x. x.woken) f ∙ o) in
      record {
        reached = Reach-trans (next here step) v.reached;
        waiters_stay = v.waiters_stay ∙ ap (λ x. x.waiters) f ∙ w;
        nobody_woken = v.nobody_woken;
        all_answered =
            v.all_answered
            ∙ ap (λ x. callers x ++ cs) f
            ∙ ap (λ l. l ++ cs) a
            ∙ append_assoc (callers m) (c ∷ []) cs;
      }

  -- In every state that the threads reach from a pool that has just been made, once `shutdown` has
  -- been called: nobody is blocked in a wait, and the threads that are awake return from
  -- `getTask`, each once and with nobody blocking again, as they take the lock in turn.
  pub shutdown_releases :
      (m : Monitor T)
      → Reach fresh m
      → m.is_shutdown ≡ true
      → let n = resume_all m.woken m in
        (m.waiters ≡ [])
        × Reach m n
        × (n.waiters ≡ [])
        × (n.woken ≡ [])
        × (callers n ≡ callers m ++ m.woken)
  shutdown_releases m r h =
      let v = resume_all-Released m.woken m h refl in
      let q = Reach-Quiet r (λ e. refl) h in
      (q, v.reached, v.waiters_stay ∙ q, v.nobody_woken, v.all_answered)
