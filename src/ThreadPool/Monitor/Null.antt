-- ===== src/ThreadPool/Monitor/Null.antt =====
-- src/utils/CachedThreadPool.cpp: when `getTask` returns null.
use neo_group_captcha_bot.Common.{
  ◌≡◌, refl, List, [], ◌∷◌, ◌++◌, Bool, true, false, not, ◌&&◌, Option, none, some, is_neg,
  is_empty, int_beq, pos, if◌then◌else◌, arith,
}
use neo_group_captcha_bot.ThreadPool.Monitor.{
  Caller, Monitor, fresh, must_wait, answer_from, answer, block, resume, shut_down, Step, enters,
  enqueues, notifies, wakes, resumes, shuts_down, Reach, here, next,
}
use neo_group_captcha_bot.ThreadPool.Monitor.Wakeup.{enter-if}
use neo_group_captcha_bot.ThreadPool.Monitor.Refinement.{zero_not_neg}

module _ {ℓ} {T : Type ℓ} where
  -- A caller with no limit that got null.
  abbrev pub GaveUp : Caller × Option T → Type ℓ
  GaveUp a = (is_neg (a.0).timeout ≡ true) × (a.1 ≡ none)

  abbrev pub Told : Bool → List (Caller × Option T) → Type ℓ
  Told b [] = Unit
  Told b (a ∷ l) = (GaveUp a → b ≡ true) × Told b l

  Told-append :
      (b : Bool) (l : List (Caller × Option T)) (a : Caller × Option T)
      → (GaveUp a → b ≡ true)
      → Told b l
      → Told b (l ++ (a ∷ []))
  Told-append b [] a f h = (f, tt)
  Told-append b (x ∷ l) a f h = (h.0, Told-append b l a f h.1)

  Told-shutdown : (l : List (Caller × Option T)) → Told true l
  Told-shutdown [] = tt
  Told-shutdown (a ∷ l) = (λ g. refl, Told-shutdown l)

  abbrev pub Honest : Monitor T → Type ℓ
  Honest m = Told m.is_shutdown m.answers

  answer-Honest :
      (q : List T) (c : Caller) (m : Monitor T)
      → (is_neg c.timeout ≡ true → q ≡ [] → m.is_shutdown ≡ true)
      → Honest m
      → Honest (answer_from q c m)
  unfolding answer_from
  answer-Honest [] c m f h = Told-append m.is_shutdown m.answers (c, none) (λ g. f g.0 refl) h
  answer-Honest (t ∷ q) c m f h = Told-append m.is_shutdown m.answers (c, some t) (λ g. cc) h

  passes :
      (c : Caller) (m : Monitor T)
      → (is_neg c.timeout && must_wait m) ≡ false
      → is_neg c.timeout ≡ true
      → m.task_queue ≡ []
      → m.is_shutdown ≡ true
  unfolding must_wait
  passes c m h n e = go m.task_queue h e
    where
      go :
          (q : List T)
          → (is_neg c.timeout && (is_empty q && not m.is_shutdown)) ≡ false
          → q ≡ []
          → m.is_shutdown ≡ true
      go [] h e = ground arith
      go (t ∷ q) h e = cc

  decide-Honest :
      (b : Bool) (c : Caller) (m : Monitor T)
      → (b ≡ false → (is_neg c.timeout && must_wait m) ≡ false)
      → Honest m
      → Honest (if b then block c m else answer c m)
  decide-Honest true c m f h = h
  decide-Honest false c m f h = answer-Honest m.task_queue c m (passes c m (f refl)) h

  Step-Honest : {m n : Monitor T} → Step m n → Honest m → Honest n
  Step-Honest (enters m c) h = rw (enter-if c m) (
      decide-Honest (not (int_beq c.timeout (pos 0)) && must_wait m) c m
        (λ d. ground (arith, zero_not_neg c.timeout)) h)
  Step-Honest (enqueues m task e) h = h
  Step-Honest (notifies m task c cs p) h = h
  Step-Honest (wakes m c cs p) h = h
  Step-Honest (resumes m c cs p) h =
      unfold resume in
      decide-Honest (is_neg c.timeout && must_wait m) c (record m { woken = cs }) (λ d. d) h
  Step-Honest (shuts_down m) h = unfold shut_down in Told-shutdown m.answers

  Reach-Honest : {m n : Monitor T} → Reach m n → Honest m → Honest n
  Reach-Honest here h = h
  Reach-Honest (next r s) h = Step-Honest s (Reach-Honest r h)

  Told-before :
      (b : Bool) (l k : List (Caller × Option T)) (a : Caller × Option T)
      → Told b (l ++ (a ∷ k))
      → GaveUp a
      → b ≡ true
  Told-before b [] k a h = h.0
  Told-before b (x ∷ l) k a h = Told-before b l k a h.1

  -- A thread that waits with no limit gets null only after `shutdown`: in every state that the
  -- threads reach from a pool that has just been made, if such a caller has returned with null,
  -- the pool is shut down.
  pub null_after_shutdown :
      (m : Monitor T) (c : Caller) (l k : List (Caller × Option T))
      → Reach fresh m
      → m.answers ≡ l ++ ((c, none) ∷ k)
      → is_neg c.timeout ≡ true
      → m.is_shutdown ≡ true
  null_after_shutdown m c l k r e n =
      let v : Honest m = Reach-Honest r tt in
      let h : Told m.is_shutdown (l ++ ((c, none) ∷ k)) = rw e at v in
      Told-before m.is_shutdown l k (c, none) h (n, refl)
