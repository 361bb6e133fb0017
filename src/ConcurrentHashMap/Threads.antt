-- ===== src/ConcurrentHashMap/Threads.antt =====
-- src/utils/ConcurrentHashMap.h: the order in which two threads take the mutex.
use neo_group_captcha_bot.Common.{
  ◌≡◌, ◌≢◌, ◌∙◌, sym, true, false, Option, none, some, Eq, arith, inl, inr, Bool-cases, beq_ne,
}
use neo_group_captcha_bot.ConcurrentHashMap.{
  ConcurrentHashMap, Call, puts_if_absent, flag, get, step, key,
}
use neo_group_captcha_bot.ConcurrentHashMap.Laws.{
  IsWf, effect, step-IsWf, get-step, step-reply, effect_other, effect_same, reply_same,
}

module _ {ℓ} {K V : Type ℓ} ⦃e : Eq K⦄ where
  get-step_other :
      (a b : Call K V) (m : ConcurrentHashMap K V)
      → IsWf m
      → key a ≢ key b
      → get (step a m).0 (key b) ≡ get m (key b)
  get-step_other a b m w h =
      get-step a m (key b) w ∙ effect_other a (λ i. get m i) (key b) (beq_ne (key a) (key b) h)

  effect_commute :
      (a b : Call K V) (f : K → Option V) (j : K)
      → key a ≢ key b
      → effect b (effect a f) j ≡ effect a (effect b f) j
  effect_commute a b f j h = elim (Bool-cases (e.beq (key a) j)) [
    | inl p ↦
        let q : e.beq (key b) j ≡ false =
          beq_ne (key b) j (λ r. h ((e.beq_iff (key a) j).0 p ∙ sym r)) in
        effect_other b (effect a f) j q
        ∙ effect_same a f (effect b f) j (sym (effect_other b f j q))
    | inr p ↦
        effect_same b (effect a f) f j (effect_other a f j p)
        ∙ sym (effect_other a (effect b f) j p)
  ]

  -- Calls of two threads on different keys may take the mutex in either order: the map then holds
  -- the same values, and each call has the answer that it has when it runs first.
  pub step_commute :
      (a b : Call K V) (m : ConcurrentHashMap K V) (j : K)
      → IsWf m
      → key a ≢ key b
      → (get (step b (step a m).0).0 j ≡ get (step a (step b m).0).0 j)
        × ((step b (step a m).0).1 ≡ (step b m).1)
        × ((step a (step b m).0).1 ≡ (step a m).1)
  step_commute a b m j w h = (
    get-step b (step a m).0 j (step-IsWf a m w)
        ∙ effect_same b (λ i. get (step a m).0 i) (effect a (λ i. get m i)) j (get-step a m j w)
        ∙ effect_commute a b (λ i. get m i) j h
        ∙ sym
            (effect_same a (λ i. get (step b m).0 i) (effect b (λ i. get m i)) j (get-step b m j w))
        ∙ sym (get-step a (step b m).0 j (step-IsWf b m w)),
    step-reply b (step a m).0
        ∙ reply_same b (λ i. get (step a m).0 i) (λ i. get m i) (get-step_other a b m w h)
        ∙ sym (step-reply b m),
    step-reply a (step b m).0
        ∙ reply_same a (λ i. get (step b m).0 i) (λ i. get m i)
            (get-step_other b a m w (λ r. h (sym r)))
        ∙ sym (step-reply a m),
  )

  -- Of two threads that both put a key that is absent, the one that takes the mutex first is told
  -- that its value went in, the other that it did not, and the first value stays.
  pub put_if_absent_once :
      (m : ConcurrentHashMap K V) (k : K) (v w : V)
      → IsWf m
      → get m k ≡ none
      → let (m1, a) = step (puts_if_absent k v) m in
        let (m2, b) = step (puts_if_absent k w) m1 in
        (a ≡ flag true) × (b ≡ flag false) × (get m2 k ≡ some v)
  put_if_absent_once m k v w h absent =
      let first = puts_if_absent k v in
      let second = puts_if_absent k w in
      let one = get-step first m k h in
      let two = get-step second (step first m).0 k (step-IsWf first m h) in
      let a = step-reply first m in
      let b = step-reply second (step first m).0 in ground (arith, e.beq_iff k k, one, two, a, b)
