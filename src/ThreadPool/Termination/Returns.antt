-- ===== src/ThreadPool/Termination/Returns.antt =====
-- src/utils/CachedThreadPool.cpp: when `awaitTermination` returns.
use neo_group_captcha_bot.Common.{
  ◌≡◌, ◌⊎◌, inl, inr, refl, ap, sym, ◌∙◌, List, [], ◌∷◌, ◌++◌, Bool, true, false, ◌&&◌, map, All,
  Bool-cases, is_neg, is_empty, if◌then◌else◌, arith, length,
}
use neo_group_captcha_bot.ThreadPool.{
  ThreadPool, settle, returned, until_notified, up_to, await_termination,
}
use neo_group_captcha_bot.ThreadPool.Monitor.{Caller}
use neo_group_captcha_bot.ThreadPool.Monitor.Wakeup.{length-Picks}
use neo_group_captcha_bot.ThreadPool.Termination.{
  at_once, notified, unnotified, Return, Termination, opened, return_by, wait_by, await,
  release_all, settle_and_notify, Step, awaits, settles, ends, changes, Reach, here, next,
}

-- A call that returned before the end did so by a wait that ended with no notification.
abbrev pub InTime : Return → Type 0
InTime r = (r.was_terminated ≡ true) ⊎ (r.cause ≡ unnotified)

All-append : (xs ys : List Return) → All InTime xs → All InTime ys → All InTime (xs ++ ys)
All-append [] ys h k = k
All-append (x ∷ xs) ys h k = (h.0, All-append xs ys h.1 k)

module _ {ℓ} {T : Type ℓ} where
  record Sound (s : Termination T) : Type ℓ where
    in_time : All InTime s.returns
    no_sleeper : s.pool.is_terminated ≡ true → s.blocked ≡ []

  notified-InTime :
      (s : Termination T) (cs : List Caller)
      → s.pool.is_terminated ≡ true
      → All InTime (map (return_by notified s) cs)
  notified-InTime s [] h = tt
  notified-InTime s (c ∷ cs) h = (inl h, notified-InTime s cs h)

  blocks-Sound :
      (c : Caller) (s : Termination T)
      → s.pool.is_terminated ≡ false
      → Sound s
      → Sound (record s { blocked = s.blocked ++ (c ∷ []) })
  blocks-Sound c s e v = record {
    in_time = v.in_time;
    no_sleeper = λ h. absurd (ground (arith, e, h));
  }

  wait_by-Sound :
      (terminated forever : Bool) (c : Caller) (s : Termination T)
      → s.pool.is_terminated ≡ terminated
      → Sound s
      → Sound (
          wait_by
            (if terminated then returned else if forever then until_notified else up_to c.timeout)
            c
            s)
  unfolding wait_by
  wait_by-Sound true forever c s e v = record {
    in_time = All-append s.returns (return_by at_once s c ∷ []) v.in_time (inl e, tt);
    no_sleeper = v.no_sleeper;
  }
  wait_by-Sound false true c s e v = blocks-Sound c s e v
  wait_by-Sound false false c s e v = blocks-Sound c s e v

  await-Sound : (c : Caller) (s : Termination T) → Sound s → Sound (await c s)
  unfolding await await_termination
  await-Sound c s v = wait_by-Sound s.pool.is_terminated (is_neg c.timeout) c s refl v

  settle-Sound : (s : Termination T) → Sound s → Sound (settle_and_notify s)
  unfolding settle_and_notify settle release_all
  settle-Sound s v = elim (Bool-cases (s.pool.is_shutdown && is_empty s.pool.workers)) [
    | inl e ↦
        let q : ThreadPool T = record (s.pool) { is_terminated = true } in
        rw (e, if◌then◌else◌)
          (record {
            in_time =
                All-append s.returns (map (return_by notified (record s { pool = q })) s.blocked)
                  v.in_time (notified-InTime (record s { pool = q }) s.blocked refl);
            no_sleeper = λ h. refl;
          })
    | inr e ↦ rw (e, if◌then◌else◌) v
  ]

  Step-Sound : {s t : Termination T} → Step s t → Sound s → Sound t
  Step-Sound (awaits s c) v = await-Sound c s v
  Step-Sound (settles s) v = settle-Sound s v
  Step-Sound (ends s c cs p) v = record {
    in_time = All-append s.returns (return_by unnotified s c ∷ []) v.in_time (inr refl, tt);
    no_sleeper = λ h. absurd (omega (arith, ap length (v.no_sleeper h), length-Picks p));
  }
  Step-Sound (changes s q e) v = record {
    in_time = v.in_time;
    no_sleeper = λ h. v.no_sleeper (sym e ∙ h);
  }

  Reach-Sound : {s t : Termination T} → Reach s t → Sound s → Sound t
  Reach-Sound here v = v
  Reach-Sound (next r st) v = Step-Sound st (Reach-Sound r v)

  -- In every state that the threads reach from a pool that is not marked as terminated, with nobody
  -- in `awaitTermination`, in any order: whoever has returned from it found the pool marked as
  -- terminated, or its wait had ended with no notification (its time was over, or for no reason:
  -- the wait is in no loop); and the pool is not marked, or nobody is blocked.
  pub await-InTime :
      (p : ThreadPool T) (s : Termination T)
      → p.is_terminated ≡ false
      → Reach (opened p) s
      → All InTime s.returns × ((s.pool.is_terminated ≡ false) ⊎ (s.blocked ≡ []))
  await-InTime p s e r =
      let v = Reach-Sound r (record { in_time = tt; no_sleeper = λ h. refl }) in
      (
        v.in_time,
        elim (Bool-cases s.pool.is_terminated) [ inl h ↦ inr (v.no_sleeper h) | inr h ↦ inl h ],
      )
