-- ===== src/ThreadPool/System/Shutdown.antt =====
-- src/utils/CachedThreadPool.cpp: `shutdown`, `onWorkerExit` and `awaitTermination`.
use neo_group_captcha_bot.Common.{ℕ, ◌≡◌, refl, true, false, List, [], ◌∷◌, some}
use neo_group_captcha_bot.ThreadPool.{
  Phase, Worker, ThreadPool, Spawn, throws, execute, shutdown, erase_worker,
}
use neo_group_captcha_bot.ThreadPool.System.{System, set_phase}

module _ {ℓ} {T : Type ℓ} where
  -- After `shutdown` a task that is not null is refused by an exception, and the pool is as it was.
  pub execute_refuses :
      (p : ThreadPool T) (t : T) (spawn : Spawn)
      → execute (shutdown p) (some t) spawn ≡ (shutdown p, throws)
  unfolding execute shutdown
  execute_refuses p t spawn = refl

  pub set_phase-nil :
      (i : ℕ) (ph : Phase T) (ws : List (Worker T)) → ws ≡ [] → set_phase i ph ws ≡ []
  unfolding set_phase
  set_phase-nil i ph [] h = refl
  set_phase-nil i ph (x ∷ xs) h = cc

  pub erase_worker-nil : (i : ℕ) (ws : List (Worker T)) → ws ≡ [] → erase_worker i ws ≡ []
  unfolding erase_worker
  erase_worker-nil i [] h = refl
  erase_worker-nil i (x ∷ xs) h = cc

  -- Shut down with no worker left to notify anybody, and no call of `execute` under way.
  pub record Stuck (s : System T) : Type ℓ where
    pub ended : s.pool.is_shutdown ≡ true
    pub unmarked : s.pool.is_terminated ≡ false
    pub no_worker : s.pool.workers ≡ []
    pub none_exiting : s.exiting ≡ 0
    pub no_calls : s.calls ≡ []
