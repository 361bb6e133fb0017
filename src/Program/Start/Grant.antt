-- ===== src/Program/Start/Grant.antt =====
-- src/core/startup.cpp: `main` and the authorization of the bot.
use neo_group_captcha_bot.Common.{
  ℕ, zero, suc, ◌≡◌, ◌≢◌, ap, sym, ◌∙◌, inl, inr, Bool, true, false, List, [], ◌∷◌, ℤ, All,
  Option-cases, arith,
}
use neo_group_captcha_bot.Td.{TdLibParameters}
use neo_group_captcha_bot.State.{AuthState, authorized, ClientSession, World}
use neo_group_captcha_bot.Session.{is_authorized}
use neo_group_captcha_bot.Manager.{get_session}
use neo_group_captcha_bot.Program.{Event, run}
use neo_group_captcha_bot.Program.Arguments.{Settings}
use neo_group_captcha_bot.Program.Grants.{Authorized, IsQuiet}
use neo_group_captcha_bot.Program.Grants.Steps.{step-Authorized, run-Authorized}
use neo_group_captcha_bot.Program.Start.{
  Surroundings, authorized_in, Main, returns_error, waits, terminates, start_bot, main,
}
use neo_group_captcha_bot.Program.Start.Wait.{after_seconds, bot_started, main_lem}

-- The other threads let no session in before the wait ends.
abbrev pub IsUnanswered : Surroundings → Type 0
IsUnanswered around =
    All IsQuiet around.after_creation
    × All IsQuiet around.after_option
    × All IsQuiet around.after_log_in
    × All IsQuiet around.after_handler
    × All (All IsQuiet) around.seconds

only_authorized :
    (a : AuthState) → (elim a [ authorized ↦ true | _ ↦ false ]) ≡ true → a ≡ authorized
only_authorized a h = ground (arith, h)

is_authorized_lem : (s : ClientSession) → is_authorized s ≡ true → s.auth_state ≡ authorized
is_authorized_lem s h = only_authorized s.auth_state h

authorized_in-Authorized : (w : World) (id : ℤ) → authorized_in w id ≡ true → Authorized w id
authorized_in-Authorized w id h = elim (Option-cases (get_session w id)) [
  | inl e ↦ absurd (ground (arith, h, e))
  | inr (s, e) ↦ (s, e, ground (arith, h, e, is_authorized_lem s))
]

seconds-Authorized :
    (k : ℕ) (w : World) (seconds : List (List Event)) (id : ℤ)
    → All (All IsQuiet) seconds
    → Authorized (after_seconds k w seconds) id
    → Authorized w id
seconds-Authorized zero w seconds id q a = a
seconds-Authorized (suc k) w [] id q a = seconds-Authorized k w [] id q a
seconds-Authorized (suc k) w (events ∷ rest) id (q, qs) a =
    run-Authorized w events id q (seconds-Authorized k (run w events) rest id qs a)

start-Authorized :
    (w : World) (around : Surroundings) (settings : Settings) (parameters : TdLibParameters)
    (id : ℤ)
    → IsUnanswered around
    → Authorized (start_bot w around settings parameters) id
    → Authorized w id
unfolding start_bot
start-Authorized w around settings parameters id (q1, q2, q3, q4, _) a = step-Authorized w _ id tt (
    run-Authorized _ _ id q1 (
      step-Authorized _ _ id tt (
        run-Authorized _ _ id q2 (
          step-Authorized _ _ id tt
            (run-Authorized _ _ id q3 (step-Authorized _ _ id tt (run-Authorized _ _ id q4 a)))))))

abbrev is_failure : Main → Bool
is_failure (returns_error w) = true
is_failure (waits w) = false
is_failure (terminates w) = true

error_not_waits : {v w : World} → returns_error v ≢ waits w
error_not_waits e = ground (arith, ap is_failure e)

exception_not_waits : {v w : World} → terminates v ≢ waits w
exception_not_waits e = ground (arith, ap is_failure e)

-- Whatever the server sends but the state `ready` and results `ok`, in whatever order and between
-- whichever calls of `main`: `main` does not come to the log-in of the user, if the bot's session was not
-- authorized before.
pub main_needs_grant :
    (w : World) (defaults : TdLibParameters) (around : Surroundings) (settings : Settings)
    (last : World)
    → (Authorized w around.bot_id → ⊥)
    → IsUnanswered around
    → main w defaults around settings ≢ waits last
main_needs_grant w defaults around settings last h q e =
    elim (main_lem w defaults around settings) [
      | inl (_, d) ↦ error_not_waits (sym d ∙ e)
      | inr (inl (_, d)) ↦ exception_not_waits (sym d ∙ e)
      | inr (inr (inl (k, _, there, _, _))) ↦
          let start = bot_started w defaults around settings in
          let let_in =
            authorized_in-Authorized (after_seconds k start around.seconds) around.bot_id there in
          h (
            start-Authorized w around settings _ around.bot_id q
              (seconds-Authorized k start around.seconds around.bot_id (q.4) let_in))
      | inr (inr (inr (_, d))) ↦ error_not_waits (sym d ∙ e)
    ]
