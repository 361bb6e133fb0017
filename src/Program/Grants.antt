-- ===== src/Program/Grants.antt =====
-- src/core/startup.cpp and src/core/manager: what the calls of `main` and the tasks leave of the
-- authorization of each session.
pub mod Steps
use neo_group_captcha_bot.Common.{
  ℕ, ◌≡◌, ◌≢◌, refl, ap, sym, ◌∙◌, subst, ◌⊎◌, inl, inr, Bool, true, false, ◌&&◌, not, List, [],
  ◌∷◌, Option, none, some, ℤ, Bytes, All, int_eq, nat_eq, ◌==◌, if◌then◌else◌, Bool-cases, arith,
}
use neo_group_captcha_bot.UnorderedMap.{is_some}
use neo_group_captcha_bot.ConcurrentHashMap
use neo_group_captcha_bot.ConcurrentHashMap.Laws.{get-put}
use neo_group_captcha_bot.ThreadPool.{Spawn, created, failed}
use neo_group_captcha_bot.Td.{
  Function, TdLibParameters, Object, Response, ok, ready, update_authorization_state,
}
use neo_group_captcha_bot.State.{
  AuthState, authorized, Callback, bot_token_checked, Task, set_offline, ask_code, ask_password,
  ClientSession, World, new_session,
}
use neo_group_captcha_bot.Requests.{get_client_manager}
use neo_group_captcha_bot.Session.{
  execute, send_td_lib_parameters, log_in_with_bot_token, log_in_with_phone_number, log_in_send,
  log_in_mark,
}
use neo_group_captcha_bot.Session.Auth.{captured, run_callback, run_task}
use neo_group_captcha_bot.Session.Update.{Env, handle_update}
use neo_group_captcha_bot.Session.Trace.{
  grants, updates, called_back, logs_in_bot, logs_in_user, runs,
}
use neo_group_captcha_bot.Session.Trace.Authorized.{
  Moves, update-Moves, callback-Moves, act-Moves, task-Moves,
}
use neo_group_captcha_bot.Manager.{
  get_session, store_session, create_session, start_looper, with_manager, on_found, on_captured,
  call_back, answer_request, deliver, dispatch_object, dispatch_response,
}
use neo_group_captcha_bot.Manager.Frame.{
  Keeps, Keeps-refl, execute-Keeps, parameters-Keeps, handle_update-Keeps,
}
use neo_group_captcha_bot.Manager.Dispatch.{get_session-store_session}
use neo_group_captcha_bot.Manager.Routing.{same_sessions}
use neo_group_captcha_bot.Program.{
  Event, creates, asks_option, sets_handler, dispatches, on_session, set_message_handler, step, run,
}
use neo_group_captcha_bot.Program

-- There is such a session, and it is authorized.
abbrev pub Authorized : World → ℤ → Type 0
Authorized w id = (s : ClientSession) × (get_session w id ≡ some s) × (s.auth_state ≡ authorized)

-- What lets a session in: the state `ready`, and the result `ok` of a request.
abbrev pub lets_in : Option Object → Bool
lets_in (some (update_authorization_state (some ready))) = true
lets_in (some ok) = true
lets_in _ = false

abbrev pub IsQuiet : Event → Type 0
IsQuiet (dispatches env response) = lets_in response.object ≡ false
IsQuiet _ = Unit

some_injective {ℓ} : {A : Type ℓ} {a b : A} → some a ≡ some b → a ≡ b
some_injective e = cc

pub same-Authorized :
    (w w' : World) (id : ℤ)
    → w'.manager.client_sessions ≡ w.manager.client_sessions
    → Authorized w' id
    → Authorized w id
same-Authorized w w' id e (s, f, a) = (s, sym (same_sessions w w' id e) ∙ f, a)

-- A session that is stored is no more authorized than the one it replaces.
pub store-Authorized :
    (w w' : World) (i id : ℤ) (s s' : ClientSession)
    → w'.manager.client_sessions ≡ w.manager.client_sessions
    → get_session w i ≡ some s
    → (s'.auth_state ≡ authorized → s.auth_state ≡ authorized)
    → Authorized (store_session w' i s') id
    → Authorized w id
store-Authorized w w' i id s s' e f no_more (t, g, a) =
    let found = get_session-store_session w' i id s' in
    elim (Bool-cases (is_some (get_session w' i) && int_eq.beq i id)) [
      | inl c ↦
          let here : i ≡ id = ground (arith, c, int_eq.beq_iff i id) in
          let new : get_session (store_session w' i s') id ≡ some s' = rw c at found in
          let same : s' ≡ t = some_injective (sym new ∙ g) in
          (
            s,
            subst (λ j. get_session w j ≡ some s) here f,
            no_more (ap (λ (x : ClientSession). x.auth_state) same ∙ a),
          )
      | inr c ↦
          let kept : get_session (store_session w' i s') id ≡ get_session w' id = rw c at found in
          let old : get_session w' id ≡ some t = sym kept ∙ g in
          same-Authorized w w' id e (t, old, a)
    ]

-- A call of a method on a session.
pub on_session-Authorized :
    (w : World) (i id : ℤ) (f : ClientSession → World → ClientSession × World)
    (o : Option ClientSession)
    → get_session w i ≡ o
    → ((s : ClientSession) → (f s w).1.manager.client_sessions ≡ w.manager.client_sessions)
    → ((s : ClientSession) → (f s w).0.auth_state ≡ authorized → s.auth_state ≡ authorized)
    → Authorized (on_session o i f w) id
    → Authorized w id
unfolding on_session
on_session-Authorized w i id f none e keeps no_more a = a
on_session-Authorized w i id f (some s) e keeps no_more a =
    store-Authorized w (f s w).1 i id s (f s w).0 (keeps s) e (no_more s) a

create-sessions :
    (w : World) (i : ℤ) (parameters : TdLibParameters) (spawn : Spawn)
    → (create_session w i parameters spawn).0.manager.client_sessions
      ≡ ConcurrentHashMap.put w.manager.client_sessions i (new_session i parameters)
unfolding create_session get_client_manager
create-sessions w i parameters (created t) = ground arith
create-sessions w i parameters (failed rc) = ground arith

new_session-auth_state :
    (i : ℤ) (parameters : TdLibParameters) → (new_session i parameters).auth_state ≢ authorized
unfolding new_session
new_session-auth_state i parameters h = ground (arith, h)

pub create-Authorized :
    (w : World) (i id : ℤ) (parameters : TdLibParameters) (spawn : Spawn)
    → Authorized (create_session w i parameters spawn).0 id
    → Authorized w id
unfolding get_session
create-Authorized w i id parameters spawn (s, e, a) =
    let fresh = new_session i parameters in
    let found = get-put w.manager.client_sessions i id fresh in
    let all : ConcurrentHashMap.get (ConcurrentHashMap.put w.manager.client_sessions i fresh) id
        ≡ some s =
      ap (λ m. ConcurrentHashMap.get m id) (sym (create-sessions w i parameters spawn)) ∙ e in
    elim (Bool-cases (int_eq.beq i id)) [
      | inl c ↦
          let here : ConcurrentHashMap.get (ConcurrentHashMap.put w.manager.client_sessions i fresh)
                id
              ≡ some fresh =
            rw c at found in
          let same : fresh ≡ s = some_injective (sym here ∙ all) in
          absurd (
            new_session-auth_state i parameters (ap (λ (x : ClientSession). x.auth_state) same ∙ a))
      | inr c ↦
          let kept : ConcurrentHashMap.get (ConcurrentHashMap.put w.manager.client_sessions i fresh)
                id
              ≡ ConcurrentHashMap.get w.manager.client_sessions id =
            rw c at found in
          (s, sym kept ∙ all, a)
    ]

pub execute-sessions :
    (w : World) (id : ℤ) (request : Function) (callback : Option Callback)
    → (execute w id request callback).manager.client_sessions ≡ w.manager.client_sessions
execute-sessions w id request callback = (execute-Keeps w id request callback).sessions

parameters-sessions :
    (s : ClientSession) (w : World)
    → (send_td_lib_parameters s w).manager.client_sessions ≡ w.manager.client_sessions
parameters-sessions s w = (parameters-Keeps s w).sessions

pub bot-sessions :
    (s : ClientSession) (w : World) (token : Bytes)
    → (log_in_with_bot_token s w token).1.manager.client_sessions ≡ w.manager.client_sessions
unfolding log_in_with_bot_token log_in_send log_in_mark
bot-sessions s w token = grind (arith, execute-sessions)

pub user-sessions :
    (s : ClientSession) (w : World) (phone : Bytes)
    → (log_in_with_phone_number s w phone).1.manager.client_sessions ≡ w.manager.client_sessions
unfolding log_in_with_phone_number
user-sessions s w phone = grind (arith, execute-sessions, parameters-sessions)

pub task-sessions :
    (task : Task) (line : Bytes) (s : ClientSession) (w : World)
    → (run_task task line s w).1.manager.client_sessions ≡ w.manager.client_sessions
unfolding run_task
task-sessions (set_offline i) line s w = (execute-Keeps w _ _ _).sessions
task-sessions (ask_code i) line s w = grind (arith, execute-sessions)
task-sessions (ask_password i) line s w = grind (arith, execute-sessions)
