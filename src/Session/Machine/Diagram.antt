-- ===== src/Session/Machine/Diagram.antt =====
-- src/core/manager/ClientSession.cpp: the calls of a session against the diagram of its states.
use neo_group_captcha_bot.Common.{
  ◌≡◌, ◌≢◌, ◌⊎◌, ap, sym, subst, inl, inr, Bool-cases, ◌==◌, true, false, none, some, List, [], ◌∷◌,
  map, is_empty, if◌then◌else◌, arith, Bytes,
}
use neo_group_captcha_bot.Td.{
  Object, error, ok, update_authorization_state, update_option, update_user, update_new_message,
  update_logged, other_object, wait_tdlib_parameters, wait_encryption_key, wait_phone_number,
  wait_code, wait_password, ready, other_state,
}
use neo_group_captcha_bot.State.{
  AuthState, initialization, wait_token, wait_response, Callback, log_if_response_error,
  bot_token_checked, phone_number_set, online_set, code_checked, password_checked, text_sent, Task,
  set_offline, ask_code, ask_password, ClientSession, World,
}
use neo_group_captcha_bot.Session.{
  log_in_with_bot_token, log_in_with_phone_number, log_in_send, log_in_mark, wants_token,
}
use neo_group_captcha_bot.Session.Auth.{
  checked, run_callback, run_task, handle_update_authorization_state, on_wait_phone_number,
  is_space, remove_if,
}
use neo_group_captcha_bot.Session.Update.{Env, handle_update, handle_update_user}
use neo_group_captcha_bot.Session.Trace.{
  Action, updates, called_back, logs_in_bot, logs_in_user, runs, act, live,
}
use neo_group_captcha_bot.Session.Trace.Authorized.{option-auth_state, message-session}
use neo_group_captcha_bot.Session.Machine.{
  Label, phone_asked, tried, other, label, judged, Edge, rests, no_credentials, credentials_sent,
  asked_again, asked_code, asked_password, let_in, goes_on, turned_away, starts_over, tries_again,
  not_yet, Way, here, further,
}

at : {l : Label} {x y z : AuthState} → z ≡ y → Edge l x y → Edge l x z
at {l} {x} e d = subst (Edge l x) (sym e) d

rests_at : {x y : AuthState} → y ≡ x → Edge other x y
rests_at {x} e = at e (rests x)

phone-cases :
    (s : ClientSession) (w : World)
    → let x = s.auth_state in
      let y = (on_wait_phone_number s w).session.auth_state in
      ((x ≡ initialization) × (y ≡ initialization))
      ⊎ ((x ≡ initialization) × (y ≡ wait_response))
      ⊎ ((x ≢ initialization) × (y ≡ wait_token))
unfolding on_wait_phone_number
phone-cases s w = ground arith

phone-Edge :
    (s : ClientSession) (w : World)
    → Edge phone_asked s.auth_state (on_wait_phone_number s w).session.auth_state
phone-Edge s w = elim (phone-cases s w) [
  | inl (a, b) ↦ at b (subst (λ z. Edge phone_asked z initialization) (sym a) no_credentials)
  | inr (inl (a, b)) ↦ at b (subst (λ z. Edge phone_asked z wait_response) (sym a) credentials_sent)
  | inr (inr (a, b)) ↦ at b (asked_again s.auth_state a)
]

update-Edge :
    (env : Env) (o : Object) (s : ClientSession) (w : World)
    → Edge (label (updates env o)) s.auth_state (handle_update s w env (some o)).session.auth_state
unfolding handle_update label handle_update_authorization_state
update-Edge env (update_authorization_state none) s w = rests _
update-Edge env (update_authorization_state (some wait_tdlib_parameters)) s w = rests _
update-Edge env (update_authorization_state (some wait_encryption_key)) s w = rests _
update-Edge env (update_authorization_state (some wait_phone_number)) s w = phone-Edge s w
update-Edge env (update_authorization_state (some ready)) s w =
    at (ground arith) (let_in s.auth_state)
update-Edge env (update_authorization_state (some wait_code)) s w =
    at (ground arith) (asked_code s.auth_state)
update-Edge env (update_authorization_state (some wait_password)) s w =
    at (ground arith) (asked_password s.auth_state)
update-Edge env (update_authorization_state (some (other_state type))) s w = rests _
update-Edge env (update_option name value) s w = rests_at (option-auth_state s env name value)
update-Edge env (update_user none) s w = unfold handle_update_user in rests _
update-Edge env (update_user (some user)) s w = unfold handle_update_user in rests _
update-Edge env (update_new_message m) s w =
    rests_at (ap (λ (t : ClientSession). t.auth_state) (message-session s w m))
update-Edge env (update_logged kind) s w = rests _
update-Edge env (error code m) s w = rests _
update-Edge env ok s w = rests _
update-Edge env (other_object id) s w = rests _

judged-Edge :
    {good : Label} {x y : AuthState} (result : Object)
    → Edge good x y
    → Edge (judged result good) x (checked result y)
judged-Edge (error code m) e = turned_away _
judged-Edge ok e = e
judged-Edge (update_authorization_state state) e = turned_away _
judged-Edge (update_option name value) e = turned_away _
judged-Edge (update_user user) e = turned_away _
judged-Edge (update_new_message m) e = turned_away _
judged-Edge (update_logged kind) e = turned_away _
judged-Edge (other_object id) e = turned_away _

callback-Edge :
    (callback : Callback) (result : Object) (s : ClientSession)
    → Edge
        (label (called_back callback result))
        s.auth_state
        (run_callback callback result s).auth_state
unfolding run_callback label
callback-Edge log_if_response_error result s = rests _
callback-Edge phone_number_set result s = rests _
callback-Edge online_set result s = rests _
callback-Edge text_sent result s = rests _
callback-Edge (bot_token_checked id) result s = judged-Edge result (let_in s.auth_state)
callback-Edge (code_checked id) result s = judged-Edge result (goes_on s.auth_state)
callback-Edge (password_checked id) result s = judged-Edge result (goes_on s.auth_state)

task-Edge :
    (task : Task) (line : Bytes) (s : ClientSession) (w : World)
    → Edge (label (runs task line)) s.auth_state (run_task task line s w).0.auth_state
unfolding run_task label
task-Edge (set_offline id) line s w = rests _
task-Edge (ask_code id) line s w =
    elim (Bool-cases (is_empty (remove_if (λ c. c == 10) (remove_if is_space line)))) [
      | inl e ↦ rw (e, if◌then◌else◌) (starts_over s.auth_state)
      | inr e ↦ rw (e, if◌then◌else◌) (rests s.auth_state)
    ]
task-Edge (ask_password id) line s w =
    elim (Bool-cases (is_empty (remove_if (λ c. c == 10) line))) [
      | inl e ↦ rw (e, if◌then◌else◌) (starts_over s.auth_state)
      | inr e ↦ rw (e, if◌then◌else◌) (rests s.auth_state)
    ]

-- What a log-in with the given credentials may do to the state.
log_in-Edge :
    (credentials : Bytes) (x y : AuthState)
    → (is_empty credentials ≡ true → y ≡ x)
    → (wants_token x ≡ true → is_empty credentials ≡ false → y ≡ wait_response)
    → (wants_token x ≡ false → y ≡ x)
    → Edge (if is_empty credentials then other else tried) x y
log_in-Edge credentials x y f g h = elim (Bool-cases (is_empty credentials)) [
  | inl e ↦ rw (e, if◌then◌else◌) (rests_at (f e))
  | inr e ↦ elim (Bool-cases (wants_token x)) [
    | inl t ↦ rw (e, if◌then◌else◌) (at (g t e) (tries_again x t))
    | inr t ↦ rw (e, if◌then◌else◌) (at (h t) (not_yet x t))
  ]
]

bot-Edge :
    (token : Bytes) (s : ClientSession) (w : World)
    → Edge (label (logs_in_bot token)) s.auth_state (log_in_with_bot_token s w token).0.auth_state
unfolding label log_in_with_bot_token log_in_send log_in_mark
bot-Edge token s w =
    log_in-Edge token _ _ (λ e. ground arith) (λ t e. ground arith) (λ t. ground arith)

user-Edge :
    (phone : Bytes) (s : ClientSession) (w : World)
    → Edge
        (label (logs_in_user phone))
        s.auth_state
        (log_in_with_phone_number s w phone).0.auth_state
unfolding label log_in_with_phone_number
user-Edge phone s w =
    log_in-Edge phone _ _ (λ e. ground arith) (λ t e. ground arith) (λ t. ground arith)

-- Every call of a session moves its state along an edge of the diagram that carries the call's
-- label.
act-Edge :
    (a : Action) (s : ClientSession) (w : World)
    → Edge (label a) s.auth_state (act a s w).0.auth_state
unfolding act
act-Edge (updates env o) s w = update-Edge env o s w
act-Edge (called_back callback result) s w = callback-Edge callback result s
act-Edge (logs_in_bot token) s w = bot-Edge token s w
act-Edge (logs_in_user phone) s w = user-Edge phone s w
act-Edge (runs task line) s w = task-Edge task line s w

-- Any sequence of calls takes the state of a session along a way through the diagram with the
-- labels of the calls.
pub live-Way :
    (calls : List Action) (s : ClientSession) (w : World)
    → Way s.auth_state (map label calls) (live s w calls).0.auth_state
unfolding live
live-Way [] s w = here s.auth_state
live-Way (a ∷ rest) s w = further (act-Edge a s w) (live-Way rest (act a s w).0 (act a s w).1)
