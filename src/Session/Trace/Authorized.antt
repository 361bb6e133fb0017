-- ===== src/Session/Trace/Authorized.antt =====
-- src/core/manager/ClientSession.cpp: when a session is authorized.
use neo_group_captcha_bot.Common.{
  ◌≡◌, ◌≢◌, refl, ap, ◌⊎◌, inl, inr, true, false, List, [], ◌∷◌, none, some, Bytes, arith,
}
use neo_group_captcha_bot.Td.{
  Object, error, ok, update_authorization_state, update_option, update_user, update_new_message,
  update_logged, other_object,
}
use neo_group_captcha_bot.State.{
  AuthState, authorized, closed, Callback, log_if_response_error, bot_token_checked,
  phone_number_set, online_set, code_checked, password_checked, text_sent, Task, set_offline,
  ask_code, ask_password, ClientSession, World,
}
use neo_group_captcha_bot.Session.{
  log_in_with_bot_token, log_in_with_phone_number, log_in_send, log_in_mark,
}
use neo_group_captcha_bot.Session.Auth.{
  run_callback, run_task, handle_update_authorization_state, on_wait_phone_number,
}
use neo_group_captcha_bot.Session.Options.{handle_update_option}
use neo_group_captcha_bot.Session.Update.{
  Env, handle_update, handle_update_user, handle_update_new_message,
}
use neo_group_captcha_bot.Session.Trace.{
  Action, updates, called_back, logs_in_bot, logs_in_user, runs, act, live, grants, asks, any,
}

-- The state after a step is authorized, as it was or by a grant; a session that is authorized and
-- is asked for nothing stays so; and no step closes it.
pub record Moves (a : Action) (before after : AuthState) : Type 0 where
  pub earned : after ≡ authorized → (before ≡ authorized) ⊎ (grants a ≡ true)
  pub kept : before ≡ authorized → (asks a ≡ true) ⊎ (after ≡ authorized)
  pub open_still : before ≢ closed → after ≢ closed

stays : (a : Action) {x y : AuthState} → y ≡ x → Moves a x y
stays a e = record { earned = λ h. inl (cc); kept = λ h. inr (cc); open_still = λ h k. h (cc) }

pub option-auth_state :
    (s : ClientSession) (env : Env) (name : Bytes) (value : _)
    → (handle_update_option s env.now name value).0.auth_state ≡ s.auth_state
unfolding handle_update_option
option-auth_state s env name value = ground arith

pub message-session :
    (s : ClientSession) (w : World) (m : _) → (handle_update_new_message s w m).session ≡ s
unfolding handle_update_new_message
message-session s w m = ground arith

pub update-Moves :
    (env : Env) (o : Object) (s : ClientSession) (w : World)
    → Moves (updates env o) s.auth_state (handle_update s w env (some o)).session.auth_state
unfolding handle_update
update-Moves env (update_authorization_state state) s w =
    unfold handle_update_authorization_state on_wait_phone_number in ground arith
update-Moves env (update_option name value) s w = stays _ (option-auth_state s env name value)
update-Moves env (update_user none) s w = unfold handle_update_user in stays _ refl
update-Moves env (update_user (some user)) s w = unfold handle_update_user in stays _ refl
update-Moves env (update_new_message m) s w =
    stays _ (ap (λ (t : ClientSession). t.auth_state) (message-session s w m))
update-Moves env (update_logged kind) s w = stays _ refl
update-Moves env (error code m) s w = stays _ refl
update-Moves env ok s w = stays _ refl
update-Moves env (other_object id) s w = stays _ refl

pub callback-Moves :
    (callback : Callback) (result : Object) (s : ClientSession)
    → Moves (called_back callback result) s.auth_state (run_callback callback result s).auth_state
unfolding run_callback
callback-Moves (bot_token_checked id) result s = ground arith
callback-Moves (code_checked id) result s = ground arith
callback-Moves (password_checked id) result s = ground arith
callback-Moves log_if_response_error result s = stays _ refl
callback-Moves phone_number_set result s = stays _ refl
callback-Moves online_set result s = stays _ refl
callback-Moves text_sent result s = stays _ refl

pub task-Moves :
    (task : Task) (line : Bytes) (s : ClientSession) (w : World)
    → Moves (runs task line) s.auth_state (run_task task line s w).0.auth_state
unfolding run_task
task-Moves (set_offline id) line s w = stays _ refl
task-Moves (ask_code id) line s w = ground arith
task-Moves (ask_password id) line s w = ground arith

pub act-Moves :
    (a : Action) (s : ClientSession) (w : World) → Moves a s.auth_state (act a s w).0.auth_state
unfolding act
act-Moves (updates env o) s w = update-Moves env o s w
act-Moves (called_back callback result) s w = callback-Moves callback result s
act-Moves (logs_in_bot token) s w =
    unfold log_in_with_bot_token log_in_send log_in_mark in ground arith
act-Moves (logs_in_user phone) s w = unfold log_in_with_phone_number in ground arith
act-Moves (runs task line) s w = task-Moves task line s w

-- A session that is authorized after any calls was so before them, or the server granted it in one
-- of them: by the state `ready`, or by the result `ok` for a bot token.
pub authorized_needs_grant :
    (s : ClientSession) (w : World) (calls : List Action)
    → (live s w calls).0.auth_state ≡ authorized
    → (s.auth_state ≡ authorized) ⊎ (any grants calls ≡ true)
unfolding live
authorized_needs_grant s w [] h = inl h
authorized_needs_grant s w (a ∷ rest) h =
    ground
      (arith, authorized_needs_grant (act a s w).0 (act a s w).1 rest h, (act-Moves a s w).earned)

-- A session that is authorized stays so through all calls in which the server asks for no
-- credentials and no result or answer about credentials comes in: also through the updates that
-- say that the client is logging out, closing or closed, and through every other object.
authorized_stays :
    (s : ClientSession) (w : World) (calls : List Action)
    → s.auth_state ≡ authorized
    → any asks calls ≡ false
    → (live s w calls).0.auth_state ≡ authorized
unfolding live
authorized_stays s w [] h n = h
authorized_stays s w (a ∷ rest) h n =
    ground (arith, authorized_stays (act a s w).0 (act a s w).1 rest, (act-Moves a s w).kept)

-- No sequence of calls brings a session into the state CLOSED.
never_closed :
    (s : ClientSession) (w : World) (calls : List Action)
    → s.auth_state ≢ closed
    → (live s w calls).0.auth_state ≢ closed
unfolding live
never_closed s w [] h = h
never_closed s w (a ∷ rest) h =
    never_closed (act a s w).0 (act a s w).1 rest ((act-Moves a s w).open_still h)
