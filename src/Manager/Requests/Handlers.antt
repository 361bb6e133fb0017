-- ===== src/Manager/Requests/Handlers.antt =====
-- src/core/manager: every handler, callback and task keeps what holds of the ids and callbacks, and
-- uses up five ids at most.
use neo_group_captcha_bot.Common.{
  ℕ, suc, Option, none, some, ℤ, is_empty, arith, Bool-cases, inl, inr,
}
use neo_group_captcha_bot.ThreadPool.{Spawn, Outcome, returns, throws}
use neo_group_captcha_bot.Td.{
  AuthorizationState, wait_tdlib_parameters, wait_encryption_key, wait_phone_number, ready,
  wait_code, wait_password, other_state, Object, error, ok, update_authorization_state,
  update_option, update_user, update_new_message, update_logged, other_object, Function, Message,
  message_text, plain_content, other_content, MessageContent,
}
use neo_group_captcha_bot.State.{
  Callback, Task, set_offline, ask_code, ask_password, ClientSession, SessionManager, World,
  MessageHandler, Exit, returned, threw, null_read,
}
use neo_group_captcha_bot.Requests.{executors_execute, async}
use neo_group_captcha_bot.Session.{
  execute, send_td_lib_parameters, send_text_message, is_initialization,
}
use neo_group_captcha_bot.Session.Auth.{
  on_wait_phone_number, handle_update_authorization_state, after_pool,
}
use neo_group_captcha_bot.Session.Echo.{echo, answer}
use neo_group_captcha_bot.Session.Update.{
  Env, handle_update, handle_update_new_message, call_handler, handled,
}
use neo_group_captcha_bot.Manager.Requests.{Room, send-Room, fewer-Room}

-- Five more than `k`: what the longest handler sends.
abbrev pub five_more : ℕ → ℕ
five_more k = suc (suc (suc (suc (suc k))))

four_fewer : (k : ℕ) (m : SessionManager) → Room (five_more k) m → Room (suc k) m
four_fewer k m v = fewer-Room (suc k) m (
    fewer-Room (suc (suc k)) m
      (fewer-Room (suc (suc (suc k))) m (fewer-Room (suc (suc (suc (suc k)))) m v)))

pub five_fewer : (k : ℕ) (m : SessionManager) → Room (five_more k) m → Room k m
five_fewer k m v = fewer-Room k m (four_fewer k m v)

module _ (k : ℕ) where
  pub execute-Room :
      (w : World) (id : ℤ) (request : Function) (callback : Option Callback)
      → Room (suc k) w.manager
      → Room k (execute w id request callback).manager
  unfolding execute
  execute-Room w id request callback v = send-Room w.manager id request k callback v

  -- One request, where there is room for five.
  pub one-Room :
      (w : World) (id : ℤ) (request : Function) (callback : Option Callback)
      → Room (five_more k) w.manager
      → Room k (execute w id request callback).manager
  one-Room w id request callback v = execute-Room w id request callback (four_fewer k w.manager v)

pub send_td_lib_parameters-Room :
    (k : ℕ) (s : ClientSession) (w : World)
    → Room (five_more k) w.manager
    → Room k (send_td_lib_parameters s w).manager
unfolding send_td_lib_parameters
send_td_lib_parameters-Room k s w v = execute-Room k _ _ _ _ (
    execute-Room (suc k) _ _ _ _ (
      execute-Room (suc (suc k)) _ _ _ _ (
        execute-Room (suc (suc (suc k))) _ _ _ _
          (execute-Room (suc (suc (suc (suc k)))) w _ _ _ v))))

-- A pool's state is no part of it.
pool-Room :
    (k : ℕ) (w : World) (task : Task) (spawn : Spawn)
    → Room k w.manager
    → Room k (executors_execute w task spawn).0.manager
unfolding executors_execute
pool-Room k w task spawn v = record {
  callbacks_wf = v.callbacks_wf;
  positive = v.positive;
  room = v.room;
  pending = v.pending;
  sent = v.sent;
}

async-Room :
    (k : ℕ) (w : World) (task : Task) (spawn : Spawn)
    → Room k w.manager
    → Room k (async w task spawn).0.manager
unfolding async
async-Room k w task spawn v = v

after_pool-Room :
    (k : ℕ) (s : ClientSession) (r : World × Outcome)
    → Room k r.0.manager
    → Room k (after_pool s r).world.manager
after_pool-Room k s (w, returns) v = v
after_pool-Room k s (w, throws) v = v

on_wait_phone_number-Room :
    (k : ℕ) (s : ClientSession) (w : World)
    → Room (five_more k) w.manager
    → Room k (on_wait_phone_number s w).world.manager
unfolding on_wait_phone_number
on_wait_phone_number-Room k s w v = elim (Bool-cases (is_initialization s.auth_state)) [
  | inl a ↦ elim (Bool-cases (is_empty s.auth_bot_token)) [
    | inl b ↦ elim (Bool-cases (is_empty s.auth_user_phone)) [
      | inl c ↦ rw (a, b, c) (five_fewer k w.manager v)
      | inr c ↦ rw (a, b, c) (one-Room k w _ _ _ v)
    ]
    | inr b ↦ rw (a, b) (one-Room k w _ _ _ v)
  ]
  | inr a ↦ rw a (five_fewer k w.manager v)
]

authorization-Room :
    (k : ℕ) (s : ClientSession) (w : World) (spawn : Spawn) (state : Option AuthorizationState)
    → Room (five_more k) w.manager
    → Room k (handle_update_authorization_state s w spawn state).world.manager
unfolding handle_update_authorization_state
authorization-Room k s w spawn none v = five_fewer k w.manager v
authorization-Room k s w spawn (some wait_tdlib_parameters) v = send_td_lib_parameters-Room k s w v
authorization-Room k s w spawn (some wait_encryption_key) v = one-Room k w _ _ _ v
authorization-Room k s w spawn (some wait_phone_number) v = on_wait_phone_number-Room k s w v
authorization-Room k s w spawn (some ready) v =
    after_pool-Room k _ (async w (set_offline s.td_lib_object_id) spawn)
      (async-Room k w _ spawn (five_fewer k w.manager v))
authorization-Room k s w spawn (some wait_code) v =
    after_pool-Room k _ (executors_execute w (ask_code s.td_lib_object_id) spawn)
      (pool-Room k w _ spawn (five_fewer k w.manager v))
authorization-Room k s w spawn (some wait_password) v =
    after_pool-Room k _ (executors_execute w (ask_password s.td_lib_object_id) spawn)
      (pool-Room k w _ spawn (five_fewer k w.manager v))
authorization-Room k s w spawn (some (other_state type)) v = five_fewer k w.manager v

answer-Room :
    (k : ℕ) (c : Option MessageContent) (s : ClientSession) (w : World) (m : Message)
    → Room (five_more k) w.manager
    → Room k (answer c s w m).0.manager
unfolding answer send_text_message
answer-Room k none s w m v = five_fewer k w.manager v
answer-Room k (some (message_text text)) s w m v = one-Room k w _ _ _ v
answer-Room k (some (plain_content kind rest)) s w m v = five_fewer k w.manager v
answer-Room k (some (other_content id rest)) s w m v = five_fewer k w.manager v

echo-Room :
    (k : ℕ) (h : MessageHandler) (s : ClientSession) (w : World) (m : Message)
    → Room (five_more k) w.manager
    → Room k (echo h s w m).0.manager
unfolding echo
echo-Room k h s w m v = ground (arith, answer-Room k m.content s w m v, five_fewer k w.manager v)

handled-Room :
    (k : ℕ) (s : ClientSession) (r : World × Exit)
    → Room k r.0.manager
    → Room k (handled s r).world.manager
handled-Room k s (w, returned b) v = v
handled-Room k s (w, threw) v = v
handled-Room k s (w, null_read) v = v

message-Room :
    (k : ℕ) (m : Message) (h : Option MessageHandler) (s : ClientSession) (w : World)
    → Room (five_more k) w.manager
    → Room k (call_handler h s w m).world.manager
message-Room k m none s w v = five_fewer k w.manager v
message-Room k m (some h) s w v = handled-Room k s (echo h s w m) (echo-Room k h s w m v)

pub handle_update-Room :
    (k : ℕ) (s : ClientSession) (w : World) (env : Env) (o : Object)
    → Room (five_more k) w.manager
    → Room k (handle_update s w env (some o)).world.manager
unfolding handle_update
handle_update-Room k s w env (update_authorization_state state) v =
    authorization-Room k s w env.spawn state v
handle_update-Room k s w env (update_option name value) v = five_fewer k w.manager v
handle_update-Room k s w env (update_user user) v = five_fewer k w.manager v
handle_update-Room k s w env (update_new_message none) v =
    unfold handle_update_new_message in five_fewer k w.manager v
handle_update-Room k s w env (update_new_message (some m)) v =
    unfold handle_update_new_message in
    ground (arith, message-Room k m s.message_handler s w v, five_fewer k w.manager v)
handle_update-Room k s w env (update_logged kind) v = five_fewer k w.manager v
handle_update-Room k s w env (error code m) v = five_fewer k w.manager v
handle_update-Room k s w env ok v = five_fewer k w.manager v
handle_update-Room k s w env (other_object id) v = five_fewer k w.manager v
