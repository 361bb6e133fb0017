-- ===== src/Program/Messages.antt =====
-- src/core/startup.cpp, the message handler: how many messages the program sends.
pub mod Runs
pub mod Heard
pub mod Replies
pub mod Answered
pub mod Bound
use neo_group_captcha_bot.Common.{
  ℕ, zero, suc, ◌+◌, ◌≤◌, ◌<◌, ◌≡◌, refl, Bool, true, false, List, [], ◌∷◌, Option, none, some, ℤ,
  Bytes, is_empty, ltb, if◌then◌else◌, arith, ltb→ge, inl, inr, Bool-cases, ◌==◌,
}
use neo_group_captcha_bot.ThreadPool.{Spawn, Outcome, returns, throws, created, failed}
use neo_group_captcha_bot.Td
use neo_group_captcha_bot.Td.{
  AuthorizationState, wait_tdlib_parameters, wait_encryption_key, wait_phone_number, ready,
  wait_code, wait_password, other_state, Object, error, ok, update_authorization_state,
  update_option, update_user, update_new_message, update_logged, other_object, Function,
  send_message, check_authentication_bot_token, set_authentication_phone_number, Message,
  message_text, plain_content, other_content, MessageContent, TdLibParameters, Response,
}
use neo_group_captcha_bot.State.{
  Callback, bot_token_checked, phone_number_set, Task, set_offline, ask_code, ask_password,
  ClientSession, SessionManager, World, Sent, MessageHandler, Exit, returned, threw, null_read,
  new_world, new_manager,
}
use neo_group_captcha_bot.Requests.{
  executors_execute, async, outbox, send_request_with_client_id, get_client_manager,
}
use neo_group_captcha_bot.Session.{
  execute, send_td_lib_parameters, send_text_message, log_in_with_bot_token, log_in_send,
  log_in_mark, log_in_with_phone_number,
}
use neo_group_captcha_bot.Session.Auth.{
  done, on_wait_phone_number, handle_update_authorization_state, run_task, after_pool, remove_if,
}
use neo_group_captcha_bot.Session.Echo.{echo, answer, message_time}
use neo_group_captcha_bot.Session.Update.{
  Env, handle_update, handle_update_new_message, call_handler, handled,
}

abbrev pub is_message : Function → ℕ
is_message (send_message chat_id reply_id text) = 1
is_message _ = 0

-- How many of the requests send a message.
abbrev pub messages : List Sent → ℕ
messages [] = 0
messages (r ∷ rs) = is_message r.request + messages rs

-- What a property of the state has to keep to hold through every step: it looks at the requests
-- that were sent and at the handler's counter only, no other request breaks it, and neither does a
-- greeting that `Allowed` lets through.
pub record Preserved (I : World → Type 0) (Allowed : Message → Bytes → Type 0) : Type 0 where
  pub requests :
      (w : World) (id : ℤ) (request : Function) (callback : Option Callback)
      → is_message request ≡ 0
      → I w
      → I (execute w id request callback)
  pub elsewhere :
      (v w : World) → outbox w.manager ≡ outbox v.manager → w.send_count ≡ v.send_count → I v → I w
  pub greets :
      (w : World) (s : ClientSession) (m : Message) (text : Bytes)
      → w.send_count ≤ 10
      → Allowed m text
      → I w
      → I (answer (some (message_text text)) s w m).0

-- The text of a message that a handler would greet.
abbrev pub AllowsContent : (Message → Bytes → Type 0) → Option MessageContent → Message → Type 0
AllowsContent A (some (message_text text)) m = A m text
AllowsContent A _ m = Unit

-- An object that is no new message from somebody else is always let through.
abbrev pub Allows : (Message → Bytes → Type 0) → Object → Type 0
Allows A (update_new_message (some m)) = m.is_outgoing ≡ false → AllowsContent A m.content m
Allows A _ = Unit

-- Handing a task on leaves the world that the pool leaves, also if it throws.
after_pool-world : (s : ClientSession) (r : World × Outcome) → (after_pool s r).world ≡ r.0
after_pool-world s (w, returns) = refl
after_pool-world s (w, throws) = refl

module _ (I : World → Type 0) (A : Message → Bytes → Type 0) (rules : Preserved I A) where
  pub parameters-Kept : (s : ClientSession) (w : World) → I w → I (send_td_lib_parameters s w)
  unfolding send_td_lib_parameters
  parameters-Kept s w v = rules.requests _ _ _ _ refl (
      rules.requests _ _ _ _ refl
        (rules.requests _ _ _ _ refl (rules.requests _ _ _ _ refl (rules.requests w _ _ _ refl v))))

  pool-Kept :
      (s : ClientSession) (w : World) (task : Task) (spawn : Spawn)
      → I w
      → I (after_pool s (executors_execute w task spawn)).world
  unfolding executors_execute
  pool-Kept s w task spawn v =
      rw (after_pool-world s (executors_execute w task spawn)) (rules.elsewhere w _ refl refl v)

  async-Kept :
      (s : ClientSession) (w : World) (task : Task) (spawn : Spawn)
      → I w
      → I (after_pool s (async w task spawn)).world
  unfolding async
  async-Kept s w task spawn v =
      rw (after_pool-world s (async w task spawn)) (rules.elsewhere w _ refl refl v)

  phone_number-Kept : (s : ClientSession) (w : World) → I w → I (on_wait_phone_number s w).world
  unfolding on_wait_phone_number
  phone_number-Kept s w v =
      let token : Function = check_authentication_bot_token s.auth_bot_token in
      let phone : Function = set_authentication_phone_number s.auth_user_phone in
      let checked : Option Callback = some (bot_token_checked s.td_lib_object_id) in
      ground (
        arith,
        v,
        rules.requests w s.td_lib_object_id token checked refl v,
        rules.requests w s.td_lib_object_id phone (some phone_number_set) refl v,
      )

  authorization-Kept :
      (s : ClientSession) (w : World) (spawn : Spawn) (state : Option AuthorizationState)
      → I w
      → I (handle_update_authorization_state s w spawn state).world
  unfolding handle_update_authorization_state
  authorization-Kept s w spawn none v = v
  authorization-Kept s w spawn (some wait_tdlib_parameters) v = parameters-Kept s w v
  authorization-Kept s w spawn (some wait_encryption_key) v = rules.requests w _ _ _ refl v
  authorization-Kept s w spawn (some wait_phone_number) v = phone_number-Kept s w v
  authorization-Kept s w spawn (some ready) v = async-Kept _ w _ spawn v
  authorization-Kept s w spawn (some wait_code) v = pool-Kept _ w _ spawn v
  authorization-Kept s w spawn (some wait_password) v = pool-Kept _ w _ spawn v
  authorization-Kept s w spawn (some (other_state type)) v = v

  answer-Kept :
      (c : Option MessageContent) (s : ClientSession) (w : World) (m : Message)
      → w.send_count ≤ 10
      → AllowsContent A c m
      → I w
      → I (answer c s w m).0
  answer-Kept none s w m h a v = unfold answer in v
  answer-Kept (some (message_text text)) s w m h a v = rules.greets w s m text h a v
  answer-Kept (some (plain_content kind rest)) s w m h a v = unfold answer in v
  answer-Kept (some (other_content id rest)) s w m h a v = unfold answer in v

  echo-Kept :
      (h : MessageHandler) (s : ClientSession) (w : World) (m : Message)
      → AllowsContent A m.content m
      → I w
      → I (echo h s w m).0
  unfolding echo
  echo-Kept h s w m a v = elim (Bool-cases (ltb 10 w.send_count)) [
    | inl e ↦ rw (e, if◌then◌else◌) v
    | inr e ↦ elim (Bool-cases (ltb (message_time m.date) h.startup_time)) [
      | inl f ↦ rw (e, f, if◌then◌else◌) v
      | inr f ↦
          rw (e, f, if◌then◌else◌) (answer-Kept m.content s w m (ltb→ge 10 w.send_count e) a v)
    ]
  ]

  handled-Kept : (s : ClientSession) (r : World × Exit) → I r.0 → I (handled s r).world
  handled-Kept s (w, returned b) v = v
  handled-Kept s (w, threw) v = v
  handled-Kept s (w, null_read) v = v

  message-Kept :
      (m : Message) (h : Option MessageHandler) (s : ClientSession) (w : World)
      → AllowsContent A m.content m
      → I w
      → I (call_handler h s w m).world
  message-Kept m none s w a v = v
  message-Kept m (some h) s w a v = handled-Kept s (echo h s w m) (echo-Kept h s w m a v)

  incoming-Kept :
      (is_outgoing : Bool) (m : Message) (s : ClientSession) (w : World)
      → (is_outgoing ≡ false → AllowsContent A m.content m)
      → I w
      → I (if is_outgoing then done s w true else call_handler s.message_handler s w m).world
  incoming-Kept true m s w a v = v
  incoming-Kept false m s w a v = message-Kept m s.message_handler s w (a refl) v

  pub handle_update-Kept :
      (s : ClientSession) (w : World) (env : Env) (o : Object)
      → Allows A o
      → I w
      → I (handle_update s w env (some o)).world
  unfolding handle_update
  handle_update-Kept s w env (update_authorization_state state) a v =
      authorization-Kept s w env.spawn state v
  handle_update-Kept s w env (update_option name value) a v = v
  handle_update-Kept s w env (update_user user) a v = v
  handle_update-Kept s w env (update_new_message none) a v = unfold handle_update_new_message in v
  handle_update-Kept s w env (update_new_message (some m)) a v =
      unfold handle_update_new_message in incoming-Kept m.is_outgoing m s w a v
  handle_update-Kept s w env (update_logged kind) a v = v
  handle_update-Kept s w env (error code m) a v = v
  handle_update-Kept s w env ok a v = v
  handle_update-Kept s w env (other_object id) a v = v
