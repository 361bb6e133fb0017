-- ===== src/Manager/Frame.antt =====
-- src/core/manager: what the handlers of a session leave alone in the manager.
use neo_group_captcha_bot.Common.{◌≡◌, refl, ◌∙◌, Option, none, some, ℤ, arith}
use neo_group_captcha_bot.ThreadPool.{Spawn}
use neo_group_captcha_bot.Td.{
  AuthorizationState, wait_tdlib_parameters, wait_encryption_key, wait_phone_number, ready,
  wait_code, wait_password, other_state, Object, error, ok, update_authorization_state,
  update_option, update_user, update_new_message, update_logged, other_object, Function, Message,
  message_text, plain_content, other_content, MessageContent,
}
use neo_group_captcha_bot.State.{
  Callback, Task, ClientSession, SessionManager, World, MessageHandler, Exit, returned, threw,
  null_read,
}
use neo_group_captcha_bot.Requests.{executors_execute, async, send_request_with_client_id}
use neo_group_captcha_bot.Session.{execute, send_td_lib_parameters, send_text_message}
use neo_group_captcha_bot.Session.Auth.{
  on_wait_phone_number, handle_update_authorization_state, after_pool,
}
use neo_group_captcha_bot.Session.Echo.{echo, answer}
use neo_group_captcha_bot.Session.Update.{
  Env, handle_update, handle_update_new_message, call_handler, handled,
}

-- The sessions and the looper are as they were.
pub record Keeps (m m' : SessionManager) : Type 0 where
  pub sessions : m'.client_sessions ≡ m.client_sessions
  pub looper : m'.looper_running ≡ m.looper_running

pub Keeps-refl : (m : SessionManager) → Keeps m m
Keeps-refl m = record { sessions = refl; looper = refl }

Keeps-trans : {a b c : SessionManager} → Keeps a b → Keeps b c → Keeps a c
Keeps-trans p q = record { sessions = q.sessions ∙ p.sessions; looper = q.looper ∙ p.looper }

pub execute-Keeps :
    (w : World) (id : ℤ) (request : Function) (callback : Option Callback)
    → Keeps w.manager (execute w id request callback).manager
unfolding execute send_request_with_client_id
execute-Keeps w id request none = record { sessions = refl; looper = refl }
execute-Keeps w id request (some c) = record { sessions = refl; looper = refl }

pub parameters-Keeps :
    (s : ClientSession) (w : World) → Keeps w.manager (send_td_lib_parameters s w).manager
unfolding send_td_lib_parameters
parameters-Keeps s w = Keeps-trans (execute-Keeps w _ _ _) (
    Keeps-trans (execute-Keeps _ _ _ _) (
      Keeps-trans (execute-Keeps _ _ _ _)
        (Keeps-trans (execute-Keeps _ _ _ _) (execute-Keeps _ _ _ _))))

pool-Keeps :
    (s : ClientSession) (w : World) (task : Task) (spawn : Spawn)
    → Keeps w.manager (after_pool s (executors_execute w task spawn)).world.manager
unfolding executors_execute
pool-Keeps s w task spawn = ground arith

async-Keeps :
    (s : ClientSession) (w : World) (task : Task) (spawn : Spawn)
    → Keeps w.manager (after_pool s (async w task spawn)).world.manager
unfolding async
async-Keeps s w task spawn = ground arith

phone_number-Keeps :
    (s : ClientSession) (w : World) → Keeps w.manager (on_wait_phone_number s w).world.manager
unfolding on_wait_phone_number
phone_number-Keeps s w = grind (arith, execute-Keeps, Keeps-refl)

authorization-Keeps :
    (s : ClientSession) (w : World) (spawn : Spawn) (state : Option AuthorizationState)
    → Keeps w.manager (handle_update_authorization_state s w spawn state).world.manager
unfolding handle_update_authorization_state
authorization-Keeps s w spawn none = Keeps-refl w.manager
authorization-Keeps s w spawn (some wait_tdlib_parameters) = parameters-Keeps s w
authorization-Keeps s w spawn (some wait_encryption_key) = execute-Keeps w _ _ _
authorization-Keeps s w spawn (some wait_phone_number) = phone_number-Keeps s w
authorization-Keeps s w spawn (some ready) = async-Keeps _ w _ spawn
authorization-Keeps s w spawn (some wait_code) = pool-Keeps _ w _ spawn
authorization-Keeps s w spawn (some wait_password) = pool-Keeps _ w _ spawn
authorization-Keeps s w spawn (some (other_state type)) = Keeps-refl w.manager

answer-Keeps :
    (c : Option MessageContent) (s : ClientSession) (w : World) (m : Message)
    → Keeps w.manager (answer c s w m).0.manager
unfolding answer send_text_message
answer-Keeps none s w m = Keeps-refl w.manager
answer-Keeps (some (message_text text)) s w m = execute-Keeps w _ _ _
answer-Keeps (some (plain_content kind rest)) s w m = Keeps-refl w.manager
answer-Keeps (some (other_content id rest)) s w m = Keeps-refl w.manager

echo-Keeps :
    (h : MessageHandler) (s : ClientSession) (w : World) (m : Message)
    → Keeps w.manager (echo h s w m).0.manager
unfolding echo
echo-Keeps h s w m = ground (arith, answer-Keeps m.content s w m, Keeps-refl w.manager)

handled-Keeps :
    (m : SessionManager) (s : ClientSession) (r : World × Exit)
    → Keeps m r.0.manager
    → Keeps m (handled s r).world.manager
handled-Keeps m s (w, returned b) v = v
handled-Keeps m s (w, threw) v = v
handled-Keeps m s (w, null_read) v = v

message-Keeps :
    (m : Message) (h : Option MessageHandler) (s : ClientSession) (w : World)
    → Keeps w.manager (call_handler h s w m).world.manager
message-Keeps m none s w = Keeps-refl w.manager
message-Keeps m (some h) s w = handled-Keeps w.manager s (echo h s w m) (echo-Keeps h s w m)

pub handle_update-Keeps :
    (s : ClientSession) (w : World) (env : Env) (o : Object)
    → Keeps w.manager (handle_update s w env (some o)).world.manager
unfolding handle_update
handle_update-Keeps s w env (update_authorization_state state) =
    authorization-Keeps s w env.spawn state
handle_update-Keeps s w env (update_option name value) = Keeps-refl w.manager
handle_update-Keeps s w env (update_user user) = Keeps-refl w.manager
handle_update-Keeps s w env (update_new_message none) =
    unfold handle_update_new_message in Keeps-refl w.manager
handle_update-Keeps s w env (update_new_message (some m)) =
    unfold handle_update_new_message in
    ground (arith, message-Keeps m s.message_handler s w, Keeps-refl w.manager)
handle_update-Keeps s w env (update_logged kind) = Keeps-refl w.manager
handle_update-Keeps s w env (error code m) = Keeps-refl w.manager
handle_update-Keeps s w env ok = Keeps-refl w.manager
handle_update-Keeps s w env (other_object id) = Keeps-refl w.manager
