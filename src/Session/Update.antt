-- ===== src/Session/Update.antt =====
-- src/core/manager/ClientSession.cpp: `handleUpdate`, `handleUpdateUser`, `handleUpdateNewMessage`.
use neo_group_captcha_bot.Common.{ℕ, true, false, Option, none, some, if◌then◌else◌}
use neo_group_captcha_bot.ThreadPool.{Spawn}
use neo_group_captcha_bot.Td.{
  User, Message, Object, error, ok, update_authorization_state, update_option, update_user,
  update_new_message, update_logged, other_object,
}
use neo_group_captcha_bot.State.{
  ClientSession, World, MessageHandler, Exit, returned, threw, null_read,
}
use neo_group_captcha_bot.Session.Options.{handle_update_option}
use neo_group_captcha_bot.Session.Auth.{Reaction, done, handle_update_authorization_state}
use neo_group_captcha_bot.Session.Echo.{echo}

-- The local time and the outcome of `pthread_create`, for the call of a handler.
pub record Env : Type 0 where
  pub now : ℕ
  pub spawn : Spawn

unfoldable pub handle_update_user : ClientSession → Option User → ClientSession
handle_update_user s none = s
handle_update_user s (some user) = record s { user = some user }

-- The handler's answer is used for the log only.
abbrev pub handled : ClientSession → World × Exit → Reaction
handled s (w, returned b) = done s w true
handled s (w, threw) = record { session = s; world = w; exit = threw }
handled s (w, null_read) = record { session = s; world = w; exit = null_read }

abbrev pub call_handler : Option MessageHandler → ClientSession → World → Message → Reaction
call_handler none s w message = done s w true
call_handler (some h) s w message = handled s (echo h s w message)

unfoldable pub handle_update_new_message : ClientSession → World → Option Message → Reaction
handle_update_new_message s w none = done s w true
handle_update_new_message s w (some message) =
    if message.is_outgoing then done s w true else call_handler s.message_handler s w message

unfoldable pub handle_update : ClientSession → World → Env → Option Object → Reaction
unfolding handle_update_user
handle_update s w env none = done s w false
handle_update s w env (some (update_authorization_state state)) =
    handle_update_authorization_state s w env.spawn state
handle_update s w env (some (update_option name value)) =
    let (s', exit) = handle_update_option s env.now name value in
    record { session = s'; world = w; exit = exit }
handle_update s w env (some (update_user user)) = done (handle_update_user s user) w true
handle_update s w env (some (update_new_message message)) = handle_update_new_message s w message
handle_update s w env (some (update_logged kind)) = done s w true
handle_update s w env (some (error code message)) = done s w false
handle_update s w env (some ok) = done s w false
handle_update s w env (some (other_object id)) = done s w false
