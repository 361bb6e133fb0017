-- ===== src/Session/Trace.antt =====
-- src/core/manager/ClientSession.cpp: the life of one session, as the sequence of the calls of its
-- methods, of its callbacks and of its tasks, in the order in which they are made.
pub mod Authorized
use neo_group_captcha_bot.Common.{
  ℕ, Bool, true, false, ◌||◌, List, [], ◌∷◌, Option, none, some, ℤ, Bytes, if◌then◌else◌,
}
use neo_group_captcha_bot.Td.{
  AuthorizationState, wait_phone_number, wait_code, wait_password, ready, Object, ok,
  update_authorization_state,
}
use neo_group_captcha_bot.State.{
  Callback, bot_token_checked, code_checked, password_checked, Task, set_offline, ClientSession,
  World, MessageHandler,
}
use neo_group_captcha_bot.Session.{log_in_with_bot_token, log_in_with_phone_number}
use neo_group_captcha_bot.Session.Auth.{Reaction, run_callback, run_task}
use neo_group_captcha_bot.Session.Update.{Env, handle_update}

pub data Action : Type 0 where
  updates : Env → Object → Action
  called_back : Callback → Object → Action
  logs_in_bot : Bytes → Action
  logs_in_user : Bytes → Action
  runs : Task → Bytes → Action

-- The session and the world after a call; exceptions and null reads end the program.
unfoldable pub act : Action → ClientSession → World → ClientSession × World
act (updates env object) s w = let r = handle_update s w env (some object) in (r.session, r.world)
act (called_back callback result) s w = (run_callback callback result s, w)
act (logs_in_bot token) s w = log_in_with_bot_token s w token
act (logs_in_user phone) s w = log_in_with_phone_number s w phone
act (runs task line) s w = run_task task line s w

unfoldable pub live : ClientSession → World → List Action → ClientSession × World
live s w [] = (s, w)
live s w (a ∷ rest) = let (s', w') = act a s w in live s' w' rest

-- The server says that the session is authorized.
abbrev pub grants : Action → Bool
grants (updates env (update_authorization_state (some ready))) = true
grants (called_back (bot_token_checked id) ok) = true
grants _ = false

-- The server asks for credentials, or a check of credentials has a result, or the line typed at a
-- prompt is processed.
abbrev pub asks : Action → Bool
asks (updates env (update_authorization_state (some wait_phone_number))) = true
asks (updates env (update_authorization_state (some wait_code))) = true
asks (updates env (update_authorization_state (some wait_password))) = true
asks (called_back (bot_token_checked id) result) = true
asks (called_back (code_checked id) result) = true
asks (called_back (password_checked id) result) = true
asks (runs (set_offline id) line) = false
asks (runs task line) = true
asks _ = false

abbrev pub any : (Action → Bool) → List Action → Bool
any p [] = false
any p (a ∷ rest) = p a || any p rest
