-- ===== src/Program.antt =====
-- The program as src/core/startup.cpp runs it: the calls that the main thread makes, the responses
-- that the looper thread dispatches and the tasks of the pools' threads, in any order. A call is
-- one step.
pub mod Requests
pub mod Messages
pub mod Arguments
pub mod Clock
pub mod Start
pub mod Grants
pub mod Threads
use neo_group_captcha_bot.Common.{ℕ, Bool, List, [], ◌∷◌, Option, none, some, ℤ, Bytes}
use neo_group_captcha_bot.ThreadPool.{Spawn}
use neo_group_captcha_bot.Td.{TdLibParameters, get_option, Response}
use neo_group_captcha_bot.State.{Task, ClientSession, World, MessageHandler}
use neo_group_captcha_bot.Session.{execute, log_in_with_bot_token, log_in_with_phone_number}
use neo_group_captcha_bot.Session.Auth.{run_task}
use neo_group_captcha_bot.Session.Update.{Env}
use neo_group_captcha_bot.Manager.{get_session, store_session, create_session, dispatch_response}

pub data Event : Type 0 where
  creates : ℤ → TdLibParameters → Spawn → Event
  asks_option : ℤ → Bytes → Event  -- `execute(getOption(name), nullptr)`
  logs_in_bot : ℤ → Bytes → Event
  logs_in_user : ℤ → Bytes → Event
  sets_handler : ℤ → MessageHandler → Event
  dispatches : Env → Response → Event
  runs : ℤ → Task → Bytes → Event

-- A method of a session, called through a pointer to it.
unfoldable pub on_session :
    Option ClientSession → ℤ → (ClientSession → World → ClientSession × World) → World → World
on_session none id f w = w
on_session (some s) id f w = let (s', w') = f s w in store_session w' id s'

-- `setMessageHandler`.
unfoldable pub set_message_handler : ClientSession → MessageHandler → ClientSession
set_message_handler s h = record s { message_handler = some h }

unfoldable pub step : World → Event → World
unfolding on_session
step w (creates id parameters spawn) = (create_session w id parameters spawn).0
step w (asks_option id name) = execute w id (get_option name) none
step w (logs_in_bot id token) =
    on_session (get_session w id) id (λ s v. log_in_with_bot_token s v token) w
step w (logs_in_user id phone) =
    on_session (get_session w id) id (λ s v. log_in_with_phone_number s v phone) w
step w (sets_handler id h) =
    on_session (get_session w id) id (λ s v. (set_message_handler s h, v)) w
step w (dispatches env response) = (dispatch_response w env response).0
step w (runs id task line) = on_session (get_session w id) id (λ s v. run_task task line s v) w

unfoldable pub run : World → List Event → World
run w [] = w
run w (e ∷ es) = run (step w e) es
