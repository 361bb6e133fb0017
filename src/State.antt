-- ===== src/State.antt =====
-- The state of the program: src/core/manager/ClientSession.h, src/core/manager/SessionManager.h, and
-- the two static variables of src/utils/SyncUtils.cpp and src/core/startup.cpp. A closure that the
-- code stores is a constructor with what it captures; `this` is the id of the session.
use neo_group_captcha_bot.Common.{ℕ, Bool, false, List, [], Option, none, ℤ, pos, Bytes}
use neo_group_captcha_bot.ConcurrentHashMap
use neo_group_captcha_bot.ConcurrentHashMap.{ConcurrentHashMap}
use neo_group_captcha_bot.ThreadPool
use neo_group_captcha_bot.ThreadPool.{ThreadPool}
use neo_group_captcha_bot.Td.{User, TdLibParameters, Function}

-- ClientSession::AuthorizationState.
pub data AuthState : Type 0 where
  initialization wait_token wait_code wait_password wait_response : AuthState
  authorized bad_token closed : AuthState

-- The callbacks of the requests.
pub data Callback : Type 0 where
  log_if_response_error : Callback
  bot_token_checked : ℤ → Callback
  phone_number_set : Callback
  online_set : Callback
  code_checked : ℤ → Callback
  password_checked : ℤ → Callback
  text_sent : Callback

-- The tasks of the two thread pools.
pub data Task : Type 0 where
  set_offline ask_code ask_password : ℤ → Task

-- The message handler that `main` installs, with the time that it captures.
pub record MessageHandler : Type 0 where
  pub startup_time : ℕ  -- uint64_t, milliseconds

pub record ClientSession : Type 0 where
  pub td_lib_parameters : TdLibParameters
  pub td_lib_object_id : ℤ  -- int32_t
  pub user_id : ℤ  -- int64_t
  pub authorization_date : ℕ  -- uint64_t
  pub auth_state : AuthState
  pub auth_bot_token : Bytes
  pub auth_user_phone : Bytes
  pub user : Option User
  pub server_time_delta_seconds : ℕ  -- uint64_t
  pub message_handler : Option MessageHandler

-- A request that was handed to the client manager.
pub record Sent : Type 0 where
  pub client_id : ℤ
  pub request_id : ℕ
  pub request : Function

pub record SessionManager : Type 0 where
  pub client_manager : Option (List Sent)  -- null until it is first used; the newest request first
  pub query_sequence : ℕ  -- atomic uint64_t
  pub query_callbacks : ConcurrentHashMap ℕ Callback
  pub client_sessions : ConcurrentHashMap ℤ ClientSession
  pub worker_thread : ℕ  -- pthread_t, 0 if there is none
  pub looper_running : Bool
  pub thread_pool : ThreadPool Task

pub record World : Type 0 where
  pub manager : SessionManager
  pub async_pool : Option (ThreadPool Task)  -- sThreadPool
  pub send_count : ℕ  -- sendCount, an int

-- How a call ends: with a value, by an exception, or by a read through a null pointer.
pub data Exit : Type 0 where
  returned : Bool → Exit
  threw : Exit
  null_read : Exit

-- What the members are at first.
unfoldable pub new_session : ℤ → TdLibParameters → ClientSession
new_session id param = record {
  td_lib_parameters = param;
  td_lib_object_id = id;
  user_id = pos 0;
  authorization_date = 0;
  auth_state = initialization;
  auth_bot_token = [];
  auth_user_phone = [];
  user = none;
  server_time_delta_seconds = 0;
  message_handler = none;
}

unfoldable pub new_manager : SessionManager
unfolding ThreadPool.new ConcurrentHashMap.empty
new_manager = record {
  client_manager = none;
  query_sequence = 1;
  query_callbacks = ConcurrentHashMap.empty;
  client_sessions = ConcurrentHashMap.empty;
  worker_thread = 0;
  looper_running = false;
  thread_pool = ThreadPool.new (pos 4) (pos 16) (pos 60000) (pos 64);
}

unfoldable pub new_world : World
unfolding new_manager
new_world = record { manager = new_manager; async_pool = none; send_count = 0 }
