-- ===== src/Examples/Session.antt =====
-- src/core/manager/ClientSession.cpp: one session, with a bot token or a phone number.
use neo_group_captcha_bot.Common.{
  ◌≡◌, ◌⊎◌, refl, true, false, List, [], ◌∷◌, map, none, some, pos, Bytes, codes,
}
use neo_group_captcha_bot.ThreadPool.{created}
use neo_group_captcha_bot.Td.{
  TdLibParameters, ok, update_authorization_state, update_logged, connection_state,
  wait_phone_number, other_state,
}
use neo_group_captcha_bot.State.{
  ClientSession, new_world, initialization, authorized, bot_token_checked,
}
use neo_group_captcha_bot.Session.{log_in_send, log_in_mark, log_in_with_bot_token}
use neo_group_captcha_bot.Session.Auth.{
  handle_update_authorization_state, on_wait_phone_number, run_callback,
}
use neo_group_captcha_bot.Session.Update.{Env, handle_update}
use neo_group_captcha_bot.Session.Trace.{
  Action, updates, called_back, logs_in_bot, live, act, grants, any,
}
use neo_group_captcha_bot.Session.Machine.{label, Way}
use neo_group_captcha_bot.Session.Machine.Diagram.{live-Way}
use neo_group_captcha_bot.Session.Trace.Authorized.{authorized_needs_grant}

abbrev pub parameters : TdLibParameters
parameters = record {
  use_test_dc = false;
  database_directory = codes "database/bot_1";
  files_directory = [];
  use_file_database = true;
  use_chat_info_database = true;
  use_message_database = true;
  use_secret_chats = false;
  api_id = pos 42;
  api_hash = codes "hash";
  system_language_code = codes "en";
  device_model = codes "Linux";
  system_version = codes "5";
  application_version = codes "1";
  enable_storage_optimizer = true;
  ignore_file_names = false;
}

abbrev pub fresh : ClientSession
fresh = record {
  td_lib_parameters = parameters;
  td_lib_object_id = pos 1;
  user_id = pos 0;
  authorization_date = 0;
  auth_state = initialization;
  auth_bot_token = [];
  auth_user_phone = [];
  user = none;
  server_time_delta_seconds = 0;
  message_handler = none;
}

abbrev pub token : Bytes
token = codes "123:abc"

abbrev pub env : Env
env = record { now = 1000; spawn = created 1 }

-- The bot logs in, and the server lets it in.
abbrev log_in : List Action
log_in =
    logs_in_bot token
    ∷ updates env (update_authorization_state (some wait_phone_number))
    ∷ called_back (bot_token_checked (pos 1)) ok
    ∷ []

logged_in : (live fresh new_world log_in).0.auth_state ≡ authorized
unfolding live act log_in_with_bot_token log_in_send log_in_mark handle_update
    handle_update_authorization_state on_wait_phone_number run_callback
logged_in = refl

authorized_needs_grant_example : (initialization ≡ authorized) ⊎ (any grants log_in ≡ true)
authorized_needs_grant_example = authorized_needs_grant fresh new_world log_in logged_in

abbrev let_in : ClientSession
let_in = record fresh { auth_state = authorized }

-- The client is closed: a state that the session does not know.
abbrev closing : List Action
closing =
    updates env (update_authorization_state (some (other_state 8)))
    ∷ updates env (update_logged connection_state)
    ∷ logs_in_bot token
    ∷ []

live-Way_example : Way initialization (map label log_in) (live fresh new_world log_in).0.auth_state
live-Way_example = live-Way log_in fresh new_world
