-- ===== src/Session/Auth.antt =====
-- src/core/manager/ClientSession.cpp: `handleUpdateAuthorizationState`, with the callbacks and the
-- tasks that it hands on. The result of `pthread_create` and the line read from the terminal are
-- arguments.
use neo_group_captcha_bot.Common.{
  ℕ, Bool, true, false, ◌&&◌, ◌||◌, not, [], ◌∷◌, Option, none, some, ℤ, Bytes, codes, is_empty,
  leb, ◌==◌, if◌then◌else◌,
}
use neo_group_captcha_bot.ThreadPool.{Spawn, Outcome, returns, throws}
use neo_group_captcha_bot.Td.{
  AuthorizationState, wait_tdlib_parameters, wait_encryption_key, wait_phone_number, ready,
  wait_code, wait_password, other_state, Object, ok, check_database_encryption_key,
  check_authentication_bot_token, set_authentication_phone_number, check_authentication_code,
  check_authentication_password, set_option,
}
use neo_group_captcha_bot.State.{
  AuthState, wait_token, wait_response, authorized, bad_token, Callback, log_if_response_error,
  bot_token_checked, phone_number_set, online_set, code_checked, password_checked, Task,
  set_offline, ask_code, ask_password, ClientSession, World, Exit, returned, threw,
}
use neo_group_captcha_bot.Requests.{executors_execute, async}
use neo_group_captcha_bot.Session.{execute, send_td_lib_parameters, is_initialization}

-- The session, the world and the end of a handler.
pub record Reaction : Type 0 where
  pub session : ClientSession
  pub world : World
  pub exit : Exit

abbrev pub done : ClientSession → World → Bool → Reaction
done s w b = record { session = s; world = w; exit = returned b }

-- A task was handed to a pool last: an exception goes on to the caller.
abbrev pub after_pool : ClientSession → World × Outcome → Reaction
after_pool s (w, returns) = done s w true
after_pool s (w, throws) = record { session = s; world = w; exit = threw }

-- The phone number is kept: it is the bot token, empty there, that the code clears.
unfoldable pub on_wait_phone_number : ClientSession → World → Reaction
on_wait_phone_number s w =
    if is_initialization s.auth_state
    then (if not (is_empty s.auth_bot_token)
        then done (record s { auth_bot_token = []; auth_state = wait_response })
            (execute w s.td_lib_object_id (check_authentication_bot_token s.auth_bot_token)
              (some (bot_token_checked s.td_lib_object_id)))
            true
        else if not (is_empty s.auth_user_phone)
        then done (record s { auth_bot_token = []; auth_state = wait_response })
            (execute w s.td_lib_object_id (set_authentication_phone_number s.auth_user_phone)
              (some phone_number_set))
            true
        else done s w true)
    else done (record s { auth_state = wait_token }) w true

-- The session is authorized first; the task that takes it offline is handed on after that.
abbrev pub on_ready : ClientSession → World → Spawn → Reaction
on_ready s w spawn =
    after_pool (record s { auth_state = authorized })
      (async w (set_offline s.td_lib_object_id) spawn)

abbrev pub on_wait_code : ClientSession → World → Spawn → Reaction
on_wait_code s w spawn =
    after_pool (record s { auth_state = AuthState.wait_code })
      (executors_execute w (ask_code s.td_lib_object_id) spawn)

abbrev pub on_wait_password : ClientSession → World → Spawn → Reaction
on_wait_password s w spawn =
    after_pool (record s { auth_state = AuthState.wait_password })
      (executors_execute w (ask_password s.td_lib_object_id) spawn)

unfoldable pub handle_update_authorization_state :
    ClientSession → World → Spawn → Option AuthorizationState → Reaction
unfolding on_wait_phone_number
handle_update_authorization_state s w spawn none = done s w false
handle_update_authorization_state s w spawn (some wait_tdlib_parameters) =
    done s (send_td_lib_parameters s w) true
handle_update_authorization_state s w spawn (some wait_encryption_key) =
    done s (execute w s.td_lib_object_id check_database_encryption_key (some log_if_response_error))
      true
handle_update_authorization_state s w spawn (some wait_phone_number) = on_wait_phone_number s w
handle_update_authorization_state s w spawn (some ready) = on_ready s w spawn
handle_update_authorization_state s w spawn (some wait_code) = on_wait_code s w spawn
handle_update_authorization_state s w spawn (some wait_password) = on_wait_password s w spawn
handle_update_authorization_state s w spawn (some (other_state type)) = done s w false

-- The state that a result leaves, where the state is to be `good` on success.
abbrev pub checked : Object → AuthState → AuthState
checked ok good = good
checked _ good = bad_token

-- What a callback does to the session that it captured. The others write to the log.
unfoldable pub run_callback : Callback → Object → ClientSession → ClientSession
run_callback (bot_token_checked id) result s = record s { auth_state = checked result authorized }
run_callback (code_checked id) result s = record s { auth_state = checked result wait_response }
run_callback (password_checked id) result s = record s { auth_state = checked result wait_response }
run_callback _ result s = s

-- The session that a callback captured.
abbrev pub captured : Callback → Option ℤ
captured (bot_token_checked id) = some id
captured (code_checked id) = some id
captured (password_checked id) = some id
captured _ = none

-- `isspace` in the C locale.
abbrev pub is_space : ℕ → Bool
is_space c = c == 32 || (leb 9 c && leb c 13)

unfoldable pub remove_if : (ℕ → Bool) → Bytes → Bytes
remove_if p [] = []
remove_if p (c ∷ cs) = let rest = remove_if p cs in if p c then rest else c ∷ rest

-- A task, run with the line that is read from the terminal.
unfoldable pub run_task : Task → Bytes → ClientSession → World → ClientSession × World
unfolding remove_if
run_task (set_offline id) line s w =
    (s, execute w id (set_option (codes "online") false) (some online_set))
run_task (ask_code id) line s w =
    let code = remove_if (λ c. c == 10) (remove_if is_space line) in
    if is_empty code
    then (record s { auth_state = wait_token }, w)
    else (s, execute w id (check_authentication_code code) (some (code_checked id)))
run_task (ask_password id) line s w =
    let password = remove_if (λ c. c == 10) line in
    if is_empty password
    then (record s { auth_state = wait_token }, w)
    else (s, execute w id (check_authentication_password password) (some (password_checked id)))
