-- ===== src/Session.antt =====
-- src/core/manager/ClientSession.cpp: the calls that send requests, and the log-in calls that the
-- main thread makes. A method gives the session and the world after it.
pub mod Texts
pub mod Auth
pub mod Options
pub mod Echo
pub mod Update
pub mod Trace
pub mod Machine
pub mod Answers
pub mod LogIn
use neo_group_captcha_bot.Common.{
  ℕ, Bool, true, false, ◌||◌, List, [], ◌∷◌, Option, none, some, ℤ, Bytes, codes, is_empty,
  if◌then◌else◌,
}
use neo_group_captcha_bot.Td.{
  Function, set_tdlib_parameters, set_option, check_authentication_bot_token,
  set_authentication_phone_number, send_message,
}
use neo_group_captcha_bot.State.{
  AuthState, initialization, wait_token, bad_token, authorized, wait_response, Callback,
  log_if_response_error, phone_number_set, text_sent, ClientSession, SessionManager, World,
}
use neo_group_captcha_bot.Requests.{send_request_with_client_id}

-- `execute`, for the session with this id.
unfoldable pub execute : World → ℤ → Function → Option Callback → World
execute w id request callback = record w {
  manager = send_request_with_client_id w.manager id request callback;
}

abbrev set_true : World → ℤ → Bytes → World
set_true w id name = execute w id (set_option name true) (some log_if_response_error)

-- The parameters are copied field by field; then four options are set.
unfoldable pub send_td_lib_parameters : ClientSession → World → World
send_td_lib_parameters s w =
    let id = s.td_lib_object_id in
    let w1 = execute w id (set_tdlib_parameters s.td_lib_parameters) (some log_if_response_error) in
    let w2 = set_true w1 id (codes "ignore_inline_thumbnails") in
    let w3 = set_true w2 id (codes "reuse_uploaded_photos_by_hash") in
    let w4 = set_true w3 id (codes "disable_persistent_network_statistics") in
    set_true w4 id (codes "disable_time_adjustment_protection")

unfoldable pub send_text_message : World → ℤ → ℤ → Bytes → ℕ → World
send_text_message w id chat_id text reply_id =
    execute w id (send_message chat_id reply_id text) (some text_sent)

abbrev pub is_authorized : ClientSession → Bool
is_authorized s = elim s.auth_state [ authorized ↦ true | _ ↦ false ]

-- `mAuthState == WAIT_TOKEN || mAuthState == BAD_TOKEN`
abbrev pub wants_token : AuthState → Bool
wants_token wait_token = true
wants_token bad_token = true
wants_token _ = false

abbrev pub is_initialization : AuthState → Bool
is_initialization initialization = true
is_initialization _ = false

-- `logInWithBotToken` up to the request; the flag says whether the state is set after it.
unfoldable pub log_in_send : ClientSession → World → Bytes → ClientSession × World × Bool
log_in_send s w bot_token =
    if is_empty bot_token || is_authorized s
    then (s, w, false)
    else if wants_token s.auth_state
    then (
      record s { auth_bot_token = bot_token },
      execute w s.td_lib_object_id (check_authentication_bot_token bot_token)
          (some log_if_response_error),
      true,
    )
    else (record s { auth_bot_token = bot_token }, w, false)

-- The assignment that comes after the request.
unfoldable pub log_in_mark : Bool → ClientSession → ClientSession
log_in_mark sent s = if sent then record s { auth_state = wait_response } else s

-- The whole call, when no update is handled between the request and the assignment.
unfoldable pub log_in_with_bot_token : ClientSession → World → Bytes → ClientSession × World
unfolding log_in_send log_in_mark
log_in_with_bot_token s w bot_token =
    let (s', w', sent) = log_in_send s w bot_token in (log_in_mark sent s', w')

unfoldable pub log_in_with_phone_number : ClientSession → World → Bytes → ClientSession × World
log_in_with_phone_number s w phone_number =
    if is_empty phone_number || is_authorized s
    then (s, w)
    else if wants_token s.auth_state
    then (
      record s { auth_user_phone = phone_number; auth_state = wait_response },
      execute w s.td_lib_object_id (set_authentication_phone_number phone_number)
          (some phone_number_set),
    )
    else if is_initialization s.auth_state
    then (
      record s { auth_user_phone = phone_number },
      send_td_lib_parameters (record s { auth_user_phone = phone_number }) w,
    )
    else (record s { auth_user_phone = phone_number }, w)
