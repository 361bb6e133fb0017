-- ===== src/Session/LogIn.antt =====
-- src/core/manager/ClientSession.cpp: `logInWithBotToken` and `logInWithPhoneNumber`, against the
-- updates that the looper handles at the same time.
use neo_group_captcha_bot.Common.{◌≡◌, true, false, List, [], some, Bytes, is_empty, arith}
use neo_group_captcha_bot.ThreadPool.{Spawn}
use neo_group_captcha_bot.Td.{
  wait_phone_number, check_authentication_bot_token, set_authentication_phone_number,
}
use neo_group_captcha_bot.State.{
  initialization, wait_response, ClientSession, World, phone_number_set, bot_token_checked,
}
use neo_group_captcha_bot.Session.{
  execute, log_in_with_bot_token, log_in_send, log_in_mark, wants_token, is_authorized,
}
use neo_group_captcha_bot.Session.Auth.{handle_update_authorization_state, on_wait_phone_number}
use neo_group_captcha_bot.Session.Trace.{Action, live}

-- A bot token that is given before the server asks for a phone number is the one that is checked
-- when it does, once: the session then waits for the response and no longer holds the token.
early_token_is_sent :
    (s : ClientSession) (w : World) (token : Bytes) (spawn : Spawn)
    → s.auth_state ≡ initialization
    → is_empty token ≡ false
    → let (s1, w1) = log_in_with_bot_token s w token in
      let r = handle_update_authorization_state s1 w1 spawn (some wait_phone_number) in
      (w1 ≡ w)
      × (r.world
          ≡ execute w s.td_lib_object_id
              (check_authentication_bot_token token)
              (some (bot_token_checked s.td_lib_object_id)))
      × (r.session.auth_state ≡ wait_response)
      × (r.session.auth_bot_token ≡ [])
unfolding log_in_with_bot_token log_in_send log_in_mark handle_update_authorization_state
    on_wait_phone_number
early_token_is_sent s w token spawn h e = ground arith

-- A bot token that is given after the server has asked for a phone number, while the session held
-- neither a token nor a number, is kept and not sent: the state is still INITIALIZATION.
late_token_not_sent :
    (s : ClientSession) (w : World) (token : Bytes) (spawn : Spawn)
    → s.auth_state ≡ initialization
    → s.auth_bot_token ≡ []
    → s.auth_user_phone ≡ []
    → is_empty token ≡ false
    → let r = handle_update_authorization_state s w spawn (some wait_phone_number) in
      let (s1, w1) = log_in_with_bot_token r.session r.world token in
      (w1 ≡ w) × (s1.auth_state ≡ initialization) × (s1.auth_bot_token ≡ token)
unfolding log_in_with_bot_token log_in_send log_in_mark handle_update_authorization_state
    on_wait_phone_number
late_token_not_sent s w token spawn h a b e = ground arith

-- If the looper changes the session in any way between the request that `logInWithBotToken` sends
-- and the assignment after it, the session ends up waiting for a response: an authorization that
-- came in between is overwritten.
log_in_overwrites :
    (s : ClientSession) (w : World) (token : Bytes) (between : List Action)
    → wants_token s.auth_state ≡ true
    → is_empty token ≡ false
    → let (s1, w1, sent) = log_in_send s w token in
      let (s2, w2) = live s1 w1 between in
      ((log_in_mark sent s2).auth_state ≡ wait_response)
      × (is_authorized (log_in_mark sent s2) ≡ false)
unfolding log_in_send log_in_mark
log_in_overwrites s w token between h e = ground arith

-- The phone number is sent, and then kept: asked again from the first state, the session sends it
-- again. The bot token, empty before, is what is cleared.
phone_number_kept :
    (s : ClientSession) (w : World) (spawn : Spawn)
    → s.auth_state ≡ initialization
    → s.auth_bot_token ≡ []
    → is_empty s.auth_user_phone ≡ false
    → let r = handle_update_authorization_state s w spawn (some wait_phone_number) in
      (r.session ≡ record s { auth_state = wait_response })
      × (r.world
          ≡ execute w s.td_lib_object_id
              (set_authentication_phone_number s.auth_user_phone)
              (some phone_number_set))
unfolding handle_update_authorization_state on_wait_phone_number
phone_number_kept s w spawn h a b = ground arith
