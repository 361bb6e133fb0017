-- ===== src/Session/Machine.antt =====
-- src/core/manager/ClientSession.h, `AuthorizationState`, as a diagram: what happens to a session
-- as a label, and the edges between its states that carry it.
pub mod Diagram
use neo_group_captcha_bot.Common.{
  ◌≡◌, ◌≢◌, ◌==◌, true, false, none, some, List, [], ◌∷◌, is_empty, if◌then◌else◌,
}
use neo_group_captcha_bot.Td.{
  wait_phone_number, wait_code, wait_password, ready, Object, ok, update_authorization_state,
}
use neo_group_captcha_bot.State.{
  AuthState, initialization, wait_token, wait_response, authorized, bad_token, bot_token_checked,
  code_checked, password_checked, set_offline, ask_code, ask_password,
}
use neo_group_captcha_bot.Session.{wants_token}
use neo_group_captcha_bot.Session.Auth.{is_space, remove_if}
use neo_group_captcha_bot.Session.Trace.{
  Action, updates, called_back, logs_in_bot, logs_in_user, runs,
}

-- The server asks for a phone number, a code or a password, or says that the session is authorized;
-- a check accepts or refuses credentials; an empty line is typed at a prompt; a log-in is tried
-- with credentials that are not empty; or anything else.
pub data Label : Type 0 where
  phone_asked code_asked password_asked granted accepted refused gave_up tried other : Label

-- What a result says of credentials, where the label is `good` for `ok`.
abbrev pub judged : Object → Label → Label
judged ok good = good
judged _ good = refused

unfoldable pub label : Action → Label
unfolding remove_if
label (updates env (update_authorization_state (some wait_phone_number))) = phone_asked
label (updates env (update_authorization_state (some wait_code))) = code_asked
label (updates env (update_authorization_state (some wait_password))) = password_asked
label (updates env (update_authorization_state (some ready))) = granted
label (updates env object) = other
label (called_back (bot_token_checked id) result) = judged result granted
label (called_back (code_checked id) result) = judged result accepted
label (called_back (password_checked id) result) = judged result accepted
label (called_back callback result) = other
label (logs_in_bot token) = if is_empty token then other else tried
label (logs_in_user phone) = if is_empty phone then other else tried
label (runs (set_offline id) line) = other
label (runs (ask_code id) line) =
    if is_empty (remove_if (λ c. c == 10) (remove_if is_space line)) then gave_up else other
label (runs (ask_password id) line) =
    if is_empty (remove_if (λ c. c == 10) line) then gave_up else other

-- No edge leads to CLOSED but its own.
pub data Edge : Label → AuthState → AuthState → Type 0 where
  rests : (x : AuthState) → Edge other x x
  no_credentials : Edge phone_asked initialization initialization
  credentials_sent : Edge phone_asked initialization wait_response
  asked_again : (x : AuthState) → x ≢ initialization → Edge phone_asked x wait_token
  asked_code : (x : AuthState) → Edge code_asked x AuthState.wait_code
  asked_password : (x : AuthState) → Edge password_asked x AuthState.wait_password
  let_in : (x : AuthState) → Edge granted x authorized
  goes_on : (x : AuthState) → Edge accepted x wait_response
  turned_away : (x : AuthState) → Edge refused x bad_token
  starts_over : (x : AuthState) → Edge gave_up x wait_token
  tries_again : (x : AuthState) → wants_token x ≡ true → Edge tried x wait_response
  not_yet : (x : AuthState) → wants_token x ≡ false → Edge tried x x

-- A way through the diagram, with its labels.
pub data Way : AuthState → List Label → AuthState → Type 0 where
  here : (x : AuthState) → Way x [] x
  further :
      {x y z : AuthState} {l : Label} {ls : List Label} → Edge l x y → Way y ls z → Way x (l ∷ ls) z
