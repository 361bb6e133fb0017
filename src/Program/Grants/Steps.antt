-- ===== src/Program/Grants/Steps.antt =====
-- src/core/startup.cpp and src/core/manager: the authorization of each session through the steps of
-- the program.
use neo_group_captcha_bot.Common.{
  ℕ, ◌≡◌, refl, inl, inr, false, not, List, [], ◌∷◌, Option, none, some, ℤ, Bytes, All, int_eq,
  nat_eq, ◌==◌, Bool-cases, arith,
}
use neo_group_captcha_bot.Td.{Object, ok, ready, update_authorization_state}
use neo_group_captcha_bot.State.{
  AuthState, authorized, Callback, bot_token_checked, ClientSession, World, MessageHandler,
}
use neo_group_captcha_bot.Session.{log_in_with_bot_token, log_in_with_phone_number}
use neo_group_captcha_bot.Session.Auth.{captured, run_callback}
use neo_group_captcha_bot.Session.Update.{Env, handle_update}
use neo_group_captcha_bot.Session.Trace.{
  grants, updates, called_back, act, logs_in_bot, logs_in_user, runs,
}
use neo_group_captcha_bot.Session.Trace.Authorized.{
  Moves, update-Moves, callback-Moves, act-Moves, task-Moves,
}
use neo_group_captcha_bot.Manager.{
  get_session, on_found, on_captured, call_back, answer_request, deliver, dispatch_object,
  dispatch_response,
}
use neo_group_captcha_bot.Manager.Frame.{handle_update-Keeps}
use neo_group_captcha_bot.Program.{
  Event, creates, asks_option, sets_handler, dispatches, on_session, set_message_handler, step, run,
}
use neo_group_captcha_bot.Program
use neo_group_captcha_bot.Program.Grants.{
  Authorized, lets_in, IsQuiet, same-Authorized, store-Authorized, on_session-Authorized,
  create-Authorized, execute-sessions, bot-sessions, user-sessions, task-sessions,
}

ungranted :
    (a : _) (x y : AuthState) → grants a ≡ false → Moves a x y → y ≡ authorized → x ≡ authorized
ungranted a x y g m h = ground (arith, g, m.earned h)

callback-grants :
    (callback : Callback) (result : Object)
    → lets_in (some result) ≡ false
    → grants (called_back callback result) ≡ false
callback-grants (bot_token_checked i) ok h = h
callback-grants callback result h = refl

update-grants : (env : Env) (o : Object) → lets_in (some o) ≡ false → grants (updates env o) ≡ false
update-grants env (update_authorization_state (some ready)) h = h
update-grants env o h = refl

found-Authorized :
    (w : World) (i id : ℤ) (callback : Callback) (result : Object) (f : Option ClientSession)
    → get_session w i ≡ f
    → lets_in (some result) ≡ false
    → Authorized (on_found f i callback result w) id
    → Authorized w id
unfolding on_found
found-Authorized w i id callback result none e h a = a
found-Authorized w i id callback result (some s) e h a =
    store-Authorized w w i id s (run_callback callback result s) refl e
      (ungranted (called_back callback result) _ _ (callback-grants callback result h)
        (callback-Moves callback result s))
      a

captured-Authorized :
    (w : World) (id : ℤ) (callback : Callback) (result : Object) (o : Option ℤ)
    → lets_in (some result) ≡ false
    → Authorized (on_captured o callback result w) id
    → Authorized w id
unfolding on_captured
captured-Authorized w id callback result none h a = a
captured-Authorized w id callback result (some i) h a =
    found-Authorized w i id callback result (get_session w i) refl h a

answer-Authorized :
    (w : World) (id : ℤ) (request_id : ℕ) (object : Object) (o : Option Callback)
    → lets_in (some object) ≡ false
    → Authorized (answer_request o w request_id object) id
    → Authorized w id
unfolding answer_request call_back
answer-Authorized w id request_id object none h a = a
answer-Authorized w id request_id object (some callback) h a =
    same-Authorized w _ id refl (captured-Authorized _ id callback object (captured callback) h a)

deliver-Authorized :
    (w : World) (env : Env) (i id : ℤ) (object : Object) (o : Option ClientSession)
    → get_session w i ≡ o
    → lets_in (some object) ≡ false
    → Authorized (deliver o w env i object).0 id
    → Authorized w id
unfolding deliver
deliver-Authorized w env i id object none e h a = a
deliver-Authorized w env i id object (some s) e h a =
    let r = handle_update s w env (some object) in
    store-Authorized w r.world i id s r.session (handle_update-Keeps s w env object).sessions e
      (ungranted (updates env object) _ _ (update-grants env object h)
        (update-Moves env object s w))
      a

object-Authorized :
    (w : World) (env : Env) (i id : ℤ) (request_id : ℕ) (object : Object)
    → lets_in (some object) ≡ false
    → Authorized (dispatch_object w env i request_id object).0 id
    → Authorized w id
unfolding dispatch_object
object-Authorized w env i id request_id object h = elim (Bool-cases (not (request_id == 0))) [
  | inl c ↦ rw c (answer-Authorized w id request_id object _ h)
  | inr c ↦ rw c (deliver-Authorized w env i id object (get_session w i) refl h)
]

response-Authorized :
    (w : World) (env : Env) (i id : ℤ) (request_id : ℕ) (object : Option Object)
    → lets_in object ≡ false
    → Authorized
        (dispatch_response w env
          (record { client_id = i; request_id = request_id; object = object })).0
        id
    → Authorized w id
unfolding dispatch_response
response-Authorized w env i id request_id none h a = a
response-Authorized w env i id request_id (some object) h a =
    object-Authorized w env i id request_id object h a

bot_not_let_in :
    (s : ClientSession) (w : World) (token : Bytes)
    → (log_in_with_bot_token s w token).0.auth_state ≡ authorized
    → s.auth_state ≡ authorized
unfolding act
bot_not_let_in s w token =
    ungranted (logs_in_bot token) _ _ refl (act-Moves (logs_in_bot token) s w)

user_not_let_in :
    (s : ClientSession) (w : World) (phone : Bytes)
    → (log_in_with_phone_number s w phone).0.auth_state ≡ authorized
    → s.auth_state ≡ authorized
unfolding act
user_not_let_in s w phone =
    ungranted (logs_in_user phone) _ _ refl (act-Moves (logs_in_user phone) s w)

handler_not_let_in :
    (s : ClientSession) (h : MessageHandler)
    → (set_message_handler s h).auth_state ≡ authorized
    → s.auth_state ≡ authorized
unfolding set_message_handler
handler_not_let_in s h e = e

pub step-Authorized :
    (w : World) (e : Event) (id : ℤ) → IsQuiet e → Authorized (step w e) id → Authorized w id
unfolding step
step-Authorized w (creates i parameters spawn) id q a = create-Authorized w i id parameters spawn a
step-Authorized w (asks_option i name) id q a =
    same-Authorized w _ id (execute-sessions w i _ none) a
step-Authorized w (Program.logs_in_bot i token) id q a =
    on_session-Authorized w i id _ (get_session w i) refl (λ s. bot-sessions s w token)
      (λ s. bot_not_let_in s w token) a
step-Authorized w (Program.logs_in_user i phone) id q a =
    on_session-Authorized w i id _ (get_session w i) refl (λ s. user-sessions s w phone)
      (λ s. user_not_let_in s w phone) a
step-Authorized w (sets_handler i h) id q a =
    on_session-Authorized w i id _ (get_session w i) refl (λ s. refl) (λ s. handler_not_let_in s h)
      a
step-Authorized w (dispatches env response) id q a =
    response-Authorized w env response.client_id id response.request_id response.object q a
step-Authorized w (Program.runs i task line) id q a =
    on_session-Authorized w i id _ (get_session w i) refl (λ s. task-sessions task line s w)
      (λ s. ungranted (runs task line) _ _ refl (task-Moves task line s w)) a

-- While the server lets nobody in, no session becomes authorized.
pub run-Authorized :
    (w : World) (es : List Event) (id : ℤ)
    → All IsQuiet es
    → Authorized (run w es) id
    → Authorized w id
unfolding run
run-Authorized w [] id q a = a
run-Authorized w (e ∷ es) id (q, qs) a =
    step-Authorized w e id q (run-Authorized (step w e) es id qs a)
