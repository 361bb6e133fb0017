-- ===== src/Program/Threads/Steps.antt =====
-- The steps of the program on two worlds that differ in their pools at most.
use neo_group_captcha_bot.Common.{
  ℕ, nat_eq, ◌≡◌, refl, ap, inl, inr, Bool-cases, sym, ◌∙◌, not, ◌||◌, List, [], ◌∷◌, Option, none,
  some, ℤ, Bytes, ◌==◌, is_empty, if◌then◌else◌,
}
use neo_group_captcha_bot.ConcurrentHashMap
use neo_group_captcha_bot.ThreadPool.{Spawn, created, failed}
use neo_group_captcha_bot.Td.{Object, Response, TdLibParameters}
use neo_group_captcha_bot.State.{
  Callback, Task, set_offline, ask_code, ask_password, ClientSession, World,
}
use neo_group_captcha_bot.Requests.{get_client_manager}
use neo_group_captcha_bot.Session.{
  is_authorized, wants_token, is_initialization, log_in_with_bot_token, log_in_send, log_in_mark,
  log_in_with_phone_number,
}
use neo_group_captcha_bot.Session.Auth.{run_task, captured, remove_if, is_space}
use neo_group_captcha_bot.Session.Update.{Env}
use neo_group_captcha_bot.Manager.{
  get_session, store_session, create_session, start_looper, dispatch_response, dispatch_object,
  answer_request, call_back, deliver, on_found, on_captured,
}
use neo_group_captcha_bot.Program.{
  Event, creates, asks_option, logs_in_bot, logs_in_user, sets_handler, dispatches, runs,
  on_session, step, run,
}
use neo_group_captcha_bot.Program.Threads.Erasure.{
  erase, Alike, erase-Alike, execute-Alike, parameters-Alike,
}
use neo_group_captcha_bot.Program.Threads.Handlers.{update-Alike}

store-erase :
    (w : World) (id : ℤ) (s : ClientSession)
    → erase (store_session w id s) ≡ store_session (erase w) id s
unfolding erase store_session
store-erase w id s = refl

store-Alike :
    (w v : World) (id : ℤ) (s t : ClientSession)
    → s ≡ t
    → Alike w v
    → Alike (store_session w id s) (store_session v id t)
store-Alike w v id s t e f =
    store-erase w id s
    ∙ ap (λ x. store_session x id s) f
    ∙ sym (store-erase v id s)
    ∙ ap (λ x. erase (store_session v id x)) e

-- Calls of a method through a pointer, which may differ in their worlds only.
on_session-Alike :
    (o : Option ClientSession) (id : ℤ) (f : ClientSession → World → ClientSession × World)
    (w : World)
    → ((s : ClientSession) → ((f s w).0 ≡ (f s (erase w)).0) × Alike (f s w).1 (f s (erase w)).1)
    → Alike (on_session o id f w) (on_session o id f (erase w))
unfolding on_session
on_session-Alike none id f w h = erase-Alike w
on_session-Alike (some s) id f w h = store-Alike _ _ id _ _ (h s).0 (h s).1

found-Alike :
    (o : Option ClientSession) (id : ℤ) (callback : Callback) (result : Object) (w : World)
    → Alike (on_found o id callback result w) (on_found o id callback result (erase w))
unfolding on_found
found-Alike none id callback result w = erase-Alike w
found-Alike (some s) id callback result w = store-Alike w (erase w) id _ _ refl (erase-Alike w)

captured-Alike :
    (o : Option ℤ) (callback : Callback) (result : Object) (w : World)
    → Alike (on_captured o callback result w) (on_captured o callback result (erase w))
unfolding on_captured get_session erase
captured-Alike none callback result w = refl
captured-Alike (some id) callback result w = found-Alike (get_session w id) id callback result w

request-Alike :
    (o : Option Callback) (w : World) (id : ℕ) (object : Object)
    → Alike (answer_request o w id object) (answer_request o (erase w) id object)
unfolding answer_request call_back erase
request-Alike none w id object = erase-Alike w
request-Alike (some callback) w id object = captured-Alike (captured callback) callback object _

deliver-Alike :
    (o : Option ClientSession) (w : World) (env : Env) (client_id : ℤ) (object : Object)
    → Alike (deliver o w env client_id object).0 (deliver o (erase w) env client_id object).0
unfolding deliver
deliver-Alike none w env client_id object = erase-Alike w
deliver-Alike (some s) w env client_id object =
    let v = update-Alike s w env object in store-Alike _ _ client_id _ _ v.sessions v.worlds

dispatch-Alike :
    (w : World) (env : Env) (client_id : ℤ) (id : ℕ) (o : Option Object)
    → let r : Response = record { client_id = client_id; request_id = id; object = o } in
      Alike (dispatch_response w env r).0 (dispatch_response (erase w) env r).0
unfolding dispatch_response dispatch_object get_session erase
dispatch-Alike w env client_id id none = refl
dispatch-Alike w env client_id id (some object) = elim (Bool-cases (id == 0)) [
  | inl e ↦
      rw (e, not, if◌then◌else◌) (deliver-Alike (get_session w client_id) w env client_id object)
  | inr e ↦
      rw (e, not, if◌then◌else◌)
        (request-Alike (ConcurrentHashMap.get w.manager.query_callbacks id) w id object)
]

create-Alike :
    (w : World) (id : ℤ) (parameters : TdLibParameters) (spawn : Spawn)
    → Alike
        (create_session w id parameters spawn).0
        (create_session (erase w) id parameters spawn).0
unfolding create_session get_client_manager start_looper erase
create-Alike w id parameters (created t) = elim (Bool-cases (w.manager.worker_thread == 0)) [
  | inl e ↦ rw (e, if◌then◌else◌) refl
  | inr e ↦ rw (e, if◌then◌else◌) refl
]
create-Alike w id parameters (failed t) = elim (Bool-cases (w.manager.worker_thread == 0)) [
  | inl e ↦ rw (e, if◌then◌else◌) refl
  | inr e ↦ rw (e, if◌then◌else◌) refl
]

bot-Alike :
    (s : ClientSession) (w : World) (token : Bytes)
    → ((log_in_with_bot_token s w token).0 ≡ (log_in_with_bot_token s (erase w) token).0)
      × Alike (log_in_with_bot_token s w token).1 (log_in_with_bot_token s (erase w) token).1
unfolding log_in_with_bot_token log_in_send log_in_mark
bot-Alike s w token = elim (Bool-cases (is_empty token || is_authorized s)) [
  | inl e ↦ rw (e, if◌then◌else◌) (refl, erase-Alike w)
  | inr e ↦ elim (Bool-cases (wants_token s.auth_state)) [
    | inl f ↦ rw (e, f, if◌then◌else◌) (refl, execute-Alike w _ _ _)
    | inr f ↦ rw (e, f, if◌then◌else◌) (refl, erase-Alike w)
  ]
]

user-Alike :
    (s : ClientSession) (w : World) (phone : Bytes)
    → ((log_in_with_phone_number s w phone).0 ≡ (log_in_with_phone_number s (erase w) phone).0)
      × Alike (log_in_with_phone_number s w phone).1 (log_in_with_phone_number s (erase w) phone).1
unfolding log_in_with_phone_number
user-Alike s w phone = elim (Bool-cases (is_empty phone || is_authorized s)) [
  | inl e ↦ rw (e, if◌then◌else◌) (refl, erase-Alike w)
  | inr e ↦ elim (Bool-cases (wants_token s.auth_state)) [
    | inl f ↦ rw (e, f, if◌then◌else◌) (refl, execute-Alike w _ _ _)
    | inr f ↦ elim (Bool-cases (is_initialization s.auth_state)) [
      | inl g ↦ rw (e, f, g, if◌then◌else◌) (refl, parameters-Alike _ w)
      | inr g ↦ rw (e, f, g, if◌then◌else◌) (refl, erase-Alike w)
    ]
  ]
]

task-Alike :
    (task : Task) (line : Bytes) (s : ClientSession) (w : World)
    → ((run_task task line s w).0 ≡ (run_task task line s (erase w)).0)
      × Alike (run_task task line s w).1 (run_task task line s (erase w)).1
unfolding run_task
task-Alike (set_offline id) line s w = (refl, execute-Alike w _ _ _)
task-Alike (ask_code id) line s w =
    elim (Bool-cases (is_empty (remove_if (λ c. c == 10) (remove_if is_space line)))) [
      | inl e ↦ rw (e, if◌then◌else◌) (refl, erase-Alike w)
      | inr e ↦ rw (e, if◌then◌else◌) (refl, execute-Alike w _ _ _)
    ]
task-Alike (ask_password id) line s w =
    elim (Bool-cases (is_empty (remove_if (λ c. c == 10) line))) [
      | inl e ↦ rw (e, if◌then◌else◌) (refl, erase-Alike w)
      | inr e ↦ rw (e, if◌then◌else◌) (refl, execute-Alike w _ _ _)
    ]

step-Alike : (w : World) (e : Event) → Alike (step w e) (step (erase w) e)
unfolding step get_session erase
step-Alike w (creates id parameters spawn) = create-Alike w id parameters spawn
step-Alike w (asks_option id name) = execute-Alike w id _ none
step-Alike w (logs_in_bot id token) =
    on_session-Alike (get_session w id) id _ w (λ s. bot-Alike s w token)
step-Alike w (logs_in_user id phone) =
    on_session-Alike (get_session w id) id _ w (λ s. user-Alike s w phone)
step-Alike w (sets_handler id h) =
    on_session-Alike (get_session w id) id _ w (λ s. (refl, erase-Alike w))
step-Alike w (dispatches env response) =
    dispatch-Alike w env response.client_id response.request_id response.object
step-Alike w (runs id task line) =
    on_session-Alike (get_session w id) id _ w (λ s. task-Alike task line s w)

-- What the events make of everything but the pools does not depend on the pools.
pub run-Alike : (es : List Event) (w v : World) → Alike w v → Alike (run w es) (run v es)
unfolding run
run-Alike [] w v a = a
run-Alike (e ∷ es) w v a =
    run-Alike es (step w e) (step v e)
      (step-Alike w e ∙ ap (λ x. erase (step x e)) a ∙ sym (step-Alike v e))
