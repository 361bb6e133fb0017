-- ===== src/Program/Messages/Runs.antt =====
-- What is kept by every step of the program's threads, if the requests, the pools and the greetings
-- keep it.
use neo_group_captcha_bot.Common.{
  ℕ, ◌≡◌, refl, List, [], ◌∷◌, Option, none, some, ℤ, Bytes, All, Bool-cases, inl, inr, not, ==_iff,
  if◌then◌else◌, arith, ◌==◌, nat_eq,
}
use neo_group_captcha_bot.ConcurrentHashMap
use neo_group_captcha_bot.ThreadPool.{Spawn, created, failed}
use neo_group_captcha_bot.Td.{
  TdLibParameters, Message, check_authentication_bot_token, set_authentication_phone_number,
  check_authentication_code, check_authentication_password, get_option, Object,
}
use neo_group_captcha_bot.State.{
  Callback, Task, set_offline, ask_code, ask_password, ClientSession, World, log_if_response_error,
  phone_number_set, code_checked, password_checked,
}
use neo_group_captcha_bot.Requests.{get_client_manager}
use neo_group_captcha_bot.Session.{log_in_with_bot_token, log_in_send, log_in_with_phone_number}
use neo_group_captcha_bot.Session.Auth.{run_task, captured, remove_if, is_space}
use neo_group_captcha_bot.Session.Update.{Env, handle_update}
use neo_group_captcha_bot.Manager.{
  get_session, store_session, create_session, dispatch_response, dispatch_object, answer_request,
  call_back, deliver, on_found, on_captured,
}
use neo_group_captcha_bot.Program.{
  Event, creates, asks_option, logs_in_bot, logs_in_user, sets_handler, dispatches, runs,
  on_session, step, run,
}
use neo_group_captcha_bot.Program.Messages.{Preserved, Allows, parameters-Kept, handle_update-Kept}

-- A response under an id that is not 0 is no update.
abbrev pub Permits : (Message → Bytes → Type 0) → Event → Type 0
Permits A (dispatches env response) =
    response.request_id ≡ 0 → elim response.object [ none ↦ Unit | some o ↦ Allows A o ]
Permits A _ = Unit

module _ (I : World → Type 0) (A : Message → Bytes → Type 0) (rules : Preserved I A) where
  store-Kept : (w : World) (id : ℤ) (s : ClientSession) → I w → I (store_session w id s)
  unfolding store_session
  store-Kept w id s v = rules.elsewhere w _ refl refl v

  on_session-Kept :
      (o : Option ClientSession) (id : ℤ) (f : ClientSession → World → ClientSession × World)
      (w : World)
      → ((s : ClientSession) → I (f s w).1)
      → I w
      → I (on_session o id f w)
  unfolding on_session
  on_session-Kept none id f w h v = v
  on_session-Kept (some s) id f w h v = store-Kept (f s w).1 id (f s w).0 (h s)

  on_found-Kept :
      (o : Option ClientSession) (id : ℤ) (callback : Callback) (result : Object) (w : World)
      → I w
      → I (on_found o id callback result w)
  unfolding on_found
  on_found-Kept none id callback result w v = v
  on_found-Kept (some s) id callback result w v = store-Kept w id _ v

  on_captured-Kept :
      (o : Option ℤ) (callback : Callback) (result : Object) (w : World)
      → I w
      → I (on_captured o callback result w)
  unfolding on_captured
  on_captured-Kept none callback result w v = v
  on_captured-Kept (some id) callback result w v =
      on_found-Kept (get_session w id) id callback result w v

  answer_request-Kept :
      (o : Option Callback) (w : World) (id : ℕ) (object : Object)
      → I w
      → I (answer_request o w id object)
  unfolding answer_request call_back
  answer_request-Kept none w id object v = v
  answer_request-Kept (some callback) w id object v =
      on_captured-Kept (captured callback) callback object _ (rules.elsewhere w _ refl refl v)

  deliver-Kept :
      (o : Option ClientSession) (w : World) (env : Env) (client_id : ℤ) (object : Object)
      → Allows A object
      → I w
      → I (deliver o w env client_id object).0
  unfolding deliver
  deliver-Kept none w env client_id object a v = v
  deliver-Kept (some s) w env client_id object a v =
      store-Kept _ client_id (handle_update s w env (some object)).session
        (handle_update-Kept I A rules s w env object a v)

  dispatch-Kept :
      (w : World) (env : Env) (client_id : ℤ) (id : ℕ) (o : Option Object)
      → (id ≡ 0 → elim o as (λ x. Type 0) [ none ↦ Unit | some object ↦ Allows A object ])
      → I w
      → I
          (dispatch_response w env
            (record { client_id = client_id; request_id = id; object = o })).0
  unfolding dispatch_response dispatch_object
  dispatch-Kept w env client_id id none a v = v
  dispatch-Kept w env client_id id (some object) a v = elim (Bool-cases (id == 0)) [
    | inl e ↦
        rw (e, if◌then◌else◌, not)
          (deliver-Kept (get_session w client_id) w env client_id object (a ((==_iff id 0).0 e)) v)
    | inr e ↦
        rw (e, if◌then◌else◌, not)
          (answer_request-Kept (ConcurrentHashMap.get w.manager.query_callbacks id) w id object v)
  ]

  create_session-Kept :
      (w : World) (id : ℤ) (parameters : TdLibParameters) (spawn : Spawn)
      → I w
      → I (create_session w id parameters spawn).0
  unfolding create_session get_client_manager
  create_session-Kept w id parameters (created t) v =
      rules.elsewhere w _ (ground arith) (ground arith) v
  create_session-Kept w id parameters (failed t) v =
      rules.elsewhere w _ (ground arith) (ground arith) v

  bot-Kept :
      (s : ClientSession) (w : World) (token : Bytes) → I w → I (log_in_with_bot_token s w token).1
  unfolding log_in_with_bot_token log_in_send
  bot-Kept s w token v = ground (
    arith,
    v,
    rules.requests w s.td_lib_object_id (check_authentication_bot_token token)
        (some log_if_response_error) refl v,
  )

  user-Kept :
      (s : ClientSession) (w : World) (phone : Bytes)
      → I w
      → I (log_in_with_phone_number s w phone).1
  unfolding log_in_with_phone_number
  user-Kept s w phone v = ground (
    arith,
    v,
    rules.requests w s.td_lib_object_id (set_authentication_phone_number phone)
        (some phone_number_set) refl v,
    parameters-Kept I A rules (record s { auth_user_phone = phone }) w v,
  )

  task-Kept :
      (task : Task) (line : Bytes) (s : ClientSession) (w : World)
      → I w
      → I (run_task task line s w).1
  unfolding run_task
  task-Kept (set_offline id) line s w v = rules.requests w _ _ _ refl v
  task-Kept (ask_code id) line s w v =
      let code = remove_if (λ c. c == 10) (remove_if is_space line) in
      ground (
        arith,
        v,
        rules.requests w id (check_authentication_code code) (some (code_checked id)) refl v,
      )
  task-Kept (ask_password id) line s w v =
      let password = remove_if (λ c. c == 10) line in
      ground (
        arith,
        v,
        rules.requests w id (check_authentication_password password) (some (password_checked id))
            refl v,
      )

  step-Kept : (w : World) (e : Event) → Permits A e → I w → I (step w e)
  unfolding step
  step-Kept w (creates id parameters spawn) a v = create_session-Kept w id parameters spawn v
  step-Kept w (asks_option id name) a v = rules.requests w id (get_option name) none refl v
  step-Kept w (logs_in_bot id token) a v =
      on_session-Kept (get_session w id) id _ w (λ s. bot-Kept s w token v) v
  step-Kept w (logs_in_user id phone) a v =
      on_session-Kept (get_session w id) id _ w (λ s. user-Kept s w phone v) v
  step-Kept w (sets_handler id h) a v = on_session-Kept (get_session w id) id _ w (λ s. v) v
  step-Kept w (dispatches env response) a v =
      dispatch-Kept w env response.client_id response.request_id response.object a v
  step-Kept w (runs id task line) a v =
      on_session-Kept (get_session w id) id _ w (λ s. task-Kept task line s w v) v

  pub run-Kept : (w : World) (es : List Event) → All (Permits A) es → I w → I (run w es)
  unfolding run
  run-Kept w [] a v = v
  run-Kept w (e ∷ es) a v = run-Kept (step w e) es a.1 (step-Kept w e a.0 v)
