-- ===== src/Manager/Routing.antt =====
-- src/core/manager/SessionManager.cpp: whom `dispatchResponse` reaches.
use neo_group_captcha_bot.Common.{
  ℕ, ◌≡◌, ◌≢◌, refl, ap, ◌∙◌, true, Option, none, some, ℤ, nat_eq, int_eq, arith,
}
use neo_group_captcha_bot.ConcurrentHashMap
use neo_group_captcha_bot.ConcurrentHashMap.Laws.{IsWf, get-remove}
use neo_group_captcha_bot.Td.{Object, Response}
use neo_group_captcha_bot.State.{Callback, ClientSession, World, returned}
use neo_group_captcha_bot.Session.Auth.{captured, run_callback}
use neo_group_captcha_bot.Session.Update.{Env, handle_update}
use neo_group_captcha_bot.Manager.Frame.{handle_update-Keeps}
use neo_group_captcha_bot.Manager.Dispatch.{get_session-store_session}
use neo_group_captcha_bot.Manager.{
  get_session, store_session, call_back, on_found, on_captured, answer_request, deliver,
  dispatch_object, dispatch_response, with_manager,
}

abbrev pub waiting_for : World → ℕ → Option Callback
waiting_for w id = ConcurrentHashMap.get w.manager.query_callbacks id

abbrev pub response_to : ℤ → ℕ → Object → Response
response_to client_id id object = record {
  client_id = client_id;
  request_id = id;
  object = some object;
}

call_back-callbacks :
    (callback : Callback) (result : Object) (w : World)
    → (call_back callback result w).manager.query_callbacks ≡ w.manager.query_callbacks
unfolding call_back on_captured on_found store_session
call_back-callbacks callback result w = ground arith

answered :
    (o : Option Callback) (w : World) (id : ℕ) (object : Object)
    → IsWf w.manager.query_callbacks
    → waiting_for w id ≡ o
    → waiting_for (answer_request o w id object) id ≡ none
unfolding answer_request
answered none w id object v e = e
answered (some callback) w id object v e =
    ap (λ m. ConcurrentHashMap.get m id) (call_back-callbacks callback object _)
    ∙ ground (arith, get-remove w.manager.query_callbacks id id v)

dispatch_request :
    (w : World) (env : Env) (client_id : ℤ) (id : ℕ) (object : Object)
    → id ≢ 0
    → dispatch_object w env client_id id object
      ≡ (answer_request (waiting_for w id) w id object, returned true)
unfolding dispatch_object
dispatch_request w env client_id id object h = ground arith

-- A response to a request (under an id that is not 0, from a map of callbacks in which no id occurs
-- twice) runs its callback at most once: afterwards no callback waits for that id, and a second
-- response under the same id changes nothing.
pub dispatch_once :
    (w : World) (env later : Env) (client_id : ℤ) (id : ℕ) (object again : Object)
    → IsWf w.manager.query_callbacks
    → id ≢ 0
    → let w1 = (dispatch_response w env (response_to client_id id object)).0 in
      (waiting_for w1 id ≡ none)
      × ((dispatch_response w1 later (response_to client_id id again)).0 ≡ w1)
unfolding dispatch_response
dispatch_once w env later client_id id object again v h =
    let w1 = answer_request (waiting_for w id) w id object in
    let gone = answered (waiting_for w id) w id object v refl in
    let second : (dispatch_object w1 later client_id id again).0 ≡ w1 =
      unfold answer_request in
      ap (λ r. r.0) (dispatch_request w1 later client_id id again h)
      ∙ ap (λ o. answer_request o w1 id again) gone in
    rw (dispatch_request w env client_id id object h) (gone, second)

-- The world without the entry of a callback.
abbrev forgotten : World → ℕ → World
forgotten w id = with_manager w (record (w.manager) {
  query_callbacks = (ConcurrentHashMap.remove w.manager.query_callbacks id).0;
})

pub same_sessions :
    (w w' : World) (j : ℤ)
    → w'.manager.client_sessions ≡ w.manager.client_sessions
    → get_session w' j ≡ get_session w j
unfolding get_session
same_sessions w w' j e = ap (λ m. ConcurrentHashMap.get m j) e

store_reaches :
    (w w' : World) (id j : ℤ) (s s' : ClientSession)
    → w'.manager.client_sessions ≡ w.manager.client_sessions
    → get_session w id ≡ some s
    → j ≢ id
    → (get_session (store_session w' id s') id ≡ some s')
      × (get_session (store_session w' id s') j ≡ get_session w j)
store_reaches w w' id j s s' e f h =
    let same = λ (i : ℤ). same_sessions w w' i e in
    (
      ground (arith, get_session-store_session w' id id s', same id, int_eq.beq_iff id id),
      ground (arith, get_session-store_session w' id j s', same j, int_eq.beq_iff id j, h),
    )

-- The result of a request for which a callback waits reaches the session that the callback
-- captured, if that is in the map, and nobody else's: that session is what the callback makes of
-- it, every other session is as it was.
pub callback_reaches :
    (w : World) (env : Env) (client_id sid j : ℤ) (id : ℕ) (object : Object) (callback : Callback)
    (s : ClientSession)
    → id ≢ 0
    → waiting_for w id ≡ some callback
    → captured callback ≡ some sid
    → get_session w sid ≡ some s
    → j ≢ sid
    → let w1 = (dispatch_response w env (response_to client_id id object)).0 in
      (get_session w1 sid ≡ some (run_callback callback object s))
      × (get_session w1 j ≡ get_session w j)
unfolding dispatch_response
callback_reaches w env client_id sid j id object callback s h e c f g =
    rw (dispatch_request w env client_id id object h, e)
      (unfold answer_request call_back in
        rw c (
          unfold on_captured in
          let found : get_session (forgotten w id) sid ≡ some s = unfold get_session in f in
          rw found (
            unfold on_found in
            store_reaches w (forgotten w id) sid j s (run_callback callback object s) refl f g)))

-- An update goes to the session of its client, if that is in the map, and no other session changes;
-- its end is the end of that session's handler.
pub update_reaches :
    (w : World) (env : Env) (client_id j : ℤ) (object : Object) (s : ClientSession)
    → get_session w client_id ≡ some s
    → j ≢ client_id
    → let (w1, exit) = dispatch_response w env (response_to client_id 0 object) in
      let r = handle_update s w env (some object) in
      (get_session w1 client_id ≡ some r.session)
      × (exit ≡ r.exit)
      × (get_session w1 j ≡ get_session w j)
unfolding dispatch_response dispatch_object deliver
update_reaches w env client_id j object s f g =
    let r = handle_update s w env (some object) in
    let (there, others) =
      store_reaches w r.world client_id j s r.session (handle_update-Keeps s w env object).sessions
        f g in
    rw f (there, refl, others)
