-- ===== src/Manager.antt =====
-- src/core/manager/SessionManager.cpp: `createSession`, `getSession`, `dispatchResponse` and the
-- looper. The id that `create_client_id` gives, the outcome of `pthread_create` and the responses
-- that `receive` gives are arguments.
pub mod Requests
pub mod Frame
pub mod Dispatch
pub mod Routing
pub mod Looper
use neo_group_captcha_bot.Common.{
  ℕ, Bool, true, false, not, List, [], ◌∷◌, Option, none, some, ℤ, pos, ltb_ℤ, nat_eq, int_eq, ◌==◌,
  if◌then◌else◌,
}
use neo_group_captcha_bot.ConcurrentHashMap
use neo_group_captcha_bot.ThreadPool.{Spawn, created, failed}
use neo_group_captcha_bot.Td.{TdLibParameters, Object, Response}
use neo_group_captcha_bot.State.{
  Callback, Task, ClientSession, SessionManager, World, Exit, returned, threw, new_session,
}
use neo_group_captcha_bot.Requests.{get_client_manager}
use neo_group_captcha_bot.Session.Auth.{Reaction, run_callback, run_task, captured}
use neo_group_captcha_bot.Session.Update.{Env, handle_update}

abbrev pub with_manager : World → SessionManager → World
with_manager w m = record w { manager = m }

-- `getSession`.
unfoldable pub get_session : World → ℤ → Option ClientSession
get_session w id = ConcurrentHashMap.get w.manager.client_sessions id

-- The object behind the pointer in the map is written through the pointer.
unfoldable pub store_session : World → ℤ → ClientSession → World
store_session w id s = with_manager w (record (w.manager) {
  client_sessions = ConcurrentHashMap.set_value w.manager.client_sessions id s;
})

unfoldable pub start_looper : SessionManager → Spawn → SessionManager × Exit
start_looper m (created thread) =
    (record m { worker_thread = thread; looper_running = true }, returned true)
start_looper m (failed rc) = (record m { looper_running = true }, threw)

-- The session is in the map also if the exception is thrown.
unfoldable pub create_session : World → ℤ → TdLibParameters → Spawn → World × Exit
unfolding get_client_manager new_session start_looper
create_session w id parameters spawn =
    let m1 = get_client_manager w.manager in
    let m2 = record m1 {
      client_sessions = ConcurrentHashMap.put m1.client_sessions id (new_session id parameters);
    } in
    if m2.worker_thread == 0
    then (let (m3, exit) = start_looper m2 spawn in (with_manager w m3, exit))
    else (with_manager w m2, returned true)

-- It does nothing to the state: the request is not implemented.
unfoldable pub terminate_session : World → ℤ → World
terminate_session w id = w

unfoldable pub on_found : Option ClientSession → ℤ → Callback → Object → World → World
on_found none id callback result w = w
on_found (some s) id callback result w = store_session w id (run_callback callback result s)

-- A callback is run on the session that it captured.
unfoldable pub on_captured : Option ℤ → Callback → Object → World → World
on_captured none callback result w = w
on_captured (some id) callback result w = on_found (get_session w id) id callback result w

unfoldable pub call_back : Callback → Object → World → World
unfolding on_captured on_found
call_back callback result w = on_captured (captured callback) callback result w

-- The callback is moved out, its entry is removed, and then it is called.
unfoldable pub answer_request : Option Callback → World → ℕ → Object → World
unfolding call_back
answer_request none w request_id object = w
answer_request (some callback) w request_id object = call_back callback object (
    with_manager w (record (w.manager) {
      query_callbacks = (ConcurrentHashMap.remove w.manager.query_callbacks request_id).0;
    }))

-- `onInterceptUpdate`.
abbrev pub on_intercept_update : ℤ → Object → Bool
on_intercept_update client_id object = false

unfoldable pub deliver : Option ClientSession → World → Env → ℤ → Object → World × Exit
deliver none w env client_id object = (w, returned false)
deliver (some s) w env client_id object =
    let r = handle_update s w env (some object) in
    (store_session r.world client_id r.session, r.exit)

unfoldable pub dispatch_object : World → Env → ℤ → ℕ → Object → World × Exit
unfolding answer_request deliver
dispatch_object w env client_id request_id object =
    if not (request_id == 0)
    then (
      answer_request (ConcurrentHashMap.get w.manager.query_callbacks request_id) w request_id
          object,
      returned true,
    )
    else if on_intercept_update client_id object
    then (w, returned true)
    else deliver (get_session w client_id) w env client_id object

unfoldable pub dispatch_response : World → Env → Response → World × Exit
unfolding dispatch_object
dispatch_response w env response = elim response.object [
  | none ↦ (w, returned true)
  | some object ↦ dispatch_object w env response.client_id response.request_id object
]

abbrev pub is_returned : Exit → Bool
is_returned (returned b) = true
is_returned _ = false

-- The loop, over the responses that `receive` gives: it goes on while the flag is set, and an
-- exception ends it.
unfoldable pub run_looper : World → List (Env × Response) → World × Exit
run_looper w [] = (w, returned true)
run_looper w ((env, response) ∷ rest) =
    let more =
      (let (w', exit) = dispatch_response w env response in
        if is_returned exit then run_looper w' rest else (w', exit)) in
    if w.manager.looper_running then more else (w, returned true)
