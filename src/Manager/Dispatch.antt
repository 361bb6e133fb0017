-- ===== src/Manager/Dispatch.antt =====
-- src/core/manager/SessionManager.cpp: `dispatchResponse`.
use neo_group_captcha_bot.Common.{
  ℕ, ◌≡◌, ◌&&◌, Option, none, some, ℤ, nat_eq, int_eq, if◌then◌else◌, arith,
}
use neo_group_captcha_bot.UnorderedMap.{is_some}
use neo_group_captcha_bot.ConcurrentHashMap
use neo_group_captcha_bot.ConcurrentHashMap.Laws.{get-remove, remove-IsWf, get-set_value}
use neo_group_captcha_bot.Td.{Object, Response}
use neo_group_captcha_bot.State.{Callback, ClientSession, SessionManager, World}
use neo_group_captcha_bot.Session.Auth.{captured, run_callback}
use neo_group_captcha_bot.Session.Update.{Env, handle_update}
use neo_group_captcha_bot.Manager.Requests.{Room}
use neo_group_captcha_bot.Manager.Requests.Handlers.{five_more, five_fewer, handle_update-Room}
use neo_group_captcha_bot.Manager.{
  get_session, store_session, call_back, on_found, on_captured, answer_request, deliver,
  dispatch_object, dispatch_response,
}

-- A session that is stored is found again, and no other session changes.
pub get_session-store_session :
    (w : World) (id j : ℤ) (s : ClientSession)
    → get_session (store_session w id s) j
      ≡ (if is_some (get_session w id) && int_eq.beq id j then some s else get_session w j)
unfolding get_session store_session
get_session-store_session w id j s = get-set_value w.manager.client_sessions id j s

-- The callbacks and the outbox are not where the sessions are.
pub store-Room :
    (k : ℕ) (w : World) (id : ℤ) (s : ClientSession)
    → Room k w.manager
    → Room k (store_session w id s).manager
unfolding store_session
store-Room k w id s v = record {
  callbacks_wf = v.callbacks_wf;
  positive = v.positive;
  room = v.room;
  pending = v.pending;
  sent = v.sent;
}

found-Room :
    (k : ℕ) (f : Option ClientSession) (id : ℤ) (callback : Callback) (result : Object) (w : World)
    → Room k w.manager
    → Room k (on_found f id callback result w).manager
unfolding on_found
found-Room k none id callback result w v = v
found-Room k (some s) id callback result w v = store-Room k w id (run_callback callback result s) v

call_back-Room :
    (k : ℕ) (callback : Callback) (result : Object) (w : World)
    → Room k w.manager
    → Room k (call_back callback result w).manager
unfolding call_back on_captured
call_back-Room k callback result w v = on_session (captured callback)
  where
    on_session : (o : Option ℤ) → Room k (on_captured o callback result w).manager
    on_session none = v
    on_session (some id) = found-Room k (get_session w id) id callback result w v

-- The entry of a callback goes out.
removed-Room :
    (k : ℕ) (m : SessionManager) (id : ℕ)
    → Room k m
    → Room k (record m { query_callbacks = (ConcurrentHashMap.remove m.query_callbacks id).0 })
removed-Room k m id v = record {
  callbacks_wf = remove-IsWf m.query_callbacks id v.callbacks_wf;
  positive = v.positive;
  room = v.room;
  pending = λ j h. ground (arith, get-remove m.query_callbacks id j v.callbacks_wf, v.pending j);
  sent = v.sent;
}

answer_request-Room :
    (k : ℕ) (o : Option Callback) (w : World) (id : ℕ) (object : Object)
    → Room k w.manager
    → Room k (answer_request o w id object).manager
unfolding answer_request
answer_request-Room k none w id object v = v
answer_request-Room k (some callback) w id object v =
    call_back-Room k callback object _ (removed-Room k w.manager id v)

deliver-Room :
    (k : ℕ) (o : Option ClientSession) (w : World) (env : Env) (client_id : ℤ) (object : Object)
    → Room (five_more k) w.manager
    → Room k (deliver o w env client_id object).0.manager
unfolding deliver
deliver-Room k none w env client_id object v = five_fewer k w.manager v
deliver-Room k (some s) w env client_id object v =
    store-Room k (handle_update s w env (some object)).world client_id
      (handle_update s w env (some object)).session (handle_update-Room k s w env object v)

object-Room :
    (k : ℕ) (w : World) (env : Env) (client_id : ℤ) (id : ℕ) (object : Object)
    → Room (five_more k) w.manager
    → Room k (dispatch_object w env client_id id object).0.manager
unfolding dispatch_object
object-Room k w env client_id id object v = ground (
  arith,
  answer_request-Room k (ConcurrentHashMap.get w.manager.query_callbacks id) w id object
      (five_fewer k w.manager v),
  deliver-Room k (get_session w client_id) w env client_id object v,
)

response-Room :
    (k : ℕ) (w : World) (env : Env) (client_id : ℤ) (id : ℕ) (o : Option Object)
    → Room (five_more k) w.manager
    → Room k
        (dispatch_response w env
          (record { client_id = client_id; request_id = id; object = o })).0.manager
unfolding dispatch_response
response-Room k w env client_id id none v = five_fewer k w.manager v
response-Room k w env client_id id (some object) v = object-Room k w env client_id id object v

-- Whatever response is dispatched, the ids and the callbacks stay in order: with five ids to spare
-- for what the handler may send.
pub dispatch_response-Room :
    (k : ℕ) (w : World) (env : Env) (r : Response)
    → Room (five_more k) w.manager
    → Room k (dispatch_response w env r).0.manager
dispatch_response-Room k w env r v = response-Room k w env r.client_id r.request_id r.object v
