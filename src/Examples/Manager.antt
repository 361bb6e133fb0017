-- ===== src/Examples/Manager.antt =====
-- src/core/manager/SessionManager.cpp and the program: two sessions, and a callback of the first.
use neo_group_captcha_bot.Common.{
  List, ◌+◌, ◌⊎◌, sum_of, if◌then◌else◌, ℕ, ◌≡◌, ◌≢◌, refl, true, [], ◌∷◌, none, some, pos, nat_eq,
  int_eq, arith,
}
use neo_group_captcha_bot.UnorderedMap.{find, is_some}
use neo_group_captcha_bot.ConcurrentHashMap
use neo_group_captcha_bot.ConcurrentHashMap.Laws.{IsWf}
use neo_group_captcha_bot.Td.{
  get_option, Response, ok, other_object, update_authorization_state, ready,
}
use neo_group_captcha_bot.State.{new_manager, World, bot_token_checked, new_world, authorized}
use neo_group_captcha_bot.Session.Auth.{run_callback}
use neo_group_captcha_bot.Session.Update.{handle_update}
use neo_group_captcha_bot.Manager.{get_session, dispatch_response}
use neo_group_captcha_bot.Manager.Routing.{
  waiting_for, response_to, dispatch_once, callback_reaches, update_reaches,
}
use neo_group_captcha_bot.Requests.{outbox}
use neo_group_captcha_bot.Requests.Sending
use neo_group_captcha_bot.Requests.Sending.{Senders, sent_as}
use neo_group_captcha_bot.Requests.Sending.Ids.{uses, waits, is_given, run_ids_once}
use neo_group_captcha_bot.Examples.Session.{fresh, env}

-- Two sessions, and the result of a bot token that the first waits for under the id 3.
abbrev two_sessions : World
two_sessions = record new_world {
  manager = record (new_world.manager) {
    client_sessions = record {
      backend = (pos 1, fresh) ∷ (pos 2, record fresh { td_lib_object_id = pos 2 }) ∷ [];
    };
    query_callbacks = record { backend = (3, bot_token_checked (pos 1)) ∷ [] };
    looper_running = true;
  };
}

callbacks-IsWf : IsWf two_sessions.manager.query_callbacks
unfolding find
callbacks-IsWf = record { distinct = (refl, tt) }

three_waits : waiting_for two_sessions 3 ≡ some (bot_token_checked (pos 1))
unfolding ConcurrentHashMap.get find
three_waits = refl

first_found : get_session two_sessions (pos 1) ≡ some fresh
unfolding get_session ConcurrentHashMap.get find
first_found = refl

three : ◌≢◌ {A = ℕ} 3 0
three h = absurd (omega (arith, h))

two_ne_one : pos 2 ≢ pos 1
two_ne_one h = ground (arith, h)

dispatch_once_example :
    let w1 = (dispatch_response two_sessions env (response_to (pos 1) 3 ok)).0 in
    (waiting_for w1 3 ≡ none)
    × ((dispatch_response w1 env (response_to (pos 1) 3 (other_object 5))).0 ≡ w1)
dispatch_once_example =
    dispatch_once two_sessions env env (pos 1) 3 ok (other_object 5) callbacks-IsWf three

callback_reaches_example :
    let w1 = (dispatch_response two_sessions env (response_to (pos 1) 3 ok)).0 in
    (get_session w1 (pos 1) ≡ some (record fresh { auth_state = authorized }))
    × (get_session w1 (pos 2) ≡ get_session two_sessions (pos 2))
unfolding run_callback
callback_reaches_example =
    callback_reaches two_sessions env (pos 1) (pos 1) (pos 2) 3 ok (bot_token_checked (pos 1)) fresh
      three three_waits refl first_found two_ne_one

abbrev pub is_ready : Response
is_ready = response_to (pos 1) 0 (update_authorization_state (some ready))

update_reaches_example :
    let (w1, exit) = dispatch_response two_sessions env is_ready in
    let r = handle_update fresh two_sessions env (some (update_authorization_state (some ready))) in
    (get_session w1 (pos 1) ≡ some r.session)
    × (exit ≡ r.exit)
    × (get_session w1 (pos 2) ≡ get_session two_sessions (pos 2))
update_reaches_example =
    update_reaches two_sessions env (pos 1) (pos 2) (update_authorization_state (some ready)) fresh
      first_found two_ne_one

-- Two threads send: the second is done before the first has its callback in the map, and is answered.
abbrev interleaved : List Sending.Event
interleaved =
    Sending.begins (pos 1) (get_option []) (some (bot_token_checked (pos 1)))
    ∷ Sending.begins (pos 2) (get_option []) (some (bot_token_checked (pos 2)))
    ∷ Sending.goes_on 1
    ∷ Sending.goes_on 1
    ∷ Sending.answered 2
    ∷ Sending.goes_on 0
    ∷ []

abbrev senders : Senders
senders = Sending.run (record { manager = new_manager; calls = [] }) interleaved

run_ids_once_example :
    (sum_of (uses 1) senders.calls + sum_of (sent_as 1) (outbox senders.manager)
      ≡ (if is_given 1 senders.manager then 1 else 0))
    × ((ConcurrentHashMap.get senders.manager.query_callbacks 1 ≡ none)
        ⊎ (is_given 1 senders.manager ≡ true))
    × ((sum_of (waits 1) senders.calls ≡ 0)
        ⊎ (is_some (ConcurrentHashMap.get senders.manager.query_callbacks 1) ≡ true))
run_ids_once_example = run_ids_once 1 interleaved (omega arith)
