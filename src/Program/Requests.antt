-- ===== src/Program/Requests.antt =====
-- src/core: the ids of the requests and the callbacks, over every run of the program.
use neo_group_captcha_bot.Common.{
  ℕ, zero, suc, ◌+◌, ◌*◌, ◌<◌, ◌≡◌, refl, List, [], ◌∷◌, Option, none, some, ℤ, Bytes, nat_eq,
  two_64, ◌==◌, arith, ◌⊎◌, length,
}
use neo_group_captcha_bot.ConcurrentHashMap
use neo_group_captcha_bot.ConcurrentHashMap.Laws.{get-empty, empty-IsWf}
use neo_group_captcha_bot.ThreadPool.{Spawn, created, failed}
use neo_group_captcha_bot.Td.{
  TdLibParameters, check_authentication_bot_token, set_authentication_phone_number,
  check_authentication_code, check_authentication_password, get_option,
}
use neo_group_captcha_bot.State.{
  Callback, Task, set_offline, ask_code, ask_password, ClientSession, World, new_world,
  log_if_response_error, phone_number_set, code_checked, password_checked,
}
use neo_group_captcha_bot.Requests.{get_client_manager, outbox}
use neo_group_captcha_bot.Requests.Sending.Ids.{none_or}
use neo_group_captcha_bot.Session.{log_in_with_bot_token, log_in_send, log_in_with_phone_number}
use neo_group_captcha_bot.Session.Auth.{run_task, remove_if, is_space}
use neo_group_captcha_bot.Manager.{get_session, create_session}
use neo_group_captcha_bot.Manager.Requests.{Below, Room}
use neo_group_captcha_bot.Manager.Requests.Handlers.{
  five_more, five_fewer, one-Room, send_td_lib_parameters-Room,
}
use neo_group_captcha_bot.Manager.Dispatch.{dispatch_response-Room, store-Room}
use neo_group_captcha_bot.Program.{
  Event, creates, asks_option, logs_in_bot, logs_in_user, sets_handler, dispatches, runs,
  on_session, step, run,
}

on_session-Room :
    (k : ℕ) (o : Option ClientSession) (id : ℤ) (f : ClientSession → World → ClientSession × World)
    (w : World)
    → ((s : ClientSession) → Room k (f s w).1.manager)
    → Room k w.manager
    → Room k (on_session o id f w).manager
unfolding on_session
on_session-Room k none id f w h v = v
on_session-Room k (some s) id f w h v = store-Room k (f s w).1 id (f s w).0 (h s)

create_session-Room :
    (k : ℕ) (w : World) (id : ℤ) (parameters : TdLibParameters) (spawn : Spawn)
    → Room k w.manager
    → Room k (create_session w id parameters spawn).0.manager
unfolding create_session get_client_manager
create_session-Room k w id parameters (created t) v = ground (arith, v)
create_session-Room k w id parameters (failed t) v = ground (arith, v)

bot-Room :
    (k : ℕ) (s : ClientSession) (w : World) (token : Bytes)
    → Room (five_more k) w.manager
    → Room k (log_in_with_bot_token s w token).1.manager
unfolding log_in_with_bot_token log_in_send
bot-Room k s w token v = ground (
  arith,
  five_fewer k w.manager v,
  one-Room k w s.td_lib_object_id (check_authentication_bot_token token)
      (some log_if_response_error) v,
)

user-Room :
    (k : ℕ) (s : ClientSession) (w : World) (phone : Bytes)
    → Room (five_more k) w.manager
    → Room k (log_in_with_phone_number s w phone).1.manager
unfolding log_in_with_phone_number
user-Room k s w phone v = ground (
  arith,
  five_fewer k w.manager v,
  one-Room k w s.td_lib_object_id (set_authentication_phone_number phone) (some phone_number_set) v,
  send_td_lib_parameters-Room k (record s { auth_user_phone = phone }) w v,
)

task-Room :
    (k : ℕ) (task : Task) (line : Bytes) (s : ClientSession) (w : World)
    → Room (five_more k) w.manager
    → Room k (run_task task line s w).1.manager
unfolding run_task
task-Room k (set_offline id) line s w v = one-Room k w _ _ _ v
task-Room k (ask_code id) line s w v =
    let code = remove_if (λ c. c == 10) (remove_if is_space line) in
    ground (
      arith,
      five_fewer k w.manager v,
      one-Room k w id (check_authentication_code code) (some (code_checked id)) v,
    )
task-Room k (ask_password id) line s w v =
    let password = remove_if (λ c. c == 10) line in
    ground (
      arith,
      five_fewer k w.manager v,
      one-Room k w id (check_authentication_password password) (some (password_checked id)) v,
    )

step-Room :
    (k : ℕ) (w : World) (e : Event) → Room (five_more k) w.manager → Room k (step w e).manager
unfolding step
step-Room k w (creates id parameters spawn) v =
    create_session-Room k w id parameters spawn (five_fewer k w.manager v)
step-Room k w (asks_option id name) v = one-Room k w id (get_option name) none v
step-Room k w (logs_in_bot id token) v =
    on_session-Room k (get_session w id) id _ w (λ s. bot-Room k s w token v)
      (five_fewer k w.manager v)
step-Room k w (logs_in_user id phone) v =
    on_session-Room k (get_session w id) id _ w (λ s. user-Room k s w phone v)
      (five_fewer k w.manager v)
step-Room k w (sets_handler id h) v =
    on_session-Room k (get_session w id) id _ w (λ s. five_fewer k w.manager v)
      (five_fewer k w.manager v)
step-Room k w (dispatches env response) v = dispatch_response-Room k w env response v
step-Room k w (runs id task line) v =
    on_session-Room k (get_session w id) id _ w (λ s. task-Room k task line s w v)
      (five_fewer k w.manager v)

-- Room for `n` steps.
abbrev pub rooms : ℕ → ℕ
rooms zero = 0
rooms (suc n) = five_more (rooms n)

rooms_lem : (n : ℕ) → rooms n ≡ 5 * n
rooms_lem zero = refl
rooms_lem (suc n) = omega (arith, rooms_lem n)

run-Room :
    (w : World) (es : List Event) → Room (rooms (length es)) w.manager → Room 0 (run w es).manager
unfolding run
run-Room w [] v = v
run-Room w (e ∷ es) v = run-Room (step w e) es (step-Room (rooms (length es)) w e v)

-- The state that the program starts with, with room for any number of requests below 2^64.
new_world-Room : (k : ℕ) → 1 + k < two_64 → Room k new_world.manager
unfolding new_world
new_world-Room k h = record {
  callbacks_wf = empty-IsWf;
  positive = omega arith;
  room = h;
  pending = λ id e. ground (arith, get-empty {K = ℕ} {V = Callback} id);
  sent = tt;
}

-- From the state that the program starts with, after any steps of its threads in any order, each
-- whole before the next (as many as leave the sequence of 64 bits unused to the end, at five requests a step): the ids of the
-- requests sent fall from the newest to the oldest, so no two are equal, none is 0, which is what
-- marks an update; and a callback waits only under an id that has been given out.
pub run_ids_sound :
    (es : List Event) (id : ℕ)
    → 1 + 5 * length es < two_64
    → let m = (run new_world es).manager in
      Below m.query_sequence (outbox m)
      × ((ConcurrentHashMap.get m.query_callbacks id ≡ none) ⊎ ((0 < id) × (id < m.query_sequence)))
run_ids_sound es id h =
    let v =
      run-Room new_world es
        (new_world-Room (rooms (length es)) (omega (arith, rooms_lem (length es)))) in
    (
      v.sent,
      none_or (ConcurrentHashMap.get (run new_world es).manager.query_callbacks id) (v.pending id),
    )
