-- ===== src/Requests.antt =====
-- src/core/manager/SessionManager.cpp: `getClientManager`, `nextQueryId` and
-- `sendRequestWithClientId`; src/utils/SyncUtils.cpp: `async`.
pub mod Sending
use neo_group_captcha_bot.Common.{
  ℕ, ◌+◌, ◌%◌, List, [], ◌∷◌, Option, none, some, ℤ, pos, two_64, nat_eq,
}
use neo_group_captcha_bot.ConcurrentHashMap
use neo_group_captcha_bot.ThreadPool
use neo_group_captcha_bot.ThreadPool.{ThreadPool, Spawn, Outcome}
use neo_group_captcha_bot.Td.{Function}
use neo_group_captcha_bot.State.{Callback, Task, Sent, SessionManager, World}

-- The requests sent so far.
abbrev pub outbox : SessionManager → List Sent
outbox m = elim m.client_manager [ none ↦ [] | some sent ↦ sent ]

unfoldable pub get_client_manager : SessionManager → SessionManager
get_client_manager m = record m { client_manager = some (outbox m) }

-- The id, and the manager after the increment.
unfoldable pub next_query_id : SessionManager → ℕ × SessionManager
next_query_id m = (m.query_sequence, record m { query_sequence = (m.query_sequence + 1) % two_64 })

abbrev pub register : Option Callback → ℕ → SessionManager → SessionManager
register none id m = m
register (some callback) id m = record m {
  query_callbacks = ConcurrentHashMap.put m.query_callbacks id callback;
}

-- `ClientManager::send`.
abbrev pub send : ℤ → ℕ → Function → SessionManager → SessionManager
send client_id id request m = record m {
  client_manager =
      some (record { client_id = client_id; request_id = id; request = request } ∷ outbox m);
}

-- Both overloads: a null callback is `none`. The callback is in the map before the request goes out.
-- No lock is held over the three effects: here nothing comes in between.
unfoldable pub send_request_with_client_id :
    SessionManager → ℤ → Function → Option Callback → SessionManager
unfolding next_query_id get_client_manager
send_request_with_client_id m client_id request callback =
    let (id, m1) = next_query_id m in
    send client_id id request (get_client_manager (register callback id m1))

-- `getExecutors().execute`.
unfoldable pub executors_execute : World → Task → Spawn → World × Outcome
executors_execute w task spawn =
    let (p, outcome) = ThreadPool.execute w.manager.thread_pool (some task) spawn in
    (record w { manager = record (w.manager) { thread_pool = p } }, outcome)

abbrev async_pool_of : World → ThreadPool Task
async_pool_of w = elim w.async_pool [
  | none ↦ ThreadPool.new (pos 4) (pos 16) (pos 60000) (pos 64)
  | some p ↦ p
]

-- `async` of a function that is not null: the pool is made at the first call.
unfoldable pub async : World → Task → Spawn → World × Outcome
async w task spawn =
    let (p, outcome) = ThreadPool.execute (async_pool_of w) (some task) spawn in
    (record w { async_pool = some p }, outcome)
