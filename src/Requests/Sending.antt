-- ===== src/Requests/Sending.antt =====
-- src/core/manager/SessionManager.cpp: calls of `sendRequestWithClientId` from several threads. A call
-- takes its id, puts its callback into the map and hands the request to the client library with no lock
-- over the three.
pub mod Ids
use neo_group_captcha_bot.Common.{
  ℕ, ◌+◌, List, [], ◌∷◌, ◌++◌, Option, none, some, ℤ, nat_eq, slot_at, set_slot, remove_slot,
  sum_of, leb, ◌==◌, if◌then◌else◌,
}
use neo_group_captcha_bot.ConcurrentHashMap
use neo_group_captcha_bot.Td.{Function}
use neo_group_captcha_bot.State.{Callback, Sent, SessionManager}
use neo_group_captcha_bot.Requests.{outbox, get_client_manager, next_query_id, register, send}

-- A call under way: with its id, and with its callback in the map.
pub data Call : Type 0 where
  numbered : ℕ → ℤ → Function → Option Callback → Call
  registered : ℕ → ℤ → Function → Option Callback → Call

pub record Senders : Type 0 where
  pub manager : SessionManager
  pub calls : List Call

-- `answered` is the looper, which takes the callback of a request out of the map.
pub data Event : Type 0 where
  begins : ℤ → Function → Option Callback → Event
  goes_on answered : ℕ → Event

unfoldable pub begin : Senders → ℤ → Function → Option Callback → Senders
unfolding next_query_id
begin s client_id request callback =
    let (id, m) = next_query_id s.manager in
    record { manager = m; calls = s.calls ++ (numbered id client_id request callback ∷ []) }

unfoldable pub continue : Option Call → Senders → ℕ → Senders
unfolding set_slot remove_slot get_client_manager
continue none s k = s
continue (some (numbered id client_id request callback)) s k = record {
  manager = register callback id s.manager;
  calls = set_slot k (registered id client_id request callback) s.calls;
}
continue (some (registered id client_id request callback)) s k = record {
  manager = send client_id id request (get_client_manager s.manager);
  calls = remove_slot k s.calls;
}

-- Whether a request went out under the id.
abbrev pub sent_as : ℕ → Sent → ℕ
sent_as id r = if r.request_id == id then 1 else 0

-- The client library answers a request that it has.
unfoldable pub answer : Senders → ℕ → Senders
answer s id =
    if leb 1 (sum_of (sent_as id) (outbox s.manager))
    then record s {
      manager = record (s.manager) {
        query_callbacks = (ConcurrentHashMap.remove s.manager.query_callbacks id).0;
      };
    }
    else s

unfoldable pub step : Senders → Event → Senders
unfolding begin continue answer slot_at
step s (begins client_id request callback) = begin s client_id request callback
step s (goes_on k) = continue (slot_at k s.calls) s k
step s (answered id) = answer s id

unfoldable pub run : Senders → List Event → Senders
run s [] = s
run s (e ∷ es) = run (step s e) es
