-- ===== src/Manager/Requests.antt =====
-- src/core/manager/SessionManager.cpp: the ids of the requests and the callbacks that wait for them.
pub mod Handlers
use neo_group_captcha_bot.Common.{
  ℕ, zero, suc, ◌+◌, ◌*◌, ◌≤◌, ◌<◌, ◌≡◌, ◌≢◌, refl, ap, Bool, true, false, List, [], ◌∷◌, Option,
  none, some, ℤ, two_64, nat_eq, ◌==◌, if◌then◌else◌, arith, inl, inr, Bool-cases,
}
use neo_group_captcha_bot.UnorderedMap.{is_some}
use neo_group_captcha_bot.ConcurrentHashMap
use neo_group_captcha_bot.ConcurrentHashMap.Laws.{IsWf, get-put, put-IsWf}
use neo_group_captcha_bot.Td.{Function}
use neo_group_captcha_bot.State.{Callback, Sent, SessionManager, World}
use neo_group_captcha_bot.Requests.{outbox, next_query_id, send_request_with_client_id}

-- The newest request first: the ids fall, and none is 0.
abbrev pub Below : ℕ → List Sent → Type 0
Below n [] = Unit
Below n (r ∷ rs) = (r.request_id < n) × (0 < r.request_id) × Below r.request_id rs

-- What holds of the manager, with room for `k` more requests before the sequence wraps around.
pub record Room (k : ℕ) (m : SessionManager) : Type 0 where
  pub callbacks_wf : IsWf m.query_callbacks
  pub positive : 0 < m.query_sequence
  pub room : m.query_sequence + k < two_64
  pub pending :
      (id : ℕ)
      → is_some (ConcurrentHashMap.get m.query_callbacks id) ≡ true
      → (0 < id) × (id < m.query_sequence)
  pub sent : Below m.query_sequence (outbox m)

module _ (m : SessionManager) (client_id : ℤ) (request : Function) (k : ℕ) where
  pending-put :
      (callback : Callback) (id : ℕ)
      → Room (suc k) m
      → is_some (
          ConcurrentHashMap.get
            (ConcurrentHashMap.put m.query_callbacks m.query_sequence callback)
            id)
        ≡ true
      → (0 < id) × (id < suc m.query_sequence)
  pending-put callback id v h =
      ground
        (arith, get-put m.query_callbacks m.query_sequence id callback, v.pending id, v.positive)

  -- A request keeps what holds of the manager, and uses up one id.
  pub send-Room :
      (callback : Option Callback)
      → Room (suc k) m
      → Room k (send_request_with_client_id m client_id request callback)
  unfolding send_request_with_client_id
  send-Room none v = record {
    callbacks_wf = v.callbacks_wf;
    positive = ground (arith, v.room);
    room = ground (arith, v.room);
    pending = λ id h. ground (arith, v.room, v.pending id h);
    sent = ground (arith, v.room, v.positive, v.sent);
  }
  send-Room (some callback) v = record {
    callbacks_wf = put-IsWf m.query_callbacks m.query_sequence callback v.callbacks_wf;
    positive = ground (arith, v.room);
    room = ground (arith, v.room);
    pending = λ id h. ground (arith, v.room, pending-put callback id v h);
    sent = ground (arith, v.room, v.positive, v.sent);
  }

pub fewer-Room : (k : ℕ) (m : SessionManager) → Room (suc k) m → Room k m
fewer-Room k m v = record {
  callbacks_wf = v.callbacks_wf;
  positive = v.positive;
  room = omega (arith, v.room);
  pending = v.pending;
  sent = v.sent;
}

not-is_some {ℓ} : {A : Type ℓ} (o : Option A) → ¬ (is_some o ≡ true) → o ≡ none
not-is_some none h = refl
not-is_some (some a) h = absurd (h refl)

-- A request goes out under an id that is not 0 and that no callback waits for; afterwards its
-- callback, if it has one, waits for that id, and the callback of any other id is as it was. (From a
-- state of the manager that has `Room` for a request.)
send_registers :
    (m : SessionManager) (client_id : ℤ) (request : Function) (callback : Option Callback) (k j : ℕ)
    → Room (suc k) m
    → j ≢ m.query_sequence
    → let m' = send_request_with_client_id m client_id request callback in
      let id = m.query_sequence in
      (0 < id)
      × (outbox m'
          ≡ record { client_id = client_id; request_id = id; request = request } ∷ outbox m)
      × (ConcurrentHashMap.get m.query_callbacks id ≡ none)
      × (ConcurrentHashMap.get m'.query_callbacks id ≡ callback)
      × (ConcurrentHashMap.get m'.query_callbacks j ≡ ConcurrentHashMap.get m.query_callbacks j)
unfolding send_request_with_client_id
send_registers m client_id request callback k j v h =
    let fresh =
      not-is_some (ConcurrentHashMap.get m.query_callbacks m.query_sequence)
        (λ waits. absurd (omega (arith, v.pending m.query_sequence waits))) in
    registers callback fresh
  where
    registers :
        (callback : Option Callback)
        → ConcurrentHashMap.get m.query_callbacks m.query_sequence ≡ none
        → let m' = send_request_with_client_id m client_id request callback in
          let id = m.query_sequence in
          (0 < id)
          × (outbox m'
              ≡ record { client_id = client_id; request_id = id; request = request } ∷ outbox m)
          × (ConcurrentHashMap.get m.query_callbacks id ≡ none)
          × (ConcurrentHashMap.get m'.query_callbacks id ≡ callback)
          × (ConcurrentHashMap.get m'.query_callbacks j ≡ ConcurrentHashMap.get m.query_callbacks j)
    registers none fresh = (v.positive, refl, fresh, fresh, refl)
    registers (some c) fresh = (
      v.positive,
      refl,
      fresh,
      ground (arith, get-put m.query_callbacks m.query_sequence m.query_sequence c),
      ground (arith, get-put m.query_callbacks m.query_sequence j c, h),
    )
