-- ===== src/Requests/Sending/Ids.antt =====
-- src/core/manager/SessionManager.cpp: the ids of requests that several threads send.
use neo_group_captcha_bot.Common.{
  ℕ, zero, suc, ◌+◌, ◌≤◌, ◌<◌, ◌≡◌, refl, ap, ◌⊎◌, inl, inr, true, Bool, ◌&&◌, List, [], ◌∷◌,
  Option, none, some, ℤ, nat_eq, slot_at, sum_of, sum_of-append, sum_of-set_slot,
  sum_of-remove_slot, ltb, leb, ◌==◌, ==_iff, if◌then◌else◌, two_64, length, arith, Bool-cases,
  leb→le,
}
use neo_group_captcha_bot.UnorderedMap.{is_some}
use neo_group_captcha_bot.ConcurrentHashMap
use neo_group_captcha_bot.ConcurrentHashMap.Laws.{
  IsWf, get-put, put-IsWf, get-remove, remove-IsWf, get-empty, empty-IsWf,
}
use neo_group_captcha_bot.Td.{Function}
use neo_group_captcha_bot.State.{Callback, SessionManager, new_manager}
use neo_group_captcha_bot.Requests.{outbox, get_client_manager, next_query_id}
use neo_group_captcha_bot.Requests.Sending.{
  Call, numbered, registered, Senders, Event, begins, goes_on, answered, begin, continue, sent_as,
  answer, step, run,
}

-- Whether a call has the id, and whether its callback should wait under it.
abbrev pub uses : ℕ → Call → ℕ
uses j (numbered id client_id request callback) = if id == j then 1 else 0
uses j (registered id client_id request callback) = if id == j then 1 else 0

abbrev pub waits : ℕ → Call → ℕ
waits j (numbered id client_id request callback) = 0
waits j (registered id client_id request none) = 0
waits j (registered id client_id request (some callback)) = if id == j then 1 else 0

-- Whether the id is one that the sequence has given out.
abbrev pub is_given : ℕ → SessionManager → Bool
is_given j m = ltb 0 j && ltb j m.query_sequence

waits-le : (j : ℕ) (cs : List Call) → sum_of (waits j) cs ≤ sum_of (uses j) cs
waits-le j [] = omega arith
waits-le j (numbered id c r cb ∷ cs) = ground (arith, waits-le j cs)
waits-le j (registered id c r none ∷ cs) = ground (arith, waits-le j cs)
waits-le j (registered id c r (some cb) ∷ cs) = ground (arith, waits-le j cs)

pub none_or {ℓ κ} :
    {A : Type ℓ} {P : Type κ} (o : Option A) → (is_some o ≡ true → P) → (o ≡ none) ⊎ P
none_or none f = inl refl
none_or (some a) f = inr (f refl)

zero_or {ℓ} : {P : Type ℓ} (n : ℕ) → (1 ≤ n → P) → (n ≡ 0) ⊎ P
zero_or zero f = inl refl
zero_or (suc n) f = inr (f (omega arith))

module _ (j : ℕ) where
  -- What holds of an id between two steps, with room for `k` more calls.
  record Sound (k : ℕ) (s : Senders) : Type 0 where
    positive : 0 < s.manager.query_sequence
    room : s.manager.query_sequence + k < two_64
    callbacks_wf : IsWf s.manager.query_callbacks
    given :
        sum_of (uses j) s.calls + sum_of (sent_as j) (outbox s.manager)
        ≡ (if is_given j s.manager then 1 else 0)
    pending :
        is_some (ConcurrentHashMap.get s.manager.query_callbacks j) ≡ true
        → is_given j s.manager ≡ true
    ready :
        1 ≤ sum_of (waits j) s.calls
        → is_some (ConcurrentHashMap.get s.manager.query_callbacks j) ≡ true

  begin-Sound :
      (k : ℕ) (s : Senders) (client_id : ℤ) (request : Function) (callback : Option Callback)
      → Sound (suc k) s
      → Sound k (begin s client_id request callback)
  unfolding begin next_query_id
  begin-Sound k s client_id request callback v =
      let c = numbered s.manager.query_sequence client_id request callback in
      let a = sum_of-append (uses j) s.calls (c ∷ []) in
      let b = sum_of-append (waits j) s.calls (c ∷ []) in
      record {
        positive = ground (arith, v.room);
        room = ground (arith, v.room);
        callbacks_wf = v.callbacks_wf;
        given = ground (arith, v.room, v.positive, v.given, a, ==_iff s.manager.query_sequence j);
        pending = λ h. ground (arith, v.room, v.pending h);
        ready = λ h. ground (arith, b, v.ready, h);
      }

  continue-Sound :
      (o : Option Call) (k : ℕ) (s : Senders) (i : ℕ)
      → slot_at i s.calls ≡ o
      → Sound k s
      → Sound k (continue o s i)
  unfolding continue get_client_manager
  continue-Sound none k s i h v = v
  continue-Sound (some (numbered id c r none)) k s i h v =
      let a =
        sum_of-set_slot (uses j) i (numbered id c r none) (registered id c r none) s.calls h in
      let b =
        sum_of-set_slot (waits j) i (numbered id c r none) (registered id c r none) s.calls h in
      record {
        positive = v.positive;
        room = v.room;
        callbacks_wf = v.callbacks_wf;
        given = omega (arith, v.given, a);
        pending = v.pending;
        ready = λ l. v.ready (omega (arith, l, b));
      }
  continue-Sound (some (numbered id c r (some cb))) k s i h v =
      let old = numbered id c r (some cb) in
      let new = registered id c r (some cb) in
      let a = sum_of-set_slot (uses j) i old new s.calls h in
      let b = sum_of-set_slot (waits j) i old new s.calls h in
      let d = sum_of-remove_slot (uses j) i old s.calls h in
      let g = get-put s.manager.query_callbacks id j cb in
      record {
        positive = v.positive;
        room = v.room;
        callbacks_wf = put-IsWf s.manager.query_callbacks id cb v.callbacks_wf;
        given = omega (arith, v.given, a);
        pending = λ l. ground (arith, g, l, v.pending, v.given, d, ==_iff id j);
        ready = λ l. ground (arith, g, l, v.ready, b, ==_iff id j);
      }
  continue-Sound (some (registered id c r cb)) k s i h v =
      let a = sum_of-remove_slot (uses j) i (registered id c r cb) s.calls h in
      let b = sum_of-remove_slot (waits j) i (registered id c r cb) s.calls h in
      record {
        positive = v.positive;
        room = v.room;
        callbacks_wf = v.callbacks_wf;
        given = omega (arith, v.given, a);
        pending = v.pending;
        ready = λ l. v.ready (omega (arith, l, b));
      }

  answer-Sound : (k : ℕ) (s : Senders) (id : ℕ) → Sound k s → Sound k (answer s id)
  unfolding answer
  answer-Sound k s id v = elim (Bool-cases (leb 1 (sum_of (sent_as id) (outbox s.manager)))) [
    | inr f ↦ rw f v
    | inl t ↦
        let g = get-remove s.manager.query_callbacks id j v.callbacks_wf in
        let sent = leb→le 1 (sum_of (sent_as id) (outbox s.manager)) t in
        let same : id ≡ j
            → sum_of (sent_as id) (outbox s.manager) ≡ sum_of (sent_as j) (outbox s.manager) =
          ap (λ n. sum_of (sent_as n) (outbox s.manager)) in
        rw t (record {
          positive = v.positive;
          room = v.room;
          callbacks_wf = remove-IsWf s.manager.query_callbacks id v.callbacks_wf;
          given = v.given;
          pending = λ l. ground (arith, g, l, v.pending);
          ready = λ l.
              ground (arith, g, l, v.ready, v.given, sent, waits-le j s.calls, ==_iff id j, same);
        })
  ]

  fewer-Sound : (k : ℕ) (s : Senders) → Sound (suc k) s → Sound k s
  fewer-Sound k s v = record {
    positive = v.positive;
    room = omega (arith, v.room);
    callbacks_wf = v.callbacks_wf;
    given = v.given;
    pending = v.pending;
    ready = v.ready;
  }

  step-Sound : (k : ℕ) (s : Senders) (e : Event) → Sound (suc k) s → Sound k (step s e)
  unfolding step
  step-Sound k s (begins client_id request callback) v =
      begin-Sound k s client_id request callback v
  step-Sound k s (goes_on i) v = continue-Sound (slot_at i s.calls) k s i refl (fewer-Sound k s v)
  step-Sound k s (answered id) v = answer-Sound k s id (fewer-Sound k s v)

  run-Sound : (s : Senders) (es : List Event) → Sound (length es) s → Sound 0 (run s es)
  unfolding run
  run-Sound s [] v = v
  run-Sound s (e ∷ es) v = run-Sound (step s e) es (step-Sound (length es) s e v)

  start-Sound : (k : ℕ) → 1 + k < two_64 → Sound k (record { manager = new_manager; calls = [] })
  unfolding new_manager
  start-Sound k h = record {
    positive = omega arith;
    room = h;
    callbacks_wf = empty-IsWf;
    given = ground arith;
    pending = λ e. ground (arith, e, get-empty {K = ℕ} {V = Callback} j);
    ready = λ e. absurd (omega (arith, e));
  }

  -- Calls of `sendRequestWithClientId` from any threads, in any order of their parts, with answers in
  -- between, from the manager that the program starts with (and as few as leave the 64 bits of the
  -- sequence unused to the end). An id that the sequence has given out, so from 1 up to its value, is
  -- in one place exactly: one call under way has it, or one request has been sent under it; any other
  -- id is in none, and so no two requests have the same id, and none has 0. A callback waits only
  -- under an id that has been given out; and if a call has put its callback into the map and not sent
  -- its request yet, one waits under its id.
  pub run_ids_once :
      (es : List Event)
      → 1 + length es < two_64
      → let s = run (record { manager = new_manager; calls = [] }) es in
        (sum_of (uses j) s.calls + sum_of (sent_as j) (outbox s.manager)
          ≡ (if is_given j s.manager then 1 else 0))
        × ((ConcurrentHashMap.get s.manager.query_callbacks j ≡ none)
            ⊎ (is_given j s.manager ≡ true))
        × ((sum_of (waits j) s.calls ≡ 0)
            ⊎ (is_some (ConcurrentHashMap.get s.manager.query_callbacks j) ≡ true))
  run_ids_once es h =
      let s0 : Senders = record { manager = new_manager; calls = [] } in
      let s : Senders = run s0 es in
      let v = run-Sound s0 es (start-Sound (length es) h) in
      (
        v.given,
        none_or (ConcurrentHashMap.get s.manager.query_callbacks j) v.pending,
        zero_or (sum_of (waits j) s.calls) v.ready,
      )
