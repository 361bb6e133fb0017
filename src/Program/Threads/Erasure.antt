-- ===== src/Program/Threads/Erasure.antt =====
-- What the steps of the program do to everything but the pools, whatever the pools are.
use neo_group_captcha_bot.Common.{
  ◌≡◌, refl, sym, ◌∙◌, true, false, Option, none, some, ℤ, pos, Bool, not, is_empty, if◌then◌else◌,
}
use neo_group_captcha_bot.ThreadPool
use neo_group_captcha_bot.ThreadPool.{ThreadPool, Spawn, Outcome, returns, throws, created, failed}
use neo_group_captcha_bot.Td.{
  AuthorizationState, wait_tdlib_parameters, wait_encryption_key, wait_phone_number, ready,
  wait_code, wait_password, other_state, Function, Message, MessageContent, message_text,
  plain_content, other_content,
}
use neo_group_captcha_bot.State.{
  Callback, Task, set_offline, ask_code, ask_password, ClientSession, World,
}
use neo_group_captcha_bot.Requests.{executors_execute, async, send_request_with_client_id}
use neo_group_captcha_bot.Session.{
  execute, send_td_lib_parameters, send_text_message, is_initialization,
}
use neo_group_captcha_bot.Session.Echo.{answer}
use neo_group_captcha_bot.Session.Auth.{
  on_wait_phone_number, handle_update_authorization_state, after_pool, Reaction,
}

abbrev empty_pool : ThreadPool Task
empty_pool = ThreadPool.new (pos 0) (pos 0) (pos 0) (pos 0)

-- The world without its pools.
unfoldable pub erase : World → World
erase w = record w { manager = record (w.manager) { thread_pool = empty_pool }; async_pool = none }

-- Two worlds that differ in their pools at most.
abbrev pub Alike : World → World → Type 0
Alike w v = erase w ≡ erase v

pub erase-Alike : (w : World) → Alike w (erase w)
unfolding erase
erase-Alike w = refl

pub execute-Alike :
    (w : World) (id : ℤ) (request : Function) (callback : Option Callback)
    → Alike (execute w id request callback) (execute (erase w) id request callback)
unfolding erase execute send_request_with_client_id
execute-Alike w id request none = refl
execute-Alike w id request (some c) = refl

pub parameters-Alike :
    (s : ClientSession) (w : World)
    → Alike (send_td_lib_parameters s w) (send_td_lib_parameters s (erase w))
unfolding erase send_td_lib_parameters execute send_request_with_client_id
parameters-Alike s w = refl

async-Alike : (w : World) (task : Task) (spawn : Spawn) → Alike (async w task spawn).0 w
unfolding erase async
async-Alike w task spawn = refl

executors-Alike :
    (w : World) (task : Task) (spawn : Spawn) → Alike (executors_execute w task spawn).0 w
unfolding erase executors_execute
executors-Alike w task spawn = refl

-- Two ends of a handler with the same session.
pub record AlikeReaction (r q : Reaction) : Type 0 where
  pub sessions : r.session ≡ q.session
  pub worlds : Alike r.world q.world

pool-Alike :
    (s : ClientSession) (r q : World × Outcome)
    → Alike r.0 q.0
    → AlikeReaction (after_pool s r) (after_pool s q)
pool-Alike s (w, returns) (v, returns) e = record { sessions = refl; worlds = e }
pool-Alike s (w, returns) (v, throws) e = record { sessions = refl; worlds = e }
pool-Alike s (w, throws) (v, returns) e = record { sessions = refl; worlds = e }
pool-Alike s (w, throws) (v, throws) e = record { sessions = refl; worlds = e }

pub choice-Alike :
    (b : Bool) (p q r t : Reaction)
    → AlikeReaction p r
    → AlikeReaction q t
    → AlikeReaction (if b then p else q) (if b then r else t)
choice-Alike true p q r t e f = e
choice-Alike false p q r t e f = f

phone_number-Alike :
    (s : ClientSession) (w : World)
    → AlikeReaction (on_wait_phone_number s w) (on_wait_phone_number s (erase w))
unfolding on_wait_phone_number
phone_number-Alike s w =
    choice-Alike (is_initialization s.auth_state) _ _ _ _
      (choice-Alike (not (is_empty s.auth_bot_token)) _ _ _ _
        (record { sessions = refl; worlds = execute-Alike w _ _ _ })
        (choice-Alike (not (is_empty s.auth_user_phone)) _ _ _ _
          (record { sessions = refl; worlds = execute-Alike w _ _ _ })
          (record { sessions = refl; worlds = erase-Alike w })))
      (record { sessions = refl; worlds = erase-Alike w })

pub authorization-Alike :
    (s : ClientSession) (w : World) (spawn : Spawn) (state : Option AuthorizationState)
    → AlikeReaction
        (handle_update_authorization_state s w spawn state)
        (handle_update_authorization_state s (erase w) spawn state)
unfolding handle_update_authorization_state
authorization-Alike s w spawn none = record { sessions = refl; worlds = erase-Alike w }
authorization-Alike s w spawn (some wait_tdlib_parameters) = record {
  sessions = refl;
  worlds = parameters-Alike s w;
}
authorization-Alike s w spawn (some wait_encryption_key) = record {
  sessions = refl;
  worlds = execute-Alike w _ _ _;
}
authorization-Alike s w spawn (some wait_phone_number) = phone_number-Alike s w
authorization-Alike s w spawn (some ready) =
    let task : Task = set_offline s.td_lib_object_id in
    pool-Alike _ (async w task spawn) (async (erase w) task spawn)
      (async-Alike w task spawn ∙ erase-Alike w ∙ sym (async-Alike (erase w) task spawn))
authorization-Alike s w spawn (some wait_code) =
    let task : Task = ask_code s.td_lib_object_id in
    pool-Alike _ (executors_execute w task spawn) (executors_execute (erase w) task spawn)
      (executors-Alike w task spawn ∙ erase-Alike w ∙ sym (executors-Alike (erase w) task spawn))
authorization-Alike s w spawn (some wait_password) =
    let task : Task = ask_password s.td_lib_object_id in
    pool-Alike _ (executors_execute w task spawn) (executors_execute (erase w) task spawn)
      (executors-Alike w task spawn ∙ erase-Alike w ∙ sym (executors-Alike (erase w) task spawn))
authorization-Alike s w spawn (some (other_state type)) = record {
  sessions = refl;
  worlds = erase-Alike w;
}

pub answer-Alike :
    (c : Option MessageContent) (s : ClientSession) (w : World) (m : Message)
    → Alike (answer c s w m).0 (answer c s (erase w) m).0
unfolding answer send_text_message execute send_request_with_client_id erase
answer-Alike none s w m = refl
answer-Alike (some (message_text text)) s w m = refl
answer-Alike (some (plain_content kind rest)) s w m = refl
answer-Alike (some (other_content id rest)) s w m = refl
