-- ===== src/Program/Messages/Bound.antt =====
-- src/core/startup.cpp, the message handler: the bound on the messages, over every run of the program.
use neo_group_captcha_bot.Common.{
  ◌≤◌, ◌≡◌, refl, ap, sym, ◌∙◌, List, Option, none, some, ℤ, Bytes, arith,
}
use neo_group_captcha_bot.Td.{Function, Message, message_text}
use neo_group_captcha_bot.State.{Callback, ClientSession, World, new_world}
use neo_group_captcha_bot.Requests.{outbox, send_request_with_client_id}
use neo_group_captcha_bot.Session.{execute, send_text_message}
use neo_group_captcha_bot.Session.Echo.{answer}
use neo_group_captcha_bot.Program.{Event, run}
use neo_group_captcha_bot.Program.Messages.{is_message, messages, Preserved}
use neo_group_captcha_bot.Program.Messages.Runs.{run-Kept}
use neo_group_captcha_bot.Program.Messages.Heard.{Permits-HeardIn}

record Counted (w : World) : Type 0 where
  exact : messages (outbox w.manager) ≡ w.send_count
  few : w.send_count ≤ 11

execute-Counted :
    (w : World) (id : ℤ) (request : Function) (callback : Option Callback)
    → is_message request ≡ 0
    → Counted w
    → Counted (execute w id request callback)
unfolding execute send_request_with_client_id
execute-Counted w id request none h v = ground arith
execute-Counted w id request (some c) h v = ground arith

-- Every greeting is let through.
abbrev Anything : Message → Bytes → Type 0
Anything m text = Unit

greet-Counted :
    (w : World) (s : ClientSession) (m : Message) (text : Bytes)
    → w.send_count ≤ 10
    → Anything m text
    → Counted w
    → Counted (answer (some (message_text text)) s w m).0
unfolding answer send_text_message execute send_request_with_client_id
greet-Counted w s m text h a v = ground (arith, v)

elsewhere-Counted :
    (v w : World)
    → outbox w.manager ≡ outbox v.manager
    → w.send_count ≡ v.send_count
    → Counted v
    → Counted w
elsewhere-Counted v w e f c = record { exact = ap messages e ∙ c.exact ∙ sym f; few = rw f c.few }

rules : Preserved Counted Anything
rules = record { requests = execute-Counted; elsewhere = elsewhere-Counted; greets = greet-Counted }

new_world-Counted : Counted new_world
unfolding new_world
new_world-Counted = record { exact = refl; few = omega arith }

-- From the state that the program starts with, after any steps of its threads in any order: the
-- messages sent are as many as the handler's counter says, and at most eleven.
pub run-messages_bounded :
    (es : List Event)
    → let w = run new_world es in
      (messages (outbox w.manager) ≡ w.send_count) × (messages (outbox w.manager) ≤ 11)
run-messages_bounded es =
    let v =
      run-Kept Counted Anything rules new_world es (Permits-HeardIn Anything es (λ m text h. tt))
        new_world-Counted in
    ground (arith, v)
