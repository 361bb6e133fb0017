-- ===== src/Program/Messages/Replies.antt =====
-- src/core/startup.cpp, the message handler: where the messages that the program sends come from.
use neo_group_captcha_bot.Common.{
  ◌≤◌, ◌≡◌, refl, List, [], ◌∷◌, ◌++◌, Option, none, some, ℤ, Bytes, codes, subst, sym, arith,
}
use neo_group_captcha_bot.Td.{
  Function, set_tdlib_parameters, set_option, get_option, check_database_encryption_key,
  check_authentication_bot_token, set_authentication_phone_number, check_authentication_code,
  check_authentication_password, send_message, Message, message_text,
}
use neo_group_captcha_bot.State.{Callback, ClientSession, World, Sent, new_world, new_manager}
use neo_group_captcha_bot.Requests.{outbox, send_request_with_client_id}
use neo_group_captcha_bot.Session.{execute, send_text_message}
use neo_group_captcha_bot.Session.Echo.{answer}
use neo_group_captcha_bot.Program.{Event, run}
use neo_group_captcha_bot.Program.Messages.{is_message, Preserved}
use neo_group_captcha_bot.Program.Messages.Runs.{run-Kept}
use neo_group_captcha_bot.Program.Messages.Heard.{HeardIn, Permits-HeardIn}

module _ (es : List Event) where
  -- A request that sends a message greets one that has come in: it goes to the same chat.
  abbrev pub IsReply : Function → Type 0
  IsReply (send_message chat_id reply_id text) =
      (m : Message) × (heard : Bytes) × HeardIn es m heard
      × (chat_id ≡ m.chat_id)
      × (text ≡ codes "Hello, " ++ heard)
  IsReply _ = Unit

  abbrev pub AllReplies : List Sent → Type 0
  AllReplies [] = Unit
  AllReplies (r ∷ rs) = IsReply r.request × AllReplies rs

  Replying : World → Type 0
  Replying w = AllReplies (outbox w.manager)

  IsReply-other : (request : Function) → is_message request ≡ 0 → IsReply request
  IsReply-other (send_message chat_id reply_id text) h = absurd (omega (arith, h))
  IsReply-other (set_tdlib_parameters parameters) h = tt
  IsReply-other (set_option name value) h = tt
  IsReply-other (get_option name) h = tt
  IsReply-other check_database_encryption_key h = tt
  IsReply-other (check_authentication_bot_token token) h = tt
  IsReply-other (set_authentication_phone_number phone) h = tt
  IsReply-other (check_authentication_code code) h = tt
  IsReply-other (check_authentication_password password) h = tt

  execute-Replying :
      (w : World) (id : ℤ) (request : Function) (callback : Option Callback)
      → is_message request ≡ 0
      → Replying w
      → Replying (execute w id request callback)
  unfolding Replying execute send_request_with_client_id
  execute-Replying w id request none h v = (IsReply-other request h, v)
  execute-Replying w id request (some c) h v = (IsReply-other request h, v)

  elsewhere-Replying :
      (v w : World)
      → outbox w.manager ≡ outbox v.manager
      → w.send_count ≡ v.send_count
      → Replying v
      → Replying w
  unfolding Replying
  elsewhere-Replying v w e f h = subst AllReplies (sym e) h

  greet-Replying :
      (w : World) (s : ClientSession) (m : Message) (text : Bytes)
      → w.send_count ≤ 10
      → HeardIn es m text
      → Replying w
      → Replying (answer (some (message_text text)) s w m).0
  unfolding Replying answer send_text_message execute send_request_with_client_id
  greet-Replying w s m text c h v = ((m, text, h, refl, refl), v)

  rules : Preserved Replying (HeardIn es)
  rules = record {
    requests = execute-Replying;
    elsewhere = elsewhere-Replying;
    greets = greet-Replying;
  }

-- The program speaks only when it is spoken to: from the state that it starts with, after any steps
-- of its threads in any order, every message that it has sent is "Hello, " and the text of a message
-- from somebody else that one of the steps brought in as an update, and goes to that message's chat.
pub sends_only_replies : (es : List Event) → AllReplies es (outbox (run new_world es).manager)
sends_only_replies es =
    let v : Replying es new_world = unfold Replying new_world new_manager in tt in
    let r : Replying es (run new_world es) =
      run-Kept (Replying es) (HeardIn es) (rules es) new_world es
        (Permits-HeardIn (HeardIn es) es (λ m text h. h)) v in
    unfold Replying in r
