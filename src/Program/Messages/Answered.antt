-- ===== src/Program/Messages/Answered.antt =====
-- src/core/startup.cpp, the message handler: a message that it greets, from the response that brings it
-- to the request that goes out.
use neo_group_captcha_bot.Common.{
  ◌≤◌, ◌≡◌, refl, suc, true, false, ◌∷◌, ◌++◌, some, ℤ, Bytes, codes, ge→ltb, if◌then◌else◌,
}
use neo_group_captcha_bot.Td.{Message, message_text, update_new_message, send_message}
use neo_group_captcha_bot.State.{ClientSession, World, MessageHandler, returned}
use neo_group_captcha_bot.Requests.{
  outbox, send_request_with_client_id, next_query_id, get_client_manager,
}
use neo_group_captcha_bot.Session.{execute, send_text_message}
use neo_group_captcha_bot.Session.Echo.{echo, answer, message_time}
use neo_group_captcha_bot.Session.Update.{Env, handle_update, handle_update_new_message}
use neo_group_captcha_bot.Manager.{
  get_session, store_session, dispatch_response, dispatch_object, deliver,
}
use neo_group_captcha_bot.Manager.Routing.{response_to}

-- The message is from somebody else, has this text, and is not older than the handler, by the time
-- that the code computes.
pub record IsNews (h : MessageHandler) (m : Message) (text : Bytes) : Type 0 where
  pub incoming : m.is_outgoing ≡ false
  pub reads : m.content ≡ some (message_text text)
  pub timely : h.startup_time ≤ message_time m.date

greeted : ClientSession → World → Message → Bytes → World
greeted s w m text =
    record (send_text_message w s.td_lib_object_id m.chat_id (codes "Hello, " ++ text) 0) {
      send_count = suc w.send_count;
    }

echo-greeted :
    (h : MessageHandler) (s : ClientSession) (w : World) (m : Message) (text : Bytes)
    → IsNews h m text
    → w.send_count ≤ 10
    → echo h s w m ≡ (greeted s w m text, returned true)
unfolding echo answer greeted
echo-greeted h s w m text v c =
    simp (v.reads, ge→ltb 10 w.send_count c, ge→ltb (message_time m.date) h.startup_time v.timely)
      refl

update-greeted :
    (h : MessageHandler) (s : ClientSession) (w : World) (env : Env) (m : Message) (text : Bytes)
    → s.message_handler ≡ some h
    → IsNews h m text
    → w.send_count ≤ 10
    → handle_update s w env (some (update_new_message (some m)))
      ≡ record { session = s; world = greeted s w m text; exit = returned true }
unfolding handle_update handle_update_new_message
update-greeted h s w env m text g v c =
    simp (v.incoming, g, if◌then◌else◌, echo-greeted h s w m text v c) refl

-- A message is answered at once: when the looper brings a session whose handler is installed a
-- message from somebody else with a text, not older than the handler by the time that the code
-- computes, and no more than ten have been answered before, one request goes out, under the next id,
-- from that session to the message's chat, with "Hello, " and the text; it is counted, and the
-- looper goes on.
pub message_is_answered :
    (w : World) (env : Env) (client_id : ℤ) (s : ClientSession) (h : MessageHandler) (m : Message)
    (text : Bytes)
    → get_session w client_id ≡ some s
    → s.message_handler ≡ some h
    → IsNews h m text
    → w.send_count ≤ 10
    → let (w1, exit) =
        dispatch_response w env (response_to client_id 0 (update_new_message (some m))) in
      (outbox w1.manager
        ≡ record {
          client_id = s.td_lib_object_id;
          request_id = w.manager.query_sequence;
          request = send_message m.chat_id 0 (codes "Hello, " ++ text);
        }
          ∷ outbox w.manager)
      × (w1.send_count ≡ suc w.send_count)
      × (exit ≡ returned true)
unfolding dispatch_response dispatch_object deliver store_session greeted send_text_message execute
    send_request_with_client_id next_query_id get_client_manager
message_is_answered w env client_id s h m text f g v c =
    simp (f, update-greeted h s w env m text g v c) (refl, refl, refl)
