-- ===== src/Program/Threads/Handlers.antt =====
-- The handlers of a session on two worlds that differ in their pools at most.
use neo_group_captcha_bot.Common.{
  nat_eq, ◌≡◌, refl, ap, sym, ◌∙◌, Bool, true, false, Option, none, some, ltb, if◌then◌else◌,
}
use neo_group_captcha_bot.Td.{
  Object, error, ok, update_authorization_state, update_option, update_user, update_new_message,
  update_logged, other_object, Message,
}
use neo_group_captcha_bot.State.{
  ClientSession, World, MessageHandler, Exit, returned, threw, null_read,
}
use neo_group_captcha_bot.Session.Echo.{echo, answer, message_time}
use neo_group_captcha_bot.Session.Update.{
  Env, handle_update, handle_update_new_message, call_handler, handled,
}
use neo_group_captcha_bot.Program.Threads.Erasure.{
  erase, Alike, AlikeReaction, erase-Alike, authorization-Alike, answer-Alike, choice-Alike,
}

echo-Alike :
    (h : MessageHandler) (s : ClientSession) (w : World) (m : Message)
    → Alike (echo h s w m).0 (echo h s (erase w) m).0
unfolding echo erase
echo-Alike h s w m = go (ltb 10 w.send_count) (ltb (message_time m.date) h.startup_time)
  where
    go :
        (b c : Bool)
        → Alike
            (if b then (w, threw) else if c then (w, returned true) else answer m.content s w m).0
            (if b
              then (erase w, threw)
              else if c
              then (erase w, returned true)
              else answer m.content s (erase w) m).0
    go true c = erase-Alike w
    go false true = erase-Alike w
    go false false = answer-Alike m.content s w m

handled-lem :
    (s : ClientSession) (r : World × Exit)
    → ((handled s r).session ≡ s) × ((handled s r).world ≡ r.0)
handled-lem s (w, returned b) = (refl, refl)
handled-lem s (w, threw) = (refl, refl)
handled-lem s (w, null_read) = (refl, refl)

handled-Alike :
    (s : ClientSession) (r q : World × Exit)
    → Alike r.0 q.0
    → AlikeReaction (handled s r) (handled s q)
handled-Alike s r q e = record {
  sessions = (handled-lem s r).0 ∙ sym (handled-lem s q).0;
  worlds = ap erase (handled-lem s r).1 ∙ e ∙ ap erase (sym (handled-lem s q).1);
}

handler-Alike :
    (h : Option MessageHandler) (s : ClientSession) (w : World) (m : Message)
    → AlikeReaction (call_handler h s w m) (call_handler h s (erase w) m)
handler-Alike none s w m = record { sessions = refl; worlds = erase-Alike w }
handler-Alike (some h) s w m =
    handled-Alike s (echo h s w m) (echo h s (erase w) m) (echo-Alike h s w m)

message-Alike :
    (o : Option Message) (s : ClientSession) (w : World)
    → AlikeReaction (handle_update_new_message s w o) (handle_update_new_message s (erase w) o)
unfolding handle_update_new_message
message-Alike none s w = record { sessions = refl; worlds = erase-Alike w }
message-Alike (some m) s w =
    choice-Alike m.is_outgoing _ _ _ _ (record { sessions = refl; worlds = erase-Alike w })
      (handler-Alike s.message_handler s w m)

pub update-Alike :
    (s : ClientSession) (w : World) (env : Env) (o : Object)
    → AlikeReaction (handle_update s w env (some o)) (handle_update s (erase w) env (some o))
unfolding handle_update
update-Alike s w env (update_authorization_state state) = authorization-Alike s w env.spawn state
update-Alike s w env (update_option name value) = record { sessions = refl; worlds = erase-Alike w }
update-Alike s w env (update_user user) = record { sessions = refl; worlds = erase-Alike w }
update-Alike s w env (update_new_message m) = message-Alike m s w
update-Alike s w env (update_logged kind) = record { sessions = refl; worlds = erase-Alike w }
update-Alike s w env (error code m) = record { sessions = refl; worlds = erase-Alike w }
update-Alike s w env ok = record { sessions = refl; worlds = erase-Alike w }
update-Alike s w env (other_object id) = record { sessions = refl; worlds = erase-Alike w }
