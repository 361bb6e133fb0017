-- ===== src/Examples/Runs.antt =====
-- The program of src/core/startup.cpp: a bot that starts, answers and asks for a code.
use neo_group_captcha_bot.Common.{
  suc, ◌≤◌, ◌≡◌, ◌≢◌, refl, sym, ◌∙◌, true, false, List, [], ◌∷◌, ◌++◌, none, some, pos, nat_eq,
  int_eq, codes, arith,
}
use neo_group_captcha_bot.UnorderedMap.{find}
use neo_group_captcha_bot.ConcurrentHashMap
use neo_group_captcha_bot.ThreadPool.{created}
use neo_group_captcha_bot.Td.{
  ok, update_authorization_state, update_new_message, Message, message_text, send_message,
  wait_phone_number, ready,
}
use neo_group_captcha_bot.State.{World, ClientSession, MessageHandler, returned, new_world}
use neo_group_captcha_bot.Requests.{outbox}
use neo_group_captcha_bot.Manager.{get_session, dispatch_response}
use neo_group_captcha_bot.Manager.Routing.{response_to}
use neo_group_captcha_bot.Program.{
  Event, creates, asks_option, logs_in_bot, dispatches, sets_handler, run,
}
use neo_group_captcha_bot.Program.Messages.{messages}
use neo_group_captcha_bot.Program.Messages.Replies.{AllReplies, sends_only_replies}
use neo_group_captcha_bot.Program.Messages.Answered.{IsNews, message_is_answered}
use neo_group_captcha_bot.Session.Echo.{message_time}
use neo_group_captcha_bot.Program.Messages.Bound.{run-messages_bounded}
use neo_group_captcha_bot.Program.Arguments.{Settings}
use neo_group_captcha_bot.Program.Start.{Surroundings, waits, main}
use neo_group_captcha_bot.Program.Grants.{Authorized}
use neo_group_captcha_bot.Program.Start.Grant.{main_needs_grant}
use neo_group_captcha_bot.Examples.Manager.{is_ready}
use neo_group_captcha_bot.Examples.Session.{fresh, env, parameters, token}

-- The bot's session is made, logs in and is let in, and a message handler is set.
abbrev start_up : List Event
start_up =
    creates (pos 1) parameters (created 1)
    ∷ asks_option (pos 1) (codes "version")
    ∷ logs_in_bot (pos 1) token
    ∷ sets_handler (pos 1) (record { startup_time = 1000 })
    ∷ dispatches env (response_to (pos 1) 0 (update_authorization_state (some wait_phone_number)))
    ∷ dispatches env (response_to (pos 1) 2 ok)
    ∷ dispatches env is_ready
    ∷ []

run-messages_bounded_example :
    let w = run new_world start_up in
    (messages (outbox w.manager) ≡ w.send_count) × (messages (outbox w.manager) ≤ 11)
run-messages_bounded_example = run-messages_bounded start_up

-- Then somebody writes "hi".
abbrev hi : Message
hi = record {
  chat_id = pos 9;
  is_outgoing = false;
  date = 2;
  content = some (message_text (codes "hi"));
}

abbrev talk : List Event
talk = start_up ++ (dispatches env (response_to (pos 1) 0 (update_new_message (some hi))) ∷ [])

sends_only_replies_example : AllReplies talk (outbox (run new_world talk).manager)
sends_only_replies_example = sends_only_replies talk

abbrev handler : MessageHandler
handler = record { startup_time = 1000 }

abbrev listener : ClientSession
listener = record fresh { message_handler = some handler }

abbrev listening : World
listening = record new_world {
  manager = record (new_world.manager) {
    client_sessions = record { backend = (pos 1, listener) ∷ [] };
  };
}

listener_found : get_session listening (pos 1) ≡ some listener
unfolding get_session ConcurrentHashMap.get find
listener_found = refl

hi-IsNews : IsNews handler hi (codes "hi")
unfolding message_time
hi-IsNews = record { incoming = refl; reads = refl; timely = omega arith }

message_is_answered_example :
    let (w1, exit) =
      dispatch_response listening env (response_to (pos 1) 0 (update_new_message (some hi))) in
    (outbox w1.manager
      ≡ record {
        client_id = pos 1;
        request_id = listening.manager.query_sequence;
        request = send_message (pos 9) 0 (codes "Hello, hi");
      }
        ∷ outbox listening.manager)
    × (w1.send_count ≡ suc listening.send_count)
    × (exit ≡ returned true)
message_is_answered_example =
    message_is_answered listening env (pos 1) listener handler hi (codes "hi") listener_found refl
      hi-IsNews (unfold new_world in omega arith)

-- A start in which the bot is let in during the second second of the wait.
abbrev around : Surroundings
around = record {
  exe_link = some (codes "/opt/bot/run");
  chdir_works = true;
  system_info = none;
  bot_id = pos 1;
  user_id = pos 2;
  bot_spawn = created 7;
  user_spawn = created 8;
  startup_time = 0;
  after_creation = [];
  after_option = [];
  after_log_in = [];
  after_handler = [];
  after_user_creation = [];
  after_user_option = [];
  seconds =
      []
      ∷ (dispatches env (response_to (pos 1) 0 (update_authorization_state (some ready))) ∷ [])
      ∷ [];
}

abbrev settings : Settings
settings = record {
  tg_api_id = pos 5;
  tg_api_hash = codes "hash";
  tg_bot_token = token;
  tg_user_phone = codes "+1 114514";
}

-- The same start, with a server that only asks for a phone number.
abbrev unanswered : Surroundings
unanswered = record around {
  seconds =
      []
      ∷ (dispatches env
            (response_to (pos 1) 0 (update_authorization_state (some wait_phone_number)))
          ∷ [])
      ∷ [];
}

no_session : get_session new_world (pos 1) ≡ none
unfolding get_session new_world ConcurrentHashMap.get find ConcurrentHashMap.empty
no_session = refl

nobody : Authorized new_world (pos 1) → ⊥
nobody (s, e, _) = absurd (ground (arith, sym no_session ∙ e))

main_needs_grant_example : main new_world parameters unanswered settings ≢ waits new_world
main_needs_grant_example =
    main_needs_grant new_world parameters unanswered settings new_world nobody
      (tt, tt, tt, tt, (tt, ((refl, tt), tt)))
