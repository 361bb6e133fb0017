-- ===== src/Session/Echo.antt =====
-- src/core/startup.cpp: the message handler that `main` gives to the bot's session.
use neo_group_captcha_bot.Common.{
  ℕ, suc, ◌+◌, ◌-◌, ◌*◌, ◌%◌, ◌^◌, ◌++◌, true, false, Option, none, some, codes, two_64, ltb,
  if◌then◌else◌,
}
use neo_group_captcha_bot.Td.{Message, MessageContent, message_text, plain_content, other_content}
use neo_group_captcha_bot.State.{
  ClientSession, World, MessageHandler, Exit, returned, threw, null_read,
}
use neo_group_captcha_bot.Session.{send_text_message}

-- An `int` with these 32 bits, converted to uint64_t: the sign is extended.
abbrev pub sign_extend : ℕ → ℕ
sign_extend x = if ltb x (2 ^ 31) then x else x + (two_64 - 2 ^ 32)

-- `message->date_ * 1000`: a product of two `int`s, which wraps, and then a uint64_t.
unfoldable pub message_time : ℕ → ℕ
message_time date = sign_extend (date * 1000 % 2 ^ 32)

unfoldable pub answer : Option MessageContent → ClientSession → World → Message → World × Exit
answer none s w message = (w, null_read)
answer (some (message_text text)) s w message = (
  record (send_text_message w s.td_lib_object_id message.chat_id (codes "Hello, " ++ text) 0) {
    send_count = suc w.send_count;
  },
  returned true,
)
answer (some (plain_content kind rest)) s w message = (w, returned false)
answer (some (other_content id rest)) s w message = (w, returned false)

unfoldable pub echo : MessageHandler → ClientSession → World → Message → World × Exit
echo h s w message =
    if ltb 10 w.send_count
    then (w, threw)
    else if ltb (message_time message.date) h.startup_time
    then (w, returned true)
    else answer message.content s w message
