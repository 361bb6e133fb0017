-- ===== src/Log/Messages.antt =====
-- src/utils/log/Log.h: what the handler is given.
use neo_group_captcha_bot.Common.{
  ◌+◌, ◌-◌, ◌≡◌, refl, true, false, Option, none, some, Bytes, length, take, leb, take-all, arith,
}
use neo_group_captcha_bot.Log.{Level, buffer_size, filled, format, log_buffer}

-- The handler is given the whole text, as `logBuffer` gives it: the memory that `format` asks for
-- holds it.
format-log_buffer :
    {H : Type 0} (h : Option H) (level : Level) (tag text : Bytes)
    → format h level tag (some (some text)) true ≡ log_buffer h level tag text
unfolding format buffer_size filled log_buffer
format-log_buffer none level tag text = refl
format-log_buffer (some h) level tag text =
    let some_room : leb (length text + 4) 0 ≡ false = ground arith in
    let whole : take (length text + 4 - 1) text ≡ text =
      take-all (length text + 4 - 1) text (omega arith) in
    rw (some_room, whole) refl
