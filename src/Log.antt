-- ===== src/Log.antt =====
-- src/utils/log/Log.h and src/utils/log/Log.cpp: the log. What `vsnprintf` makes of a format and its
-- arguments, or that it fails, is a parameter; so is whether `malloc` gives memory. A format or a
-- handler that is null is `none`.
pub mod Messages
use neo_group_captcha_bot.Common.{
  ℕ, suc, ◌+◌, ◌-◌, ◌++◌, Bool, true, false, List, [], ◌∷◌, Option, none, some, ℤ, pos, negsuc,
  Bytes, codes, length, take, leb, if◌then◌else◌,
}

pub data Level : Type 0 where
  unknown verbose debug info warn error : Level

-- What a call of a handler is given.
pub record Entry (H : Type 0) : Type 0 where
  pub handler : H
  pub level : Level
  pub tag : Bytes
  pub message : Bytes

-- A call does nothing, calls the handler, or calls it with memory that was never written.
pub data Logged (H : Type 0) : Type 0 where
  nothing : Logged H
  calls : Entry H → Logged H
  unwritten : Logged H

-- `vsnprintf(nullptr, 0, fmt, varg1) + 4`; `vsnprintf` gives -1 if it fails.
unfoldable pub buffer_size : Option Bytes → ℕ
buffer_size none = 3
buffer_size (some text) = length text + 4

-- `vsnprintf((char *) buffer, size, fmt, varg2)`: at most `size - 1` bytes and a 0.
unfoldable pub filled : {H : Type 0} → H → Level → Bytes → ℕ → Option Bytes → Logged H
filled h level tag size none = unwritten
filled h level tag size (some text) =
    calls (record { handler = h; level = level; tag = tag; message = take (size - 1) text })

-- `Log::format`: the handler, the text that `vsnprintf` makes of a format, `malloc`.
unfoldable pub format :
    {H : Type 0} → Option H → Level → Bytes → Option (Option Bytes) → Bool → Logged H
unfolding buffer_size filled
format none level tag rendered has_memory = nothing
format (some h) level tag none has_memory = nothing
format (some h) level tag (some rendered) has_memory =
    if leb (buffer_size rendered) 0
    then nothing
    else if has_memory
    then filled h level tag (buffer_size rendered) rendered
    else nothing

-- `Log::logBuffer`.
unfoldable pub log_buffer : {H : Type 0} → Option H → Level → Bytes → Bytes → Logged H
log_buffer none level tag msg = nothing
log_buffer (some h) level tag msg =
    calls (record { handler = h; level = level; tag = tag; message = msg })

-- `Log::levelToString`.
unfoldable pub level_to_string : Level → Bytes
level_to_string unknown = codes "UNKNOWN"
level_to_string verbose = codes "VERBOSE"
level_to_string debug = codes "DEBUG"
level_to_string info = codes "INFO"
level_to_string warn = codes "WARN"
level_to_string error = codes "ERROR"
