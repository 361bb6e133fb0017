-- ===== src/Session/Answers.antt =====
-- src/core/manager/ClientSession.cpp: what `handleUpdate` answers, and what `handleUpdateOption`
-- writes and reads.
use neo_group_captcha_bot.Common.{
  ◌≡◌, ◌↔◌, refl, ℕ, ℤ, Bool, true, false, ◌&&◌, ◌||◌, Option, none, some, Bytes, bytes_eq,
  bytes_eq_iff, codes, to_u64, if◌then◌else◌, arith,
}
use neo_group_captcha_bot.Td.{
  other_state, Object, error, ok, update_authorization_state, update_option, update_user,
  update_new_message, update_logged, other_object, OptionValue, option_value_integer, Message,
}
use neo_group_captcha_bot.State.{ClientSession, World, returned, null_read}
use neo_group_captcha_bot.Session.Auth.{handle_update_authorization_state, on_wait_phone_number}
use neo_group_captcha_bot.Session.Options.{handle_update_option, delta_seconds}
use neo_group_captcha_bot.Session.Update.{Env, handle_update, handle_update_new_message}

-- The objects that the session knows what to do with.
abbrev pub knows : Object → Bool
knows (update_authorization_state none) = false
knows (update_authorization_state (some (other_state type))) = false
knows (update_authorization_state (some state)) = true
knows (update_option name value) = true
knows (update_user user) = true
knows (update_new_message message) = true
knows (update_logged kind) = true
knows (error code message) = false
knows ok = false
knows (other_object id) = false

-- The names whose value is read.
abbrev pub is_read : Bytes → Bool
is_read name =
    bytes_eq name (codes "my_id")
    || (bytes_eq name (codes "authorization_date") || bytes_eq name (codes "unix_time"))

-- The options of `handleUpdateOption` are read through a null pointer exactly if the value is null
-- and the name is one of the three that the session keeps; then nothing is written.
option_null_read :
    (s : ClientSession) (now : ℕ) (name : Bytes) (value : Option OptionValue)
    → ((handle_update_option s now name value).1 ≡ null_read)
      ↔ ((value ≡ none) × (is_read name ≡ true))
unfolding handle_update_option
option_null_read s now name none = ground arith
option_null_read s now name (some v) = ground arith

abbrev pub integer_or : Option OptionValue → ℤ → ℤ
integer_or (some (option_value_integer v)) d = v
integer_or _ d = d

abbrev pub is_integer : Option OptionValue → Bool
is_integer (some (option_value_integer v)) = true
is_integer _ = false

-- A text is not two different texts.
other_name :
    (name a b : Bytes) → bytes_eq a b ≡ false → bytes_eq name a ≡ true → bytes_eq name b ≡ false
other_name name a b h e = ground (arith, bytes_eq_iff name a, bytes_eq_iff name b, bytes_eq_iff a b)

-- The three names are different texts, so at most one of the three members is written, and each
-- only by an integer under its own name; nothing else of the session changes.
option_writes :
    (s : ClientSession) (now : ℕ) (name : Bytes) (value : Option OptionValue)
    → let t = (handle_update_option s now name value).0 in
      (t ≡ record s {
        user_id = t.user_id;
        authorization_date = t.authorization_date;
        server_time_delta_seconds = t.server_time_delta_seconds;
      })
      × (t.user_id ≡ (
          if bytes_eq name (codes "my_id") && is_integer value
          then integer_or value s.user_id
          else s.user_id))
      × (t.authorization_date ≡ (
          if bytes_eq name (codes "authorization_date") && is_integer value
          then to_u64 (integer_or value s.user_id)
          else s.authorization_date))
      × (t.server_time_delta_seconds ≡ (
          if bytes_eq name (codes "unix_time") && is_integer value
          then delta_seconds (integer_or value s.user_id) now
          else s.server_time_delta_seconds))
unfolding handle_update_option bytes_eq
option_writes s now name value = ground (
  arith,
  other_name name (codes "my_id") (codes "authorization_date") refl,
  other_name name (codes "my_id") (codes "unix_time") refl,
  other_name name (codes "authorization_date") (codes "unix_time") refl,
)

message-exit :
    (s : ClientSession) (w : World) (m : Option Message) (b : Bool)
    → (handle_update_new_message s w m).exit ≡ returned b
    → b ≡ true
unfolding handle_update_new_message
message-exit s w m b h = ground arith

option-exit :
    (s : ClientSession) (now : ℕ) (name : Bytes) (value : Option OptionValue) (b : Bool)
    → (handle_update_option s now name value).1 ≡ returned b
    → b ≡ true
unfolding handle_update_option
option-exit s now name value b h = ground arith

-- Whenever `handleUpdate` returns for an object, it answers whether the session knows the object.
handle_update_answers :
    (s : ClientSession) (w : World) (env : Env) (o : Object) (b : Bool)
    → (handle_update s w env (some o)).exit ≡ returned b
    → b ≡ knows o
unfolding handle_update
handle_update_answers s w env (update_authorization_state state) b h =
    unfold handle_update_authorization_state on_wait_phone_number in ground arith
handle_update_answers s w env (update_option name value) b h = option-exit s env.now name value b h
handle_update_answers s w env (update_user user) b h = ground arith
handle_update_answers s w env (update_new_message m) b h = message-exit s w m b h
handle_update_answers s w env (update_logged kind) b h = ground arith
handle_update_answers s w env (error code m) b h = ground arith
handle_update_answers s w env ok b h = ground arith
handle_update_answers s w env (other_object id) b h = ground arith
