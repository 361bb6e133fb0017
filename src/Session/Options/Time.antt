-- ===== src/Session/Options/Time.antt =====
-- src/core/manager/ClientSession.cpp: the clock that the session keeps of the server.
use neo_group_captcha_bot.Common.{
  ℕ, ◌+◌, ◌-◌, ◌/◌, ◌<◌, ◌≤◌, ◌≡◌, some, pos, codes, bytes_eq, two_64, arith,
}
use neo_group_captcha_bot.Td.{option_value_integer}
use neo_group_captcha_bot.State.{ClientSession}
use neo_group_captcha_bot.Session.Options.{handle_update_option, get_server_time_seconds}

-- After the option `unix_time`, received with the value `server` at the local time `then`, the
-- session's server clock shows `server` plus the seconds that the local clock has gone on since,
-- as long as that fits 64 bits; also when the server's clock is behind the local one, where the
-- difference that is kept has wrapped around.
server_time_tracks :
    (s : ClientSession) (server then now : ℕ)
    → server < two_64
    → then < two_64
    → then ≤ now
    → server + (now / 1000 - then / 1000) < two_64
    → get_server_time_seconds
        (handle_update_option s then
          (codes "unix_time")
          (some (option_value_integer (pos server)))).0
        now
      ≡ server + (now / 1000 - then / 1000)
unfolding handle_update_option get_server_time_seconds bytes_eq
server_time_tracks s server then now a b c d = omega arith
