-- ===== src/Program/Start.antt =====
-- src/core/startup.cpp: `main` from the settings on. The calls of the other threads between two calls
-- of `main` are lists of events, and so are those in each second of its wait.
pub mod Wait
pub mod Grant
use neo_group_captcha_bot.Common.{
  ℕ, zero, suc, ◌+◌, ◌++◌, Bool, true, false, List, [], ◌∷◌, Option, none, some, ℤ, pos, negsuc,
  Bytes, codes, is_empty, if◌then◌else◌,
}
use neo_group_captcha_bot.ThreadPool.{Spawn}
use neo_group_captcha_bot.Td.{TdLibParameters}
use neo_group_captcha_bot.State.{ClientSession, World, MessageHandler}
use neo_group_captcha_bot.Session.{is_authorized}
use neo_group_captcha_bot.Manager.{get_session, create_session, is_returned}
use neo_group_captcha_bot.FileUtils.{get_parent_directory}
use neo_group_captcha_bot.ProcessUtils.{get_current_executable_path}
use neo_group_captcha_bot.Program.{
  Event, creates, asks_option, logs_in_bot, logs_in_user, sets_handler, step, run,
}
use neo_group_captcha_bot.Program.Arguments.{Settings}

-- What `uname` gives.
pub record SystemInfo : Type 0 where
  pub sysname : Bytes
  pub machine : Bytes
  pub release : Bytes

-- What `main` asks of the system and of the client library, and what the other threads do between
-- its calls.
pub record Surroundings : Type 0 where
  pub exe_link : Option Bytes
  pub chdir_works : Bool
  pub system_info : Option SystemInfo
  pub bot_id : ℤ
  pub user_id : ℤ
  pub bot_spawn : Spawn
  pub user_spawn : Spawn
  pub startup_time : ℕ
  pub after_creation : List Event
  pub after_option : List Event
  pub after_log_in : List Event
  pub after_handler : List Event
  pub seconds : List (List Event)
  pub after_user_creation : List Event
  pub after_user_option : List Event

-- The members that `TdLibParameters` starts with are an argument; `database` is the last part of the
-- path.
unfoldable pub parameters_of :
    TdLibParameters → Settings → Bytes → Option SystemInfo → Bytes → TdLibParameters
parameters_of defaults settings exe_dir info database =
    let p = record defaults {
      api_id = settings.tg_api_id;
      api_hash = settings.tg_api_hash;
      use_test_dc = false;
      database_directory = exe_dir ++ (codes "/database/" ++ database);
    } in
    elim info [
      | none ↦ p
      | some i ↦ record p {
        device_model = i.sysname ++ (codes " " ++ i.machine);
        system_version = i.release;
      }
    ]

-- `botClient->isAuthorized()`.
abbrev pub authorized_in : World → ℤ → Bool
authorized_in w id = elim (get_session w id) [ none ↦ false | some s ↦ is_authorized s ]

-- The loop, with the rounds that are left; a second of which nothing is said is a quiet one.
unfoldable pub wait_log_in : ℕ → World → ℤ → List (List Event) → World × Bool
wait_log_in zero w id seconds = (w, false)
wait_log_in (suc n) w id [] =
    let later = wait_log_in n w id [] in if authorized_in w id then (w, true) else later
wait_log_in (suc n) w id (events ∷ rest) =
    let later = wait_log_in n (run w events) id rest in
    if authorized_in w id then (w, true) else later

-- `main` returns -1, it waits for its pool to end, or an exception leaves it.
pub data Main : Type 0 where
  returns_error : World → Main
  waits : World → Main
  terminates : World → Main

-- Whether `createSession` returns: it throws when the looper's thread cannot be made.
unfoldable pub session_made : World → ℤ → TdLibParameters → Spawn → Bool
unfolding create_session
session_made w id parameters spawn = is_returned (create_session w id parameters spawn).1

-- To the log-in of the bot.
unfoldable pub start_bot : World → Surroundings → Settings → TdLibParameters → World
start_bot w around settings parameters =
    let w1 = step w (creates around.bot_id parameters around.bot_spawn) in
    let w2 = step (run w1 around.after_creation) (asks_option around.bot_id (codes "version")) in
    let w3 = step (run w2 around.after_option) (logs_in_bot around.bot_id settings.tg_bot_token) in
    let handler : MessageHandler = record { startup_time = around.startup_time } in
    let w4 = step (run w3 around.after_log_in) (sets_handler around.bot_id handler) in
    run w4 around.after_handler

-- The log-in of the user; the option is asked for through the session of the bot.
unfoldable pub start_user : World → Surroundings → Settings → TdLibParameters → World
start_user w around settings parameters =
    let w1 = step w (creates around.user_id parameters around.user_spawn) in
    let w2 =
      step (run w1 around.after_user_creation) (asks_option around.bot_id (codes "version")) in
    step (run w2 around.after_user_option) (logs_in_user around.user_id settings.tg_user_phone)

abbrev pub after_wait : World × Bool → Surroundings → Settings → TdLibParameters → Main
after_wait (w, true) around settings parameters =
    if session_made w around.user_id parameters around.user_spawn
    then waits (start_user w around settings parameters)
    else terminates (step w (creates around.user_id parameters around.user_spawn))
after_wait (w, false) around settings parameters = returns_error w

abbrev pub bot_parameters : TdLibParameters → Surroundings → Settings → Bytes → TdLibParameters
bot_parameters defaults around settings exe_dir =
    parameters_of defaults settings exe_dir around.system_info (codes "bot_1")

abbrev pub user_parameters : TdLibParameters → Surroundings → Settings → Bytes → TdLibParameters
user_parameters defaults around settings exe_dir =
    parameters_of defaults settings exe_dir around.system_info (codes "user_1")

-- `main` returns -1 if there is no directory or it cannot be made the working directory.
abbrev pub enter : Bool → Bool → World → Main → Main
enter true chdir_works w go_on = returns_error w
enter false false w go_on = returns_error w
enter false true w go_on = go_on

-- From the first call of `createSession` on.
abbrev pub log_in_both : World → Surroundings → Settings → TdLibParameters → TdLibParameters → Main
log_in_both w around settings for_bot for_user =
    if session_made w around.bot_id for_bot around.bot_spawn
    then after_wait
        (wait_log_in 120 (start_bot w around settings for_bot) around.bot_id around.seconds) around
        settings for_user
    else terminates (step w (creates around.bot_id for_bot around.bot_spawn))

unfoldable pub main : World → TdLibParameters → Surroundings → Settings → Main
unfolding session_made start_bot start_user wait_log_in
main w defaults around settings =
    let exe_dir = get_parent_directory (get_current_executable_path around.exe_link) in
    enter (is_empty exe_dir) around.chdir_works w (
      log_in_both w around settings (bot_parameters defaults around settings exe_dir)
        (user_parameters defaults around settings exe_dir))
