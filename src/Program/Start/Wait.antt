-- ===== src/Program/Start/Wait.antt =====
-- src/core/startup.cpp: when `main` logs the user in.
use neo_group_captcha_bot.Common.{
  subst, ℕ, zero, suc, ◌<◌, ◌≡◌, refl, ap, sym, ◌∙◌, ◌⊎◌, inl, inr, Bool, true, false, List, [],
  ◌∷◌, ℤ, is_empty, Bool-cases, if◌then◌else◌, arith,
}
use neo_group_captcha_bot.Td.{TdLibParameters}
use neo_group_captcha_bot.State.{World}
use neo_group_captcha_bot.FileUtils.{get_parent_directory}
use neo_group_captcha_bot.ProcessUtils.{get_current_executable_path}
use neo_group_captcha_bot.Manager.{create_session}
use neo_group_captcha_bot.Program.{Event, step, run}
use neo_group_captcha_bot.Program.Arguments.{Settings}
use neo_group_captcha_bot.Program.Start.{
  Surroundings, authorized_in, wait_log_in, Main, returns_error, waits, terminates, session_made,
  log_in_both, start_bot, start_user, after_wait, enter, bot_parameters, user_parameters, main,
}

-- The world after so many seconds.
abbrev pub after_seconds : ℕ → World → List (List Event) → World
after_seconds zero w seconds = w
after_seconds (suc k) w [] = after_seconds k w []
after_seconds (suc k) w (events ∷ rest) = after_seconds k (run w events) rest

-- What the seconds show, as a function, and how the loop ends with so many rounds: in the first in
-- which the session is authorized, with the world of that round, or in none.
abbrev pub IsEnd : ℕ → (ℕ → World) → ℤ → World × Bool → Type 0
IsEnd n f id r =
    ((k : ℕ) × (k < n)
      × (authorized_in (f k) id ≡ true)
      × ((j : ℕ) → j < k → authorized_in (f j) id ≡ false)
      × (r ≡ (f k, true)))
    ⊎ (((j : ℕ) → j < n → authorized_in (f j) id ≡ false) × (r ≡ (f n, false)))

absent_longer :
    (m : ℕ) (f g : ℕ → World) (id : ℤ)
    → ((k : ℕ) → g (suc k) ≡ f k)
    → authorized_in (g 0) id ≡ false
    → ((j : ℕ) → j < m → authorized_in (f j) id ≡ false)
    → (j : ℕ) → j < suc m
    → authorized_in (g j) id ≡ false
absent_longer m f g id same absent before zero h = absent
absent_longer m f g id same absent before (suc j) h =
    ap (λ w. authorized_in w id) (same j) ∙ before j (omega (arith, h))

-- A round in which it is not authorized comes first.
later-IsEnd :
    (n : ℕ) (f g : ℕ → World) (id : ℤ) (r : World × Bool)
    → ((k : ℕ) → g (suc k) ≡ f k)
    → authorized_in (g 0) id ≡ false
    → IsEnd n f id r
    → IsEnd (suc n) g id r
later-IsEnd n f g id r same absent (inl (k, l, there, before, e)) = inl (
  suc k,
  omega (arith, l),
  ap (λ w. authorized_in w id) (same k) ∙ there,
  absent_longer k f g id same absent before,
  e ∙ ap (λ w. (w, true)) (sym (same k)),
)
later-IsEnd n f g id r same absent (inr (never, e)) =
    inr (absent_longer n f g id same absent never, e ∙ ap (λ w. (w, false)) (sym (same n)))

wait_log_in-IsEnd :
    (n : ℕ) (w : World) (id : ℤ) (seconds : List (List Event))
    → IsEnd n (λ k. after_seconds k w seconds) id (wait_log_in n w id seconds)
unfolding wait_log_in
wait_log_in-IsEnd zero w id seconds = inr (λ j h. absurd (omega (arith, h)), refl)
wait_log_in-IsEnd (suc n) w id [] = elim (Bool-cases (authorized_in w id)) [
  | inl there ↦ rw there (inl (0, omega arith, there, λ j h. absurd (omega (arith, h)), refl))
  | inr absent ↦ rw absent (
      later-IsEnd n (λ k. after_seconds k w []) (λ k. after_seconds k w []) id
        (wait_log_in n w id []) (λ k. refl) absent (wait_log_in-IsEnd n w id []))
]
wait_log_in-IsEnd (suc n) w id (events ∷ rest) = elim (Bool-cases (authorized_in w id)) [
  | inl there ↦ rw there (inl (0, omega arith, there, λ j h. absurd (omega (arith, h)), refl))
  | inr absent ↦ rw absent (
      later-IsEnd n (λ k. after_seconds k (run w events) rest)
        (λ k. after_seconds k w (events ∷ rest)) id (wait_log_in n (run w events) id rest)
        (λ k. refl) absent (wait_log_in-IsEnd n (run w events) id rest))
]

-- The bot's session is started in the first world, and then is the wait.
abbrev pub bot_started : World → TdLibParameters → Surroundings → Settings → World
bot_started w defaults around settings = start_bot w around settings (
    bot_parameters defaults around settings
      (get_parent_directory (get_current_executable_path around.exe_link)))

abbrev pub has_directory : Surroundings → Bool
has_directory around =
    if is_empty (get_parent_directory (get_current_executable_path around.exe_link))
    then false
    else around.chdir_works

enter-ends :
    (none_found works : Bool) (w : World) (go_on : Main)
    → (((if none_found then false else works) ≡ false)
        × (enter none_found works w go_on ≡ returns_error w))
      ⊎ (enter none_found works w go_on ≡ go_on)
enter-ends true works w go_on = inl (refl, refl)
enter-ends false true w go_on = inr refl
enter-ends false false w go_on = inl (refl, refl)

-- What follows the log-in of the bot: that of the user, if `createSession` returns.
abbrev pub IsUserEnd : World → Surroundings → Settings → TdLibParameters → Main → Type 0
IsUserEnd w around settings parameters r =
    ((session_made w around.user_id parameters around.user_spawn ≡ true)
      × (r ≡ waits (start_user w around settings parameters)))
    ⊎ ((session_made w around.user_id parameters around.user_spawn ≡ false)
        × (r ≡ terminates (create_session w around.user_id parameters around.user_spawn).0))

-- The ends of `main`: without a directory, by an exception of the first `createSession`, after the
-- log-in of the bot, and after the wait.
abbrev pub IsMainEnd : World → TdLibParameters → Surroundings → Settings → Main → Type 0
IsMainEnd w defaults around settings r =
    let exe_dir = get_parent_directory (get_current_executable_path around.exe_link) in
    let for_bot = bot_parameters defaults around settings exe_dir in
    let f : ℕ → World =
      (λ k. after_seconds k (bot_started w defaults around settings) around.seconds) in
    ((has_directory around ≡ false) × (r ≡ returns_error w))
    ⊎ ((session_made w around.bot_id for_bot around.bot_spawn ≡ false)
        × (r ≡ terminates (create_session w around.bot_id for_bot around.bot_spawn).0))
    ⊎ ((k : ℕ) × (k < 120)
        × (authorized_in (f k) around.bot_id ≡ true)
        × ((j : ℕ) → j < k → authorized_in (f j) around.bot_id ≡ false)
        × IsUserEnd (f k) around settings (user_parameters defaults around settings exe_dir) r)
    ⊎ (((j : ℕ) → j < 120 → authorized_in (f j) around.bot_id ≡ false)
        × (r ≡ returns_error (f 120)))

user-ends :
    (w : World) (around : Surroundings) (settings : Settings) (parameters : TdLibParameters)
    → IsUserEnd w around settings parameters (after_wait (w, true) around settings parameters)
unfolding step
user-ends w around settings parameters =
    elim (Bool-cases (session_made w around.user_id parameters around.user_spawn)) [
      | inl t ↦ inl (t, rw t refl)
      | inr f ↦ inr (f, rw f refl)
    ]

log_in-ends :
    (w : World) (around : Surroundings) (settings : Settings) (for_bot for_user : TdLibParameters)
    → ((session_made w around.bot_id for_bot around.bot_spawn ≡ false)
        × (log_in_both w around settings for_bot for_user
            ≡ terminates (create_session w around.bot_id for_bot around.bot_spawn).0))
      ⊎ (log_in_both w around settings for_bot for_user
          ≡ after_wait
              (wait_log_in 120 (start_bot w around settings for_bot) around.bot_id around.seconds)
              around
              settings
              for_user)
unfolding step
log_in-ends w around settings for_bot for_user =
    elim (Bool-cases (session_made w around.bot_id for_bot around.bot_spawn)) [
      | inl t ↦ inr (rw t refl)
      | inr f ↦ inl (f, rw f refl)
    ]

pub main_lem :
    (w : World) (defaults : TdLibParameters) (around : Surroundings) (settings : Settings)
    → IsMainEnd w defaults around settings (main w defaults around settings)
unfolding main
main_lem w defaults around settings =
    let exe_dir = get_parent_directory (get_current_executable_path around.exe_link) in
    let start = bot_started w defaults around settings in
    let for_bot = bot_parameters defaults around settings exe_dir in
    let for_user = user_parameters defaults around settings exe_dir in
    let go_on = log_in_both w around settings for_bot for_user in
    let f : ℕ → World = (λ k. after_seconds k start around.seconds) in
    elim (enter-ends (is_empty exe_dir) around.chdir_works w go_on) [
      | inl (t, e) ↦ inl (t, e)
      | inr e ↦ elim (log_in-ends w around settings for_bot for_user) [
        | inl (t, d) ↦ inr (inl (t, e ∙ d))
        | inr c ↦ elim (wait_log_in-IsEnd 120 start around.bot_id around.seconds) [
          | inl (k, l, there, before, d) ↦
              let r = e ∙ c ∙ ap (λ r. after_wait r around settings for_user) d in
              inr (
                inr (
                  inl (
                    k,
                    l,
                    there,
                    before,
                    subst (IsUserEnd (f k) around settings for_user) (sym r)
                        (user-ends (f k) around settings for_user),
                  )))
          | inr (never, d) ↦
              inr (inr (inr (never, e ∙ c ∙ ap (λ r. after_wait r around settings for_user) d)))
        ]
      ]
    ]
