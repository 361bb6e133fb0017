-- ===== src/Program/Clock.antt =====
-- src/core/startup.cpp: the time of day in a line of the log.
use neo_group_captcha_bot.Common.{ℕ, ◌+◌, ◌*◌, ◌/◌, ◌%◌, ◌<◌, ◌≡◌, ◌↔◌, two_64, arith}

pub record Clock : Type 0 where
  pub hours : ℕ
  pub minutes : ℕ
  pub seconds : ℕ
  pub millis : ℕ

-- Milliseconds since the epoch: `timeOfDay`.
unfoldable pub time_of_day : ℕ → ℕ
time_of_day timestamp = (timestamp % (24 * 60 * 60 * 1000) + 8 * 60 * 60 * 1000) % two_64

-- The four numbers that `snprintf` is given.
unfoldable pub log_clock : ℕ → Clock
unfolding time_of_day
log_clock timestamp = record {
  hours = time_of_day timestamp / (60 * 60 * 1000);
  minutes = (time_of_day timestamp / (60 * 1000)) % 60;
  seconds = (time_of_day timestamp / 1000) % 60;
  millis = timestamp % 1000;
}

-- The four numbers give the milliseconds of the day in UTC with eight hours added, with no wrap at
-- midnight: the hours stay below 24 exactly if it is before 16:00 in UTC, and below 32 always.
log_clock_lem :
    (timestamp : ℕ)
    → let c = log_clock timestamp in
      (((c.hours * 60 + c.minutes) * 60 + c.seconds) * 1000 + c.millis
        ≡ timestamp % 86400000 + 28800000)
      × ((c.hours < 24) ↔ ((timestamp / 3600000) % 24 < 16))
      × (c.hours < 32)
unfolding log_clock
log_clock_lem timestamp = omega arith
