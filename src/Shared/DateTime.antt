-- ===== src/Shared/DateTime.antt =====
-- wallet/src/lib/date-time.ts. The program takes its times from `Date.now()` and from timestamp
-- columns that it wrote itself, so a time is a natural number of milliseconds.
pub mod Comparisons
use tanta.Base.{ℕ}

pub record DateTime : Type 0 where
  pub time_in_ms : ℕ

-- A `Date` object, by its `getTime()`.
abbrev pub Date : Type 0
Date = ℕ

-- The constructor, on a `Date` and on the number that `Date.now()` returns.
abbrev pub new_date_time : Date → DateTime
new_date_time time = record { time_in_ms = time }

abbrev pub to_date : DateTime → Date
to_date t = t.time_in_ms
