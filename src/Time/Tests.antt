-- ===== src/Time/Tests.antt =====
-- Runs of the calendar and the clocks (`src/time/`).
use reddyos_osdev.Base.{
  ◌↔◌, ◌≢◌, ℕ, zero, suc, ◌+◌, ◌-◌, ◌%◌, ◌≤◌, ◌<◌, ◌≡◌, refl, true, false, none, some, [], ◌∷◌,
  ◌==◌, if◌then◌else◌, arith,
}
use reddyos_osdev.Base.Int.{ℤ, pos, negsuc, ◌≤ℤ◌}
use reddyos_osdev.Base.Outcome.{done}
use reddyos_osdev.Memory.Page.{add64}
use reddyos_osdev.Base.Int
use reddyos_osdev.Time.Calendar
use reddyos_osdev.Time.Calendar.{
  Date, IsDate, days_of_years, leaps_to, days_since_epoch, next_day, month_length, is_leap,
  days_of_years_lem, days_since_epoch-next_day,
}
use reddyos_osdev.Time.Timespec.{Timespec}
use reddyos_osdev.Time.Clocks.{
  ClockSource, Clocks, clock_get_ns, get_best_clock, register_clock_source, register_time_source,
  is_clock_available, find_clock, get_clock,
}
use reddyos_osdev.Time.Clocks.Registry.{IsConsistent, register-IsConsistent}
use reddyos_osdev.Time.Clocks.Reading.{clock_get_ns_wraps}
use reddyos_osdev.Time.PmTimer.{PmTimer, read_at, modulus, read_at_lem}
use reddyos_osdev.Time.Rtc.{Sample, decode_hour, bcd_hour}
use reddyos_osdev.Time.Rtc.Decode.{hour_byte, hour_of_day, decode_hour_twelve}

abbrev leap_day : Date
leap_day = record { year = 2024; month = 2; day = 29 }

leap_day-IsDate : IsDate leap_day
leap_day-IsDate = record {
  epoch = omega arith;
  from = omega arith;
  to = omega arith;
  first = omega arith;
  last = omega arith;
}

days_since_epoch_2024 : days_since_epoch 2024 2 29 ≡ some (pos 19782)
unfolding days_since_epoch Calendar.days_of_months month_length Int.◌+ℤ◌ days_of_years is_leap
days_since_epoch_2024 = refl

days_since_epoch_example :
    (d : ℕ) × (days_since_epoch 2024 2 29 ≡ some (pos d))
    × (days_since_epoch (next_day leap_day).year (next_day leap_day).month (next_day leap_day).day
        ≡ some (pos (d + 1)))
days_since_epoch_example = days_since_epoch-next_day leap_day leap_day-IsDate

-- A second and a half before the epoch, with the sign on both fields.
abbrev before : Timespec
before = record { tv_sec = negsuc 0; tv_nsec = negsuc 499999999 }

abbrev tsc : ClockSource
tsc = record { id = 0; now = 4096; real = 0; freq = 3000000000 }

abbrev rtc : ClockSource
rtc = record { id = 3; now = 0; real = 8192; freq = 0 }

abbrev no_clocks : Clocks
no_clocks = record { clock_list = []; available = 0; boot_clock = none; boot_clock_base = 0 }

abbrev two_clocks : Clocks
two_clocks = record no_clocks { clock_list = rtc ∷ tsc ∷ []; available = 9 }

no_clocks-IsConsistent : IsConsistent no_clocks
unfolding is_clock_available find_clock
no_clocks-IsConsistent zero h = refl
no_clocks-IsConsistent (suc zero) h = refl
no_clocks-IsConsistent (suc (suc zero)) h = refl
no_clocks-IsConsistent (suc (suc (suc zero))) h = refl
no_clocks-IsConsistent (suc (suc (suc (suc id)))) h = absurd (omega arith)

two_clocks-IsConsistent : IsConsistent two_clocks
unfolding is_clock_available find_clock
two_clocks-IsConsistent zero h = refl
two_clocks-IsConsistent (suc zero) h = refl
two_clocks-IsConsistent (suc (suc zero)) h = refl
two_clocks-IsConsistent (suc (suc (suc zero))) h = refl
two_clocks-IsConsistent (suc (suc (suc (suc id)))) h = absurd (omega arith)

best_of_two : get_best_clock two_clocks ≡ some tsc
unfolding get_best_clock is_clock_available find_clock get_clock
best_of_two = refl

register_example :
    ((s' : Clocks) × (register_clock_source true 1 4096 5 two_clocks ≡ done s')
      × IsConsistent s'
      × (is_clock_available 1 s' ≡ true))
    × ((s' : Clocks) × (register_time_source true 1 0 two_clocks ≡ done s')
        × IsConsistent s'
        × (is_clock_available 1 s' ≡ true))
register_example = register-IsConsistent 1 4096 5 0 two_clocks (omega arith) two_clocks-IsConsistent

clock_get_ns_wraps_example : clock_get_ns tsc 18446744074 < clock_get_ns tsc 18446744073
clock_get_ns_wraps_example = clock_get_ns_wraps tsc (omega arith) (omega arith)

abbrev pm_start : PmTimer
pm_start = record { accumulated = 100; last = 0xFFFFF0 }

read_at_example :
    ((read_at false pm_start (0x1000010 ∷ 0x1F00000 ∷ [])).accumulated
      ≡ add64 100 (0x1F00000 - 0xFFFFF0))
    × ((read_at false pm_start (0x1000010 ∷ 0x1F00000 ∷ [])).last ≡ 0x1F00000 % modulus false)
    × (0xFFFFF0 ≤ 0x1F00000)
read_at_example =
    read_at_lem false 0xFFFFF0 0x1F00000 pm_start (0x1000010 ∷ 0x1F00000 ∷ []) (omega arith) refl
      (omega arith, omega arith, (omega arith, omega arith, refl))

abbrev evening : Sample
evening = record {
  second = 59;
  minute = 30;
  hour = 23;
  day = 31;
  month = 12;
  year = 25;
  century = 20;
}

decode_hour_twelve_example :
    (decode_hour 0 (bcd_hour (hour_byte true 12)) ≡ hour_of_day true 12) ↔ (◌≢◌ {A = ℕ} 12 12)
decode_hour_twelve_example = decode_hour_twelve 0 12 true refl (omega arith) (omega arith)

-- Every register shows its own number; the update flag is seen at moment 3.
abbrev cmos : ℕ → ℕ → ℕ
cmos t r = if r == 0x0A then (if t == 3 then 0x80 else 0) else r
