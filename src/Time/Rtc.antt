-- ===== src/Time/Rtc.antt =====
-- The real-time clock (`src/time/clocks/rtc.c`): the reading loop of `rtc_init` and the decoding of
-- the registers. The CMOS is a function of the moment and the register; every read of it is a
-- moment. Registers hold bytes.
pub mod Decode
pub mod Steady
use Prim.Native.Nat.{bit_and, bit_or}
use reddyos_osdev.Base.{
  ℕ, zero, suc, ◌+◌, ◌-◌, ◌*◌, ◌/◌, ◌%◌, ◌^◌, ◌≤◌, ◌<◌, ◌≡◌, ◌≢◌, ◌∙◌, refl, ap, Bool, true, false,
  Option, none, some, ◌==◌, not, ◌&&◌, if◌then◌else◌, arith, holds_below, holds_below-at, ==_iff,
  leb, ltb, ◌||◌,
}
use reddyos_osdev.Base.Bits.{bit_and-ones}
use reddyos_osdev.Base.Int.{ℤ, pos, negsuc, ◌+ℤ◌, ◌*ℤ◌}
use reddyos_osdev.Time.Calendar.{days_since_epoch}
use reddyos_osdev.Time.Timespec.{Timespec}

-- The seven values that `rtc_init` reads in a row.
pub record Sample : Type 0 where
  pub second : ℕ
  pub minute : ℕ
  pub hour : ℕ
  pub day : ℕ
  pub month : ℕ
  pub year : ℕ
  pub century : ℕ

unfoldable pub bcd : ℕ → ℕ
bcd x = bit_and x 0x0F + x / 16 * 10

unfoldable pub bcd_hour : ℕ → ℕ
bcd_hour x = bit_or (bit_and x 0x0F + bit_and x 0x70 / 16 * 10) (bit_and x 0x80)

-- The two conversions of `rtc_init`, by status register B and whether there is a century register.
unfoldable pub decode_bcd : ℕ → Bool → Sample → Sample
decode_bcd status_b has_century s =
    if bit_and status_b 0x04 == 0
    then record {
      second = bcd s.second;
      minute = bcd s.minute;
      hour = bcd_hour s.hour;
      day = bcd s.day;
      month = bcd s.month;
      year = bcd s.year;
      century = if has_century then bcd s.century else s.century;
    }
    else s

unfoldable pub decode_hour : ℕ → ℕ → ℕ
decode_hour status_b hour =
    if bit_and status_b 0x02 == 0 && not (bit_and hour 0x80 == 0)
    then (bit_and hour 0x7F + 12) % 24
    else hour

unfoldable pub decode : ℕ → Bool → Sample → Sample
decode status_b has_century s =
    let t = decode_bcd status_b has_century s in record t { hour = decode_hour status_b t.hour }

unfoldable pub rtc_to_timespec : Sample → Option Timespec
rtc_to_timespec s = elim (days_since_epoch (s.year + s.century * 100) s.month s.day) [
  | none ↦ none
  | some days ↦ some (record {
    tv_sec = days *ℤ pos 86400 +ℤ pos (s.hour * 3600 + s.minute * 60 + s.second);
    tv_nsec = pos 0;
  })
]

unfoldable pub same_sample : Sample → Sample → Bool
same_sample a b =
    a.second == b.second
    && a.minute == b.minute
    && a.hour == b.hour
    && a.day == b.day
    && a.month == b.month
    && a.year == b.year
    && a.century == b.century

module _ (cmos : ℕ → ℕ → ℕ) (century_reg : ℕ) where
  -- The reads from moment `t` on; without a century register the century is 20.
  unfoldable pub read_sample : ℕ → Sample × ℕ
  read_sample t = (
    record {
      second = cmos t 0x00;
      minute = cmos (t + 1) 0x02;
      hour = cmos (t + 2) 0x04;
      day = cmos (t + 3) 0x07;
      month = cmos (t + 4) 0x08;
      year = cmos (t + 5) 0x09;
      century = if century_reg == 0 then 20 else cmos (t + 6) century_reg;
    },
    if century_reg == 0 then t + 6 else t + 7,
  )

  -- `while (!get_update_flag())`.
  unfoldable pub wait_update : ℕ → ℕ → Option ℕ
  wait_update zero t = none
  wait_update (suc fuel) t =
      let rest = wait_update fuel (t + 1) in
      if bit_and (cmos t 0x0A) 0x80 == 0 then rest else some (t + 1)

  -- The outer loop, until two samples in a row agree.
  unfoldable pub read_stable : ℕ → ℕ → Option (Sample × ℕ)
  read_stable zero t = none
  read_stable (suc fuel) t = elim (wait_update (suc fuel) t) [
    | none ↦ none
    | some t1 ↦
        let a = read_sample t1 in
        let b = read_sample a.1 in
        let rest = read_stable fuel b.1 in if same_sample a.0 b.0 then some b else rest
  ]

  -- `rtc_init` up to the registration of the clock.
  unfoldable pub rtc_init : ℕ → Option Timespec
  rtc_init fuel = elim (read_stable fuel 0) [
    | none ↦ none
    | some (s, t) ↦
        let mode_bcd = cmos t 0x0B in
        let mode_hour = cmos (t + 1) 0x0B in
        let s' = decode_bcd mode_bcd (not (century_reg == 0)) s in
        rtc_to_timespec (record s' { hour = decode_hour mode_hour s'.hour })
  ]
