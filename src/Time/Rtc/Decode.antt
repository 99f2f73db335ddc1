-- ===== src/Time/Rtc/Decode.antt =====
-- What `rtc_init` (`src/time/clocks/rtc.c`) makes of the registers.
use Prim.Native.Nat.{bit_and}
use reddyos_osdev.Base.{
  ℕ, ◌+◌, ◌*◌, ◌/◌, ◌%◌, ◌≤◌, ◌<◌, ◌≡◌, ◌≢◌, refl, Bool, true, false, ◌==◌, ◌&&◌, ◌||◌, not,
  if◌then◌else◌, arith, holds_below, holds_below-at, ◌↔◌, ◌∙◌, ℕ_discrete,
}
use reddyos_osdev.Base.Bits.{bit_and-ones}
use reddyos_osdev.Time.Rtc.{Sample, bcd, bcd_hour, decode_bcd, decode_hour, decode}

-- Two decimal digits in a byte.
abbrev pub to_bcd : ℕ → ℕ
to_bcd n = n / 10 * 16 + n % 10

bcd-to_bcd : (n : ℕ) → n < 100 → bcd (to_bcd n) ≡ n
unfolding bcd
bcd-to_bcd n h = omega (arith, bit_and-ones 4 (to_bcd n))

-- The hour register in 12-hour mode: 1 to 12, with the highest bit in the afternoon.
abbrev pub hour_byte : Bool → ℕ → ℕ
hour_byte afternoon h = to_bcd h + (if afternoon then 0x80 else 0)

abbrev pub IsHour24 : ℕ → Type 0
IsHour24 status_b = bit_and status_b 0x02 ≢ 0

abbrev morning_test : ℕ → Bool
morning_test h = bcd_hour (to_bcd h) == h && (bit_and (bcd_hour (to_bcd h)) 0x80 == 0)

morning_table : holds_below 24 morning_test ≡ true
unfolding bcd_hour
morning_table = refl

abbrev afternoon_test : ℕ → Bool
afternoon_test h =
    not (bit_and (bcd_hour (to_bcd h + 0x80)) 0x80 == 0)
    && ((bit_and (bcd_hour (to_bcd h + 0x80)) 0x7F + 12) % 24 == (if h == 12 then 0 else h + 12))

afternoon_table : holds_below 13 (λ h. h == 0 || afternoon_test h) ≡ true
unfolding bcd_hour
afternoon_table = refl

-- A clock in binary-coded 24-hour mode is read as it stands: every field of the decoded sample is
-- the number that the clock shows.
pub decode_24_hours :
    (status_b : ℕ) (shown : Sample)
    → bit_and status_b 0x04 ≡ 0
    → IsHour24 status_b
    → shown.second < 60
    → shown.minute < 60
    → shown.hour < 24
    → shown.day < 32
    → shown.month < 13
    → shown.year < 100
    → shown.century < 100
    → decode status_b true (record {
      second = to_bcd shown.second;
      minute = to_bcd shown.minute;
      hour = to_bcd shown.hour;
      day = to_bcd shown.day;
      month = to_bcd shown.month;
      year = to_bcd shown.year;
      century = to_bcd shown.century;
    })
      ≡ shown
unfolding decode decode_bcd decode_hour
decode_24_hours b s mode day24 h1 h2 h3 h4 h5 h6 h7 =
    let m = holds_below-at 24 s.hour morning_test h3 morning_table in
    ground (
      arith,
      bcd-to_bcd s.second,
      bcd-to_bcd s.minute,
      bcd-to_bcd s.day,
      bcd-to_bcd s.month,
      bcd-to_bcd s.year,
      bcd-to_bcd s.century,
      m,
    )

-- In 12-hour mode the hours from 1 to 11 are decoded to the hour of the day, before and after noon.
pub decode_hour_12 :
    (status_b h : ℕ)
    → bit_and status_b 0x02 ≡ 0
    → 1 ≤ h
    → h < 12
    → (decode_hour status_b (bcd_hour (hour_byte false h)) ≡ h)
      × (decode_hour status_b (bcd_hour (hour_byte true h)) ≡ h + 12)
unfolding decode_hour
decode_hour_12 b h mode lo hi =
    let m = holds_below-at 24 h morning_test (omega arith) morning_table in
    let a = holds_below-at 13 h (λ h. h == 0 || afternoon_test h) (omega arith) afternoon_table in
    (ground (arith, m, mode), ground (arith, a, mode))

-- The hour of the day that the register means: 12 stands for the first hour of either half.
abbrev pub hour_of_day : Bool → ℕ → ℕ
hour_of_day afternoon h = h % 12 + (if afternoon then 12 else 0)

-- In 12-hour mode the decoded hour is the hour of the day for every hour from 1 to 12, before and after
-- noon, but for the hour 12, which comes out as another on both sides.
pub decode_hour_twelve :
    (status_b h : ℕ) (afternoon : Bool)
    → bit_and status_b 0x02 ≡ 0
    → 1 ≤ h
    → h ≤ 12
    → (decode_hour status_b (bcd_hour (hour_byte afternoon h)) ≡ hour_of_day afternoon h) ↔ (h ≢ 12)
unfolding decode_hour
decode_hour_twelve b h false mode lo hi =
    let m = holds_below-at 24 h morning_test (omega arith) morning_table in
    let read : decode_hour b (bcd_hour (hour_byte false h)) ≡ h = ground (arith, m, mode) in
    (λ e z. absurd (omega (arith, read, e, z)), λ ne. omega (arith, read, ne, lo, hi))
decode_hour_twelve b h true mode lo hi =
    let a = holds_below-at 13 h (λ h. h == 0 || afternoon_test h) (omega arith) afternoon_table in
    let read : decode_hour b (bcd_hour (hour_byte true h)) ≡ (if h == 12 then 0 else h + 12) =
      ground (arith, a, mode) in
    elim (ℕ_discrete h 12) [
      | yes e ↦
          let zero_hour : decode_hour b (bcd_hour (hour_byte true h)) ≡ 0 =
            read ∙ ground (arith, e) in
          (λ q z. absurd (omega (arith, zero_hour, q)), λ ne. absurd (ne e))
      | no ne ↦
          let later : decode_hour b (bcd_hour (hour_byte true h)) ≡ h + 12 =
            read ∙ ground (arith, ne) in
          (λ q z. absurd (ne z), λ z. omega (arith, later, ne, lo, hi))
    ]
