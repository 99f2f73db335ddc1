-- ===== src/Time/Timespec.antt =====
-- `struct timespec` with `timespec_normalize` and `timespec_to_nsec`
-- (`headers/time/helpers_time.h`). C's `/` and `%` round towards zero.
use reddyos_osdev.Base.{ℕ, ◌+◌, ◌*◌, ◌/◌, ◌%◌, ◌≡◌, if◌then◌else◌, arith, suc, Bool-cases, inl, inr}
use reddyos_osdev.Base.Int.{
  ℤ, pos, negsuc, pos_part, neg_part, sub_ℕ, ◌+ℤ◌, ◌*ℤ◌, ◌≤ℤ◌, ltb_ℤ, +ℤ_parts, eq_of_parts,
}

abbrev pub billion : ℕ
billion = 1000000000

-- Both fields are 64-bit signed; the values met stay far inside that range.
pub record Timespec : Type 0 where
  pub tv_sec : ℤ
  pub tv_nsec : ℤ

-- C's quotient and remainder by a positive number.
unfoldable pub quot : ℤ → ℕ → ℤ
quot (pos n) k = pos (n / k)
quot (negsuc n) k = sub_ℕ 0 (suc n / k)

unfoldable pub rem : ℤ → ℕ → ℤ
rem (pos n) k = pos (n % k)
rem (negsuc n) k = sub_ℕ 0 (suc n % k)

unfoldable pub timespec_normalize : Timespec → Timespec
timespec_normalize ts =
    let sec = ts.tv_sec +ℤ quot ts.tv_nsec billion in
    let nsec = rem ts.tv_nsec billion in
    if ltb_ℤ nsec (pos 0)
    then record { tv_sec = sec +ℤ negsuc 0; tv_nsec = nsec +ℤ pos billion }
    else record { tv_sec = sec; tv_nsec = nsec }

-- `tv_sec * 1000000000 + tv_nsec`.
unfoldable pub total_nsec : Timespec → ℤ
total_nsec ts = ts.tv_sec *ℤ pos billion +ℤ ts.tv_nsec

-- `timespec_normalize` brings the nanoseconds into their range, whatever their sign.
pub timespec_normalize_range :
    (ts : Timespec)
    → (pos 0 ≤ℤ (timespec_normalize ts).tv_nsec)
      × ((timespec_normalize ts).tv_nsec ≤ℤ pos 999999999)
unfolding timespec_normalize rem ◌+ℤ◌
timespec_normalize_range ts = ground arith

scaled_parts :
    (a : ℤ)
    → pos_part (a *ℤ pos billion) + neg_part a * billion
      ≡ neg_part (a *ℤ pos billion) + pos_part a * billion
unfolding ◌*ℤ◌
scaled_parts a = ground arith

whole_parts :
    (n : ℤ)
    → pos_part (quot n billion) * billion + pos_part (rem n billion) + neg_part n
      ≡ neg_part (quot n billion) * billion + neg_part (rem n billion) + pos_part n
unfolding quot rem
whole_parts (pos n) = omega arith
whole_parts (negsuc n) = ground arith

ruleset parts = (arith, +ℤ_parts, scaled_parts, eq_of_parts)

-- `timespec_normalize` does not change the time that the two fields stand for.
pub total_nsec-timespec_normalize :
    (ts : Timespec) → total_nsec (timespec_normalize ts) ≡ total_nsec ts
unfolding timespec_normalize total_nsec
total_nsec-timespec_normalize ts = elim (Bool-cases (ltb_ℤ (rem ts.tv_nsec billion) (pos 0))) [
  | inl below ↦ rw below (omega (parts, whole_parts ts.tv_nsec))
  | inr inside ↦ rw inside (omega (parts, whole_parts ts.tv_nsec))
]
