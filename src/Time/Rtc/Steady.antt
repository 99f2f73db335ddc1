-- ===== src/Time/Rtc/Steady.antt =====
-- The reading loop of `rtc_init` (`src/time/clocks/rtc.c`).
use Prim.Native.Nat.{bit_and}
use reddyos_osdev.Base.{
  ℕ, zero, suc, ◌+◌, ◌<◌, ◌≡◌, ◌≢◌, ◌∙◌, ap, sym, ==_iff, ◌-◌, true, some, ◌==◌, not, if◌then◌else◌,
  arith, Bool-cases, inl, inr,
}
use reddyos_osdev.Time.Rtc.{
  Sample, decode, rtc_to_timespec, same_sample, read_sample, wait_update, read_stable, rtc_init,
}

module _ (cmos : ℕ → ℕ → ℕ) (century_reg : ℕ) (shown : ℕ → ℕ) where
  -- Every register but status register A holds one value throughout.
  abbrev IsSteady : Type 0
  IsSteady = (t r : ℕ) → r ≢ 0x0A → cmos t r ≡ shown r

  abbrev pub shown_sample : Sample
  shown_sample = record {
    second = shown 0x00;
    minute = shown 0x02;
    hour = shown 0x04;
    day = shown 0x07;
    month = shown 0x08;
    year = shown 0x09;
    century = if century_reg == 0 then 20 else shown century_reg;
  }

  wait_update_ends :
      (w fuel t : ℕ)
      → w < fuel
      → bit_and (cmos (t + w) 0x0A) 0x80 ≢ 0
      → (t' : ℕ) × (wait_update cmos century_reg fuel t ≡ some t')
  unfolding wait_update
  wait_update_ends w zero t h flag = absurd (omega arith)
  wait_update_ends w (suc fuel) t h flag = elim (Bool-cases (bit_and (cmos t 0x0A) 0x80 == 0)) [
    | inr updating ↦ (t + 1, rw updating)
    | inl clear ↦
        let same : w ≢ 0 = λ e. flag (
          ap (λ n. bit_and (cmos n 0x0A) 0x80) (omega arith)
          ∙ (==_iff (bit_and (cmos t 0x0A) 0x80) 0).0 clear) in
        let at : t + 1 + (w - 1) ≡ t + w = omega (arith, same) in
        let (t', run) =
          wait_update_ends (w - 1) fuel (t + 1) (omega (arith, same))
            (λ e. flag (ap (λ n. bit_and (cmos n 0x0A) 0x80) (sym at) ∙ e)) in
        (t', rw clear run)
  ]

  read_sample_lem :
      IsSteady → century_reg ≢ 0x0A → (t : ℕ) → (read_sample cmos century_reg t).0 ≡ shown_sample
  unfolding read_sample
  read_sample_lem steady c t = ground (
    arith,
    steady t 0x00,
    steady (t + 1) 0x02,
    steady (t + 2) 0x04,
    steady (t + 3) 0x07,
    steady (t + 4) 0x08,
    steady (t + 5) 0x09,
    steady (t + 6) century_reg c,
  )

  same_sample_refl : (s : Sample) → same_sample s s ≡ true
  unfolding same_sample
  same_sample_refl s = ground arith

  -- If the registers hold still while `rtc_init` reads them, and the update flag is seen at the
  -- moment `w`, then `w + 1` rounds of waiting are enough: the loop ends with the first two samples,
  -- and the base time is that of the values that the registers show, decoded.
  pub rtc_init_lem :
      (w fuel : ℕ)
      → IsSteady
      → century_reg ≢ 0x0A
      → w < fuel
      → bit_and (cmos w 0x0A) 0x80 ≢ 0
      → rtc_init cmos century_reg fuel
        ≡ rtc_to_timespec (decode (shown 0x0B) (not (century_reg == 0)) shown_sample)
  unfolding rtc_init decode read_stable
  rtc_init_lem w zero steady c h flag = absurd (omega arith)
  rtc_init_lem w (suc fuel) steady c h flag =
      let (t, run) =
        wait_update_ends w (suc fuel) 0 h
          (λ e. flag (ap (λ n. bit_and (cmos n 0x0A) 0x80) (omega arith) ∙ e)) in
      let a = read_sample cmos century_reg t in
      let b = read_sample cmos century_reg a.1 in
      let first = read_sample_lem steady c t in
      let second = read_sample_lem steady c a.1 in
      let test : same_sample a.0 b.0 ≡ true = rw (first, second) (same_sample_refl shown_sample) in
      let found : read_stable cmos century_reg (suc fuel) 0 ≡ some b =
        rw (run, read_stable) (rw test) in
      let mode = steady b.1 0x0B (omega arith) in
      let mode' = steady (b.1 + 1) 0x0B (omega arith) in
      rw (found, rtc_init) (rw (second, mode, mode'))
