-- ===== src/Time/Clocks/Reading.antt =====
-- Times and sleeps by a clock source (`src/time/clocks.c`, `headers/time/clocks.h`).
use reddyos_osdev.Base.{
  ℕ, zero, suc, ◌+◌, ◌-◌, ◌*◌, ◌/◌, ◌^◌, ◌≤◌, ◌<◌, ◌≡◌, refl, ap, false, some, List, [], ◌∷◌, ltb,
  arith, Bool-cases, inl, inr, get_elem?, some-injective, subst, ltb→lt, sym,
}
use reddyos_osdev.Base.Outcome.{done}
use reddyos_osdev.Memory.Page.{u64, sub64}
use reddyos_osdev.Time.Clocks.{
  ClockSource, Clocks, clock_get_ns, setup_boot_clock, ns_since_boot, get_best_clock, wait_rounds,
}

div_mono : (a b f : ℕ) → a ≤ b → a / f ≤ b / f
div_mono a b f h = grind arith

div_le : (a f : ℕ) → a / f ≤ a
div_le a f = grind arith

div_gap : (a b f : ℕ) → 0 < f → a + f ≤ b → a / f < b / f
div_gap a b f pos h =
    let one_more : a / f + 1 ≡ (a + f) / f = grind arith in
    omega (arith, one_more, div_mono (a + f) b f h)

-- After `setup_boot_clock` chose a clock, `ns_since_boot` is the difference of the two times in
-- nanoseconds, as long as neither product has passed 64 bits and the counter has not gone back.
pub ns_since_boot_lem :
    (s : Clocks) (read later : ClockSource → ℕ) (c : ClockSource)
    → get_best_clock s ≡ some c
    → read c ≤ later c
    → later c * 1000000000 < 2 ^ 64
    → (s' : Clocks) × (setup_boot_clock read s ≡ done s')
      × (ns_since_boot later s'
          ≡ done (later c * 1000000000 / c.freq - read c * 1000000000 / c.freq))
unfolding setup_boot_clock ns_since_boot clock_get_ns
ns_since_boot_lem s read later c best order small =
    let first : u64 (read c * 1000000000) ≡ read c * 1000000000 = omega arith in
    let second : u64 (later c * 1000000000) ≡ later c * 1000000000 = omega arith in
    let a = read c * 1000000000 / c.freq in
    let b = later c * 1000000000 / c.freq in
    let bound : b ≤ later c * 1000000000 = div_le (later c * 1000000000) c.freq in
    let grow : a ≤ b = div_mono (read c * 1000000000) (later c * 1000000000) c.freq (omega arith) in
    (
      record s { boot_clock = some c; boot_clock_base = a },
      rw (best, setup_boot_clock)
          (ap (λ t. done (record s { boot_clock = some c; boot_clock_base = t / c.freq })) first),
      rw second (ap done (omega arith)),
    )

-- Past 2 ^ 64 nanosecond ticks of the product the clock goes back: for every source of at most
-- 1 THz the time after 18446744074 ticks is less than the time after 18446744073.
pub clock_get_ns_wraps :
    (c : ClockSource)
    → 0 < c.freq
    → c.freq ≤ 10 ^ 12
    → clock_get_ns c 18446744074 < clock_get_ns c 18446744073
unfolding clock_get_ns
clock_get_ns_wraps c pos small = div_gap 290448384 18446744073000000000 c.freq pos (omega arith)

earlier :
    (now start ticks m : ℕ) (later : List ℕ)
    → sub64 now start < ticks
    → ((i x : ℕ) → i < m → get_elem? later i ≡ some x → sub64 x start < ticks)
    → (i x : ℕ) → i < suc m
    → get_elem? (now ∷ later) i ≡ some x
    → sub64 x start < ticks
earlier now start ticks m later h k zero x lt got =
    subst (λ (v : ℕ). sub64 v start < ticks) (some-injective now x got) h
earlier now start ticks m later h k (suc i) x lt got = k i x (omega arith) got

-- If one of the readings is at least `ticks` past the start, `busy_sleep_ticks` ends, no later than at
-- that one: the reading that ends it is at least `ticks` past the start, and every one before is not.
pub wait_rounds_lem :
    (start ticks k hit : ℕ) (readings : List ℕ)
    → get_elem? readings k ≡ some hit
    → ticks ≤ sub64 hit start
    → (n : ℕ) × (now : ℕ) × (wait_rounds start ticks readings ≡ some n)
      × (n ≤ k)
      × (get_elem? readings n ≡ some now)
      × (ticks ≤ sub64 now start)
      × ((i early : ℕ) → i < n → get_elem? readings i ≡ some early → sub64 early start < ticks)
unfolding wait_rounds
wait_rounds_lem start ticks k hit [] at past = cc
wait_rounds_lem start ticks zero hit (now ∷ later) at past =
    let e : ticks ≤ sub64 now start =
      subst (λ (v : ℕ). ticks ≤ sub64 v start) (sym (some-injective now hit at)) past in
    let over : ltb (sub64 now start) ticks ≡ false = ground (arith, e) in
    (0, now, rw over refl, omega arith, refl, e, λ i early lt. absurd (omega arith))
wait_rounds_lem start ticks (suc k) hit (now ∷ later) at past =
    elim (Bool-cases (ltb (sub64 now start) ticks)) [
      | inr over ↦ (
        0,
        now,
        rw over refl,
        omega arith,
        refl,
        ground (arith, over),
        λ i early lt. absurd (omega arith),
      )
      | inl more ↦
          let (n, last, run, le, at', far, early) =
            wait_rounds_lem start ticks k hit later at past in
          (
            suc n,
            last,
            rw (more, run) refl,
            omega (arith, le),
            at',
            far,
            earlier now start ticks n later (ltb→lt _ _ more) early,
          )
    ]
