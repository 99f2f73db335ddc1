-- ===== src/Time/PmTimer.antt =====
-- The ACPI power management timer (`src/time/clocks/pm_timer.c`): a counter of 24 or 32 bits,
-- extended to 64 bits by summing the differences of its readings.
use Prim.Native.Nat.{bit_and}
use reddyos_osdev.Base.{
  ℕ, ◌+◌, ◌-◌, ◌%◌, ◌^◌, ◌≤◌, ◌<◌, ◌≡◌, ◌∙◌, ap, refl, Bool, true, false, if◌then◌else◌, arith,
  List, [], ◌∷◌,
}
use reddyos_osdev.Base.Bits.{bit_and-ones}
use reddyos_osdev.Memory.Page.{add64}

-- The two static variables of `pm_timer_read`.
pub record PmTimer : Type 0 where
  pub accumulated : ℕ
  pub last : ℕ

-- One call with the raw reading `current`: `(current - last) & mask` on 32 bits, added to the sum,
-- which is also what the call returns.
unfoldable pub pm_timer_read : Bool → ℕ → PmTimer → PmTimer
pm_timer_read is_32bit current t =
    let mask = if is_32bit then 0xFFFFFFFF else 0x00FFFFFF in
    let delta = bit_and ((current + 2 ^ 32 - t.last) % 2 ^ 32) mask in
    record { accumulated = add64 t.accumulated delta; last = current }

abbrev pub modulus : Bool → ℕ
modulus is_32bit = if is_32bit then 2 ^ 32 else 2 ^ 24

-- The readings of a counter that truly stands at the times of the list.
unfoldable pub read_at : Bool → PmTimer → List ℕ → PmTimer
read_at w t [] = t
read_at w t (now ∷ later) = read_at w (pm_timer_read w (now % modulus w) t) later

-- Each time lies less than one turn of the counter after the one before, the last at `end`.
abbrev pub Close : Bool → ℕ → List ℕ → ℕ → Type 0
Close w t [] end = t ≡ end
Close w t (now ∷ later) end = (t ≤ now) × (now < t + modulus w) × Close w now later end

step :
    (w : Bool) (start now : ℕ) (t : PmTimer)
    → t.accumulated < 2 ^ 64
    → t.last ≡ start % modulus w
    → start ≤ now
    → now < start + modulus w
    → (pm_timer_read w (now % modulus w) t).accumulated ≡ add64 t.accumulated (now - start)
unfolding pm_timer_read
step true start now t small h lo hi =
    omega (arith, bit_and-ones 32 ((now % 2 ^ 32 + 2 ^ 32 - t.last) % 2 ^ 32))
step false start now t small h lo hi =
    omega (arith, bit_and-ones 24 ((now % 2 ^ 24 + 2 ^ 32 - t.last) % 2 ^ 32))

last_read :
    (w : Bool) (now : ℕ) (t : PmTimer)
    → (pm_timer_read w (now % modulus w) t).last ≡ now % modulus w
unfolding pm_timer_read
last_read w now t = refl

-- However often the counter turns over, and in either width, the sum of the readings is the time
-- that has truly passed (mod 2 ^ 64), if no two readings in a row are a full turn apart.
pub read_at_lem :
    (w : Bool) (start end : ℕ) (t : PmTimer) (times : List ℕ)
    → t.accumulated < 2 ^ 64
    → t.last ≡ start % modulus w
    → Close w start times end
    → ((read_at w t times).accumulated ≡ add64 t.accumulated (end - start))
      × ((read_at w t times).last ≡ end % modulus w)
      × (start ≤ end)
unfolding read_at
read_at_lem w start end t [] small h c = (omega arith, h ∙ ap (λ n. n % modulus w) c, omega arith)
read_at_lem w start end t (now ∷ later) small h c =
    let next = step w start now t small h c.0 c.1 in
    let r =
      read_at_lem w now end (pm_timer_read w (now % modulus w) t) later (omega (arith, next))
        (last_read w now t) c.2 in
    (omega (arith, r.0, r.2, next, c.0), r.1, omega (arith, r.2, c.0))
