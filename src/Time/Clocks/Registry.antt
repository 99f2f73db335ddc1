-- ===== src/Time/Clocks/Registry.antt =====
-- The registry of clock sources (`src/time/clocks.c`): the mask of available clocks and the list.
use Prim.Native.Nat.{bit_or}
use reddyos_osdev.Base.{
  ℕ, zero, suc, ◌%◌, ◌^◌, ◌<◌, ◌≡◌, ◌∙◌, refl, ap, sym, Bool, true, some, List, [], ◌∷◌, ◌++◌, ◌==◌,
  ◌||◌, if◌then◌else◌, arith, Bool-cases, inl, inr, is_some, holds_below, holds_below-at, ==_iff,
}
use mathlib.Core.Option.{or_else}
use reddyos_osdev.Base.Bits.{bit, bit-le-one, bit-bit_or, bit_and_field}
use reddyos_osdev.Base.Outcome.{done}
use reddyos_osdev.Time.Clocks.{
  ClockSource, Clocks, is_clock_available, find_clock, get_clock, get_best_clock, add_source,
  register_clock_source, register_time_source,
}

-- The mask says exactly which of the four clocks the list holds.
abbrev pub IsConsistent : Clocks → Type 0
IsConsistent s = (id : ℕ) → id < 4 → is_clock_available id s ≡ is_some (find_clock id s.clock_list)

available_bit : (id : ℕ) (s : Clocks) → id < 4 → is_clock_available id s ≡ (bit id s.available == 1)
unfolding is_clock_available bit
available_bit zero s h = ground (arith, bit_and_field 0 1 s.available)
available_bit (suc zero) s h = ground (arith, bit_and_field 1 1 s.available)
available_bit (suc (suc zero)) s h = ground (arith, bit_and_field 2 1 s.available)
available_bit (suc (suc (suc zero))) s h = ground (arith, bit_and_field 3 1 s.available)
available_bit (suc (suc (suc (suc id)))) s h = absurd (omega arith)

bit_mod : (id a : ℕ) → id < 4 → bit id (a % 256) ≡ bit id a
unfolding bit
bit_mod zero a h = omega arith
bit_mod (suc zero) a h = omega arith
bit_mod (suc (suc zero)) a h = omega arith
bit_mod (suc (suc (suc zero))) a h = omega arith
bit_mod (suc (suc (suc (suc id)))) a h = absurd (omega arith)

abbrev mask_test : ℕ → ℕ → Bool
mask_test id k = bit id (2 ^ k) == (if k == id then 1 else 0)

mask_table : holds_below 4 (λ id. holds_below 4 (mask_test id)) ≡ true
unfolding bit
mask_table = refl

bit_mask : (id k : ℕ) → id < 4 → k < 4 → bit id (2 ^ k) ≡ (if k == id then 1 else 0)
bit_mask id k h g =
    let rows = holds_below-at 4 id (λ i. holds_below 4 (mask_test i)) h mask_table in
    (==_iff (bit id (2 ^ k)) (if k == id then 1 else 0)).0
      (holds_below-at 4 k (mask_test id) g rows)

find_clock-append :
    (id : ℕ) (xs : List ClockSource) (c : ClockSource)
    → is_some (find_clock id (xs ++ c ∷ [])) ≡ (is_some (find_clock id xs) || (c.id == id))
unfolding find_clock
find_clock-append id [] c = ground arith
find_clock-append id (x ∷ xs) c = ground (arith, find_clock-append id xs c)

add_source_available :
    (c : ClockSource) (s : Clocks) (id : ℕ)
    → c.id < 4
    → id < 4
    → is_clock_available id (add_source c s) ≡ (is_clock_available id s || (c.id == id))
unfolding add_source
add_source_available c s id k h =
    let new = bit-bit_or id s.available (2 ^ c.id) in
    let kept = bit_mod id (bit_or s.available (2 ^ c.id)) h in
    let low = bit-le-one id s.available in
    elim (Bool-cases (c.id == id)) [
      | inl same ↦
          let one : bit id (2 ^ c.id) ≡ 1 =
            bit_mask id c.id h k ∙ ap (λ b. if b then 1 else 0) same in
          ground
            (arith, available_bit id (add_source c s) h, available_bit id s h, new, kept, low, one)
      | inr other ↦
          let none' : bit id (2 ^ c.id) ≡ 0 =
            bit_mask id c.id h k ∙ ap (λ b. if b then 1 else 0) other in
          ground (
            arith,
            available_bit id (add_source c s) h,
            available_bit id s h,
            new,
            kept,
            low,
            none',
          )
    ]

-- A registration keeps the mask and the list in step.
add_source-IsConsistent :
    (c : ClockSource) (s : Clocks) → c.id < 4 → IsConsistent s → IsConsistent (add_source c s)
unfolding add_source
add_source-IsConsistent c s k v id h =
    add_source_available c s id k h
    ∙ ap (λ b. b || (c.id == id)) (v id h)
    ∙ sym (find_clock-append id s.clock_list c)

-- Registering a clock or a time source of one of the four ids, when memory was given, succeeds,
-- keeps the mask of available clocks in step with the list, and makes the id available.
pub register-IsConsistent :
    (id now freq real : ℕ) (s : Clocks)
    → id < 4
    → IsConsistent s
    → ((s' : Clocks) × (register_clock_source true id now freq s ≡ done s')
        × IsConsistent s'
        × (is_clock_available id s' ≡ true))
      × ((s' : Clocks) × (register_time_source true id real s ≡ done s')
          × IsConsistent s'
          × (is_clock_available id s' ≡ true))
unfolding register_clock_source register_time_source
register-IsConsistent id now freq real s h v =
    let same : (id == id) ≡ true = ground arith in
    let held : (c : ClockSource) → c.id ≡ id → is_clock_available id (add_source c s) ≡ true =
      λ c e. ground (arith, add_source_available c s id (omega arith) h) in
    (
      (_, refl, add_source-IsConsistent _ s h v, held _ refl),
      (_, refl, add_source-IsConsistent _ s h v, held _ refl),
    )

find_clock-id :
    (id : ℕ) (xs : List ClockSource) (c : ClockSource) → find_clock id xs ≡ some c → c.id ≡ id
unfolding find_clock
find_clock-id id [] c h = cc
find_clock-id id (x ∷ xs) c h = ground (arith, find_clock-id id xs c)

-- On a registry in step, the best clock is the TSC if it is registered, else the HPET, else the PM
-- timer, else none; so it is never the real-time clock, which cannot count.
pub get_best_clock_lem :
    (s : Clocks)
    → IsConsistent s
    → (get_best_clock s
        ≡ or_else
            (find_clock 0 s.clock_list)
            (or_else (find_clock 1 s.clock_list) (find_clock 2 s.clock_list)))
      × ((c : ClockSource) → get_best_clock s ≡ some c → c.id < 3)
unfolding get_best_clock get_clock or_else
get_best_clock_lem s v = (
  ground (arith, v 0, v 1, v 2),
  λ c h. ground (
    arith,
    find_clock-id 0 s.clock_list c,
    find_clock-id 1 s.clock_list c,
    find_clock-id 2 s.clock_list c,
  ),
)
