-- ===== src/Time/Clocks.antt =====
-- The registry of clock sources, the boot clock and the busy sleeps (`src/time/clocks.c`,
-- `headers/time/clocks.h`). The list of sources is the C list, oldest first; a function pointer is
-- a number, 0 for NULL, and what a call of it reads is an argument.
pub mod Registry
pub mod Reading
use Prim.Native.Nat.{bit_and, bit_or}
use reddyos_osdev.Base.{
  ℕ, zero, suc, ◌+◌, ◌-◌, ◌*◌, ◌/◌, ◌%◌, ◌^◌, ◌≤◌, ◌<◌, ◌≡◌, ◌≢◌, ◌∙◌, refl, ap, Bool, true, false,
  Option, none, some, List, [], ◌∷◌, ◌++◌, ◌==◌, ltb, not, ◌&&◌, if◌then◌else◌, arith, Bool-cases,
  inl, inr,
}
use reddyos_osdev.Base.Outcome.{Outcome, done, panic, out_of_fuel}
use reddyos_osdev.Memory.Page.{u64, sub64}

abbrev pub clock_tsc : ℕ
clock_tsc = 0

abbrev pub clock_hpet : ℕ
clock_hpet = 1

abbrev pub clock_pm_timer : ℕ
clock_pm_timer = 2

abbrev pub clock_rtc : ℕ
clock_rtc = 3

-- `clock_source_t`.
pub record ClockSource : Type 0 where
  pub id : ℕ
  pub now : ℕ
  pub real : ℕ
  pub freq : ℕ

-- The variables of the file: `clock_list`, `available_clocks`, `boot_clock`, `boot_clock_base`.
pub record Clocks : Type 0 where
  pub clock_list : List ClockSource
  pub available : ℕ
  pub boot_clock : Option ClockSource
  pub boot_clock_base : ℕ

abbrev pub clock_mask : ℕ → ℕ
clock_mask c = 2 ^ c

unfoldable pub is_clock_available : ℕ → Clocks → Bool
is_clock_available id s = not (bit_and s.available (clock_mask id) == 0)

unfoldable pub find_clock : ℕ → List ClockSource → Option ClockSource
find_clock id [] = none
find_clock id (c ∷ cs) = if c.id == id then some c else find_clock id cs

unfoldable pub get_clock : ℕ → Clocks → Option ClockSource
get_clock id s = if not (is_clock_available id s) then none else find_clock id s.clock_list

unfoldable pub get_best_clock : Clocks → Option ClockSource
get_best_clock s =
    if is_clock_available clock_tsc s
    then get_clock clock_tsc s
    else if is_clock_available clock_hpet s
    then get_clock clock_hpet s
    else if is_clock_available clock_pm_timer s
    then get_clock clock_pm_timer s
    else none

-- `available_clocks |= CLOCK_MASK(id)` on a `u8`, and the append at the tail.
unfoldable pub add_source : ClockSource → Clocks → Clocks
add_source c s = record s {
  clock_list = s.clock_list ++ c ∷ [];
  available = bit_or s.available (clock_mask c.id) % 256;
}

-- Both take whether `kmalloc` gave memory.
unfoldable pub register_clock_source : Bool → ℕ → ℕ → ℕ → Clocks → Outcome Clocks
register_clock_source memory id now freq s =
    if not memory
    then panic
    else done (add_source (record { id = id; now = now; real = 0; freq = freq }) s)

unfoldable pub register_time_source : Bool → ℕ → ℕ → Clocks → Outcome Clocks
register_time_source memory id real s =
    if not memory
    then panic
    else done (add_source (record { id = id; now = 0; real = real; freq = 0 }) s)

-- `CLOCK_NS`: the product wraps at 64 bits before the division.
unfoldable pub clock_get_ns : ClockSource → ℕ → ℕ
clock_get_ns c ticks = u64 (ticks * 1000000000) / c.freq

unfoldable pub setup_boot_clock : (ClockSource → ℕ) → Clocks → Outcome Clocks
setup_boot_clock read s = elim (get_best_clock s) [
  | none ↦ panic
  | some c ↦ done (record s { boot_clock = some c; boot_clock_base = clock_get_ns c (read c) })
]

unfoldable pub ns_since_boot : (ClockSource → ℕ) → Clocks → Outcome ℕ
ns_since_boot read s = elim s.boot_clock [
  | none ↦ panic
  | some c ↦ done (sub64 (clock_get_ns c (read c)) s.boot_clock_base)
]

unfoldable pub clock_get_best_ns : (ClockSource → ℕ) → Clocks → Outcome ℕ
clock_get_best_ns read s = elim (get_best_clock s) [
  | none ↦ panic
  | some c ↦ done (clock_get_ns c (read c))
]

-- `ticks = (ns * clock->freq) / 1000000000`.
unfoldable pub sleep_ticks : ClockSource → ℕ → ℕ
sleep_ticks c ns = u64 (ns * c.freq) / 1000000000

-- The readings that `busy_sleep_ticks` makes, one to a round; the number of rounds, or none if
-- they do not suffice.
unfoldable pub wait_rounds : ℕ → ℕ → List ℕ → Option ℕ
wait_rounds start ticks [] = none
wait_rounds start ticks (now ∷ later) =
    let rest = wait_rounds start ticks later in
    if ltb (sub64 now start) ticks
    then elim rest [ none ↦ none | some n ↦ some (suc n) ]
    else some 0

unfoldable pub busy_sleep_ticks : ℕ → List ℕ → Option ℕ
busy_sleep_ticks ticks [] = none
busy_sleep_ticks ticks (start ∷ later) = wait_rounds start ticks later

unfoldable pub busy_sleep_ns : ClockSource → ℕ → List ℕ → Option ℕ
busy_sleep_ns c ns readings = busy_sleep_ticks (sleep_ticks c ns) readings

unfoldable pub busy_sleep_best_ns : ℕ → List ℕ → Clocks → Outcome (Option ℕ)
busy_sleep_best_ns ns readings s = elim (get_best_clock s) [
  | none ↦ panic
  | some c ↦ done (busy_sleep_ns c ns readings)
]
