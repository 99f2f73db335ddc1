-- ===== src/Base/Bits.antt =====
-- Laws of `&` and `|` on native numbers, digit by digit, and the masks that C code writes.
use Prim.Native.Nat.{bit_and, bit_or, digits, bit_and-bitwise, bit_or-bitwise, max}
use native.Mathlib.Nat.{pow-suc, one-le-pow, div-div-eq-div-mul}
use reddyos_osdev.Base.{
  ℕ, zero, suc, ◌+◌, ◌*◌, ◌/◌, ◌%◌, ◌^◌, ◌≤◌, ◌<◌, ◌≡◌, refl, ap, ◌∙◌, arith, min, sym,
}

-- The native operations go through the digits with fuel, and fuel beyond the number does not matter.
module _ (last : ℕ → ℕ) (op : ℕ → ℕ → ℕ) where
  ran_out : (fuel y : ℕ) → digits last op fuel 0 y ≡ last y
  ran_out zero y = refl
  ran_out (suc fuel) y = refl

  same_digits :
      (x fuel other y : ℕ)
      → x ≤ fuel
      → x ≤ other
      → digits last op fuel x y ≡ digits last op other x y
  same_digits zero fuel other y h k = ran_out fuel y ∙ sym (ran_out other y)
  same_digits (suc x) (suc fuel) (suc other) y h k =
      ap (λ rest. rest * 2 + op (suc x % 2) (y % 2))
        (same_digits (suc x / 2) fuel other (y / 2) (omega arith) (omega arith))
  same_digits (suc x) zero other y h k = absurd (omega (arith, h))
  same_digits (suc x) (suc fuel) zero y h k = absurd (omega (arith, k))

  -- One digit, and the others.
  first_digit :
      (x y : ℕ)
      → digits last op (suc x) (suc x) y
        ≡ digits last op (suc x / 2) (suc x / 2) (y / 2) * 2 + op (suc x % 2) (y % 2)
  first_digit x y =
      ap (λ rest. rest * 2 + op (suc x % 2) (y % 2))
        (same_digits (suc x / 2) x (suc x / 2) (y / 2) (omega arith) (omega arith))

-- `&` and `|`, one digit at a time.
pub bit_and_step : (a b : ℕ) → bit_and a b ≡ bit_and (a / 2) (b / 2) * 2 + min (a % 2) (b % 2)
bit_and_step zero b = omega (arith, bit_and-bitwise 0 b, bit_and-bitwise 0 (b / 2))
bit_and_step (suc x) b =
    bit_and-bitwise (suc x) b
    ∙ first_digit (λ _. zero) min x b
    ∙ ap (λ z. z * 2 + min (suc x % 2) (b % 2)) (sym (bit_and-bitwise (suc x / 2) (b / 2)))

pub bit_or_step : (a b : ℕ) → bit_or a b ≡ bit_or (a / 2) (b / 2) * 2 + max (a % 2) (b % 2)
bit_or_step zero b = omega (arith, bit_or-bitwise 0 b, bit_or-bitwise 0 (b / 2))
bit_or_step (suc x) b =
    bit_or-bitwise (suc x) b
    ∙ first_digit (λ y. y) max x b
    ∙ ap (λ z. z * 2 + max (suc x % 2) (b % 2)) (sym (bit_or-bitwise (suc x / 2) (b / 2)))

-- The digit of `a` at place `i`.
unfoldable pub bit : ℕ → ℕ → ℕ
bit zero a = a % 2
bit (suc i) a = bit i (a / 2)

pub bit-le-one : (i a : ℕ) → bit i a ≤ 1
unfolding bit
bit-le-one zero a = omega arith
bit-le-one (suc i) a = bit-le-one i (a / 2)

pub bit-bit_and : (i a b : ℕ) → bit i (bit_and a b) ≡ min (bit i a) (bit i b)
unfolding bit
bit-bit_and zero a b = omega (arith, bit_and_step a b)
bit-bit_and (suc i) a b =
    ap (bit i) (omega (arith, bit_and_step a b)) ∙ bit-bit_and i (a / 2) (b / 2)

pub bit-bit_or : (i a b : ℕ) → bit i (bit_or a b) ≡ max (bit i a) (bit i b)
unfolding bit
bit-bit_or zero a b = omega (arith, bit_or_step a b)
bit-bit_or (suc i) a b = ap (bit i) (omega (arith, bit_or_step a b)) ∙ bit-bit_or i (a / 2) (b / 2)

bit_ext_fuel : (n a b : ℕ) → a ≤ n → b ≤ n → ((i : ℕ) → bit i a ≡ bit i b) → a ≡ b
unfolding bit
bit_ext_fuel zero a b p q h = omega arith
bit_ext_fuel (suc n) a b p q h =
    omega (arith, h 0, bit_ext_fuel n (a / 2) (b / 2) (omega arith) (omega arith) (λ i. h (suc i)))

-- Numbers with the same digits are equal.
pub bit_ext : (a b : ℕ) → ((i : ℕ) → bit i a ≡ bit i b) → a ≡ b
bit_ext a b h = bit_ext_fuel (a + b) a b (omega arith) (omega arith) h

pub bit_and_comm : (a b : ℕ) → bit_and a b ≡ bit_and b a
bit_and_comm a b = bit_ext _ _ λ i. omega (arith, bit-bit_and i a b, bit-bit_and i b a)

pub bit_or_assoc : (a b c : ℕ) → bit_or (bit_or a b) c ≡ bit_or a (bit_or b c)
bit_or_assoc a b c = bit_ext _ _ λ i. omega (
  arith,
  bit-bit_or i (bit_or a b) c,
  bit-bit_or i a b,
  bit-bit_or i a (bit_or b c),
  bit-bit_or i b c,
)

pub bit_and_assoc : (a b c : ℕ) → bit_and (bit_and a b) c ≡ bit_and a (bit_and b c)
bit_and_assoc a b c = bit_ext _ _ λ i. omega (
  arith,
  bit-bit_and i (bit_and a b) c,
  bit-bit_and i a b,
  bit-bit_and i a (bit_and b c),
  bit-bit_and i b c,
)

-- A mask goes through an `|`.
pub bit_and-bit_or : (a b m : ℕ) → bit_and (bit_or a b) m ≡ bit_or (bit_and a m) (bit_and b m)
bit_and-bit_or a b m = bit_ext _ _ λ i. omega (
  arith,
  bit-bit_and i (bit_or a b) m,
  bit-bit_or i a b,
  bit-bit_or i (bit_and a m) (bit_and b m),
  bit-bit_and i a m,
  bit-bit_and i b m,
)

bit-zero : (i : ℕ) → bit i 0 ≡ 0
unfolding bit
bit-zero zero = refl
bit-zero (suc i) = bit-zero i

pub bit_or-zero : (a : ℕ) → bit_or a 0 ≡ a
bit_or-zero a = bit_ext _ _ λ i. omega (arith, bit-bit_or i a 0, bit-zero i)

pub bit_and-zero : (a : ℕ) → bit_and a 0 ≡ 0
bit_and-zero a = bit_and_comm a 0 ∙ bit_and-bitwise 0 a

-- `2 ^ w - 1`, the mask of `w` low bits.
abbrev pub ones : ℕ → ℕ
ones zero = 0
ones (suc w) = ones w * 2 + 1

mul-two-pow-suc : (q k : ℕ) → q * 2 ^ suc k ≡ q * 2 ^ k * 2
mul-two-pow-suc q k = omega (arith, ap (λ (t : ℕ). q * t) (pow-suc 2 k))

bit_and-ones_parts : (w q r : ℕ) → r < 2 ^ w → bit_and (q * 2 ^ w + r) (ones w) ≡ r
bit_and-ones_parts zero q r h = omega (arith, bit_and-zero (q * 2 ^ 0 + r))
bit_and-ones_parts (suc w) q r h = ground (
  arith,
  bit_and_step (q * 2 ^ suc w + r) (ones (suc w)),
  mul-two-pow-suc q w,
  pow-suc 2 w,
  bit_and-ones_parts w q (r / 2),
)

-- A mask of low bits is a remainder.
pub bit_and-ones : (w a : ℕ) → bit_and a (ones w) ≡ a % 2 ^ w
bit_and-ones w a = ground (arith, one-le-pow w 2, bit_and-ones_parts w (a / 2 ^ w) (a % 2 ^ w))

-- A mask moved up by `k` places reads the number moved down by `k` places.
pub bit_and_shifted : (k a m : ℕ) → bit_and a (m * 2 ^ k) ≡ bit_and (a / 2 ^ k) m * 2 ^ k
bit_and_shifted zero a m = ground arith
bit_and_shifted (suc k) a m = ground (
  arith,
  bit_and_step a (m * 2 ^ suc k),
  mul-two-pow-suc m k,
  mul-two-pow-suc (bit_and (a / 2 ^ suc k) m) k,
  pow-suc 2 k,
  div-div-eq-div-mul a 2 (2 ^ k),
  bit_and_shifted k (a / 2) m,
)

-- The field of `w` bits at place `k`, left in place.
pub bit_and_field : (k w a : ℕ) → bit_and a (ones w * 2 ^ k) ≡ a / 2 ^ k % 2 ^ w * 2 ^ k
bit_and_field k w a =
    bit_and_shifted k a (ones w) ∙ ap (λ t. t * 2 ^ k) (bit_and-ones w (a / 2 ^ k))

-- An `|` of a number and bits below its last ones is their sum.
pub bit_or-add : (k q r : ℕ) → r < 2 ^ k → bit_or (q * 2 ^ k) r ≡ q * 2 ^ k + r
bit_or-add zero q r h = ground (arith, bit_or-zero (q * 2 ^ 0))
bit_or-add (suc k) q r h =
    ground (
      arith,
      bit_or_step (q * 2 ^ suc k) r,
      mul-two-pow-suc q k,
      pow-suc 2 k,
      bit_or-add k q (r / 2),
    )
