-- ===== src/Terminal/Printing.antt =====
-- Printed numbers read back (`src/kernel_common/terminal.c`, `src/kernel_common/c_generic/itoa.c`).
use native.Mathlib.Nat.{
  pow-zero, pow-suc, div-div-eq-div-mul, mod-lt, div-add-mod, div-lt_iff_lt-mul,
}
use reddyos_osdev.Base.{
  ℕ, zero, suc, ◌+◌, ◌-◌, ◌*◌, ◌/◌, ◌%◌, ◌^◌, ◌≤◌, ◌<◌, ◌≡◌, ◌≢◌, ◌∙◌, refl, ap, sym, subst, List,
  [], ◌∷◌, ◌++◌, ltb, ◌==◌, if◌then◌else◌, arith, false, Bool-cases, inl, inr,
}
use reddyos_osdev.Terminal.{
  terminal_putc, terminal_write, collect, send_back, decimal_digit, terminal_write_u64, hex_digit,
  hex_from, terminal_write_hex_u64,
}

-- The number that some digits, the highest first, stand for behind the number `n`.
unfoldable pub read_digit : ℕ → ℕ
read_digit c = if ltb c 58 then c - 48 else c - 87

unfoldable pub read_number : ℕ → ℕ → List ℕ → ℕ
read_number base n [] = n
read_number base n (c ∷ text) = read_number base (n * base + read_digit c) text

read_number-append :
    (base n : ℕ) (xs ys : List ℕ)
    → read_number base n (xs ++ ys) ≡ read_number base (read_number base n xs) ys
unfolding read_number
read_number-append base n [] ys = refl
read_number-append base n (x ∷ xs) ys = read_number-append base (n * base + read_digit x) xs ys

-- Digits that read back as what they were made from, none of them a new line.
pub record IsDigit (digit : ℕ → ℕ) (base : ℕ) : Type 0 where
  pub plain : (d : ℕ) → d < base → digit d ≢ 10
  pub back : (d : ℕ) → d < base → read_digit (digit d) ≡ d

putc_plain : (c : ℕ) → c ≢ 10 → terminal_putc c ≡ c ∷ []
unfolding terminal_putc
putc_plain c ne = let other : (c == 10) ≡ false = ground (arith, ne) in rw other refl

decimal_digit-IsDigit : IsDigit decimal_digit 10
unfolding decimal_digit read_digit
decimal_digit-IsDigit = record {
  plain = λ d h e. absurd (omega (arith, e));
  back = λ d h. ground (arith, h);
}

hex_digit-IsDigit : (base : ℕ) → base ≤ 16 → IsDigit hex_digit base
unfolding hex_digit read_digit
hex_digit-IsDigit base le = record {
  plain = λ d h e. absurd (ground (arith, h, e));
  back = λ d h. ground (arith, h, le);
}

module _ (digit : ℕ → ℕ) (base : ℕ) (some_base : 0 < base) (good : IsDigit digit base) where
  small_rest : (room value : ℕ) → value < base ^ suc room → value / base < base ^ room
  small_rest room value h =
      (div-lt_iff_lt-mul some_base).1 (subst (λ k. value < k) (pow-suc base room) h)

  -- One digit more, behind those of the rest.
  last_digit :
      (value n : ℕ) → n ≡ value / base → n * base + read_digit (digit (value % base)) ≡ value
  last_digit value n e =
      ap (λ k. k * base + read_digit (digit (value % base))) e
      ∙ ap (λ k. value / base * base + k) (good.back (value % base) (mod-lt value some_base))
      ∙ omega (arith, div-add-mod value base)

  send_back_lem :
      (room value : ℕ)
      → value < base ^ room
      → read_number base 0 (send_back (collect digit base room value)) ≡ value
  unfolding read_number collect send_back
  send_back_lem zero value h = omega (arith, h, pow-zero base)
  send_back_lem (suc room) value h = elim (Bool-cases (value == 0)) [
    | inl z ↦ rw z (ground (arith, z))
    | inr some_value ↦
        let rest = send_back_lem room (value / base) (small_rest room value h) in
        let d = digit (value % base) in
        rw (some_value, putc_plain d (good.plain (value % base) (mod-lt value some_base)))
          (read_number-append base 0 (send_back (collect digit base room (value / base))) (d ∷ [])
            ∙ last_digit value
                (read_number base 0 (send_back (collect digit base room (value / base)))) rest)
  ]

-- The decimal digits that `terminal_write_u64` sends read back as the 64-bit value.
pub terminal_write_u64_lem :
    (value : ℕ) → value < 2 ^ 64 → read_number 10 0 (terminal_write_u64 value) ≡ value
unfolding terminal_write_u64 read_number terminal_putc read_digit
terminal_write_u64_lem value h = elim (Bool-cases (value == 0)) [
  | inl z ↦ rw z (ground (arith, z))
  | inr some_value ↦ rw some_value (
      send_back_lem decimal_digit 10 (omega arith) decimal_digit-IsDigit 21 value
        (omega (arith, h)))
]

hex_from_lem : (n value : ℕ) → read_number 16 (value / 16 ^ n) (hex_from n value) ≡ value
unfolding hex_from read_number
hex_from_lem zero value = omega (arith, pow-zero 16)
hex_from_lem (suc n) value =
    let good = hex_digit-IsDigit 16 (omega arith) in
    let d = value / 16 ^ n % 16 in
    let high : value / 16 ^ suc n ≡ value / 16 ^ n / 16 =
      ap (λ k. value / k) (pow-suc 16 n) ∙ sym (div-div-eq-div-mul value (16 ^ n) 16) in
    let next : value / 16 ^ suc n * 16 + read_digit (hex_digit d) ≡ value / 16 ^ n =
      omega (arith, high, good.back d (omega arith)) in
    rw (putc_plain (hex_digit d) (good.plain d (omega arith)))
      (ap (λ k. read_number 16 k (hex_from n value)) next ∙ hex_from_lem n value)

-- Behind "0x", the digits that `terminal_write_hex_u64` sends read back as the value.
pub terminal_write_hex_u64_lem :
    (value : ℕ)
    → value < 2 ^ 64
    → (text : List ℕ) × (terminal_write_hex_u64 value ≡ 48 ∷ 120 ∷ text)
      × (read_number 16 0 text ≡ value)
unfolding terminal_write_hex_u64 terminal_write terminal_putc
terminal_write_hex_u64_lem value h =
    let none_above : value / 16 ^ 16 ≡ 0 = omega (arith, h) in
    (
      hex_from 16 value,
      refl,
      ap (λ k. read_number 16 k (hex_from 16 value)) (sym none_above) ∙ hex_from_lem 16 value,
    )
