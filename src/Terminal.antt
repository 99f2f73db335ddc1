-- ===== src/Terminal.antt =====
-- Numbers in text (`src/kernel_common/terminal.c`, `src/kernel_common/c_generic/itoa.c`): what a function
-- sends to the serial port, byte by byte, or stores in its buffer.

pub mod Printing
mod Tests
use reddyos_osdev.Base.{
  ℕ, zero, suc, ◌+◌, ◌*◌, ◌/◌, ◌%◌, ◌^◌, List, [], ◌∷◌, ◌++◌, ltb, leb, ◌==◌, ◌&&◌, if◌then◌else◌,
  length,
}
use reddyos_osdev.Base.Outcome.{Outcome, done, panic}

-- A carriage return before each new line.
unfoldable pub terminal_putc : ℕ → List ℕ
terminal_putc c = if c == 10 then 13 ∷ c ∷ [] else c ∷ []

-- A C string is the list of its bytes without the NUL.
unfoldable pub terminal_write : List ℕ → List ℕ
terminal_write [] = []
terminal_write (c ∷ s) = terminal_putc c ++ terminal_write s

-- The loop that fills the buffer with digits, the lowest first, while there is room in it.
unfoldable pub collect : (ℕ → ℕ) → ℕ → ℕ → ℕ → List ℕ
collect digit base zero value = []
collect digit base (suc room) value =
    let rest = collect digit base room (value / base) in
    if value == 0 then [] else digit (value % base) ∷ rest

-- The loop that empties it from its end.
unfoldable pub send_back : List ℕ → List ℕ
send_back [] = []
send_back (c ∷ buffer) = send_back buffer ++ terminal_putc c

-- The loop of `itoa` that copies the digits from the end of `tmp`.
unfoldable pub copy_back : List ℕ → List ℕ
copy_back [] = []
copy_back (c ∷ tmp) = copy_back tmp ++ c ∷ []

unfoldable pub decimal_digit : ℕ → ℕ
decimal_digit d = 48 + d

unfoldable pub terminal_write_u64 : ℕ → List ℕ
terminal_write_u64 value =
    if value == 0 then terminal_putc 48 else send_back (collect decimal_digit 10 21 value)

unfoldable pub terminal_write_u8 : ℕ → List ℕ
terminal_write_u8 value =
    if value == 0 then terminal_putc 48 else send_back (collect decimal_digit 10 4 value)

-- "0123456789abcdef", at an index.
unfoldable pub hex_digit : ℕ → ℕ
hex_digit d = if ltb d 10 then 48 + d else 87 + d

-- The loop over `shift`, for the places below `n`.
unfoldable pub hex_from : ℕ → ℕ → List ℕ
hex_from zero value = []
hex_from (suc n) value = terminal_putc (hex_digit (value / 16 ^ n % 16)) ++ hex_from n value

unfoldable pub terminal_write_hex_u64 : ℕ → List ℕ
terminal_write_hex_u64 value = terminal_write (48 ∷ 120 ∷ []) ++ hex_from 16 value

unfoldable pub terminal_write_hex_u8 : ℕ → List ℕ
terminal_write_hex_u8 value = terminal_write (48 ∷ 120 ∷ []) ++ hex_from 2 value

-- The bytes of a write, on a device that takes no offset; anything that is not printable in hexadecimal.
unfoldable pub write_bytes : List ℕ → List ℕ
write_bytes [] = []
write_bytes (c ∷ buffer) =
    (if leb 32 c && leb c 126 then terminal_putc c else terminal_write_hex_u8 c)
    ++ write_bytes buffer

-- `offset` and the sum, 64 bits wide, come first; the answer of the call is 0.
unfoldable pub std_write : ℕ → List ℕ → List ℕ
std_write offset buffer =
    terminal_write_u64 offset
    ++ terminal_write_u64 ((offset + length buffer) % 2 ^ 64)
    ++ terminal_write (58 ∷ 32 ∷ [])
    ++ write_bytes buffer

-- `itoa`, with its buffer of 65 places: what it stores in `buffer`, the NUL included. A base of 0
-- divides by zero, and one of 1 fills more than the buffer.
unfoldable pub itoa : ℕ → ℕ → Outcome (List ℕ)
itoa value base =
    if value == 0
    then done (48 ∷ 0 ∷ [])
    else if leb base 1
    then panic
    else done (copy_back (collect hex_digit base 65 value) ++ 0 ∷ [])
