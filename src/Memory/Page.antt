-- ===== src/Memory/Page.antt =====
-- `PAGE_SIZE`, `ALIGN_UP`, `ALIGN_DOWN` and `IS_ALIGNED` (`headers/kernel_common/helpers_extra.h`,
-- `headers/memory/pmm.h`), with 64-bit arithmetic written out.
use Prim.Native.Nat.{bit_and}
use reddyos_osdev.Base.{ℕ, ◌+◌, ◌-◌, ◌*◌, ◌/◌, ◌%◌, ◌^◌, ◌<◌, ◌≡◌, ◌==◌, Bool, arith}
use reddyos_osdev.Base.Bits.{bit_and_field}

abbrev pub page_size : ℕ
page_size = 4096

abbrev pub u64 : ℕ → ℕ
u64 x = x % 2 ^ 64

abbrev pub add64 : ℕ → ℕ → ℕ
add64 a b = (a + b) % 2 ^ 64

abbrev pub sub64 : ℕ → ℕ → ℕ
sub64 a b = (a + 2 ^ 64 - b) % 2 ^ 64

-- `~x` on 64 bits.
abbrev pub not64 : ℕ → ℕ
not64 x = 2 ^ 64 - 1 - x

unfoldable pub align_down : ℕ → ℕ → ℕ
align_down x align = bit_and x (not64 (align - 1))

unfoldable pub align_up : ℕ → ℕ → ℕ
align_up x align = bit_and (add64 x (align - 1)) (not64 (align - 1))

unfoldable pub is_aligned : ℕ → ℕ → Bool
is_aligned x align = bit_and x (align - 1) == 0

-- On 64-bit values the mask rounds down to a multiple of the page size.
pub align_down_page : (x : ℕ) → x < 2 ^ 64 → align_down x page_size ≡ x / 4096 * 4096
unfolding align_down
align_down_page x h = omega (arith, bit_and_field 12 52 x)

pub align_up_page : (x : ℕ) → x + 4095 < 2 ^ 64 → align_up x page_size ≡ (x + 4095) / 4096 * 4096
unfolding align_up
align_up_page x h = omega (arith, bit_and_field 12 52 (add64 x 4095))
