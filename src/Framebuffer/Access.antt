-- ===== src/Framebuffer/Access.antt =====
-- Reading, writing and clearing the frame buffer (`src/framebuffer/fb.c`).
use reddyos_osdev.Base.{
  ℕ, zero, suc, ◌+◌, ◌-◌, ◌*◌, ◌/◌, ◌%◌, ◌^◌, ◌≤◌, ◌<◌, ◌≡◌, ◌∙◌, ◌⊎◌, inl, inr, refl, ap, true,
  false, min, some, ltb, leb, ◌==◌, arith, Bool-cases,
}
use reddyos_osdev.Base.Int.{pos}
use reddyos_osdev.Memory.Page.{add64}
use reddyos_osdev.CGeneric.Mem.{Bytes, moved, memcpy_lem}
use reddyos_osdev.Process.{store}
use reddyos_osdev.Process.Words.{load, load-store, store_below, store_above}
use reddyos_osdev.Framebuffer.{
  Framebuffer, clip, to_int, fb_read, fb_write, fb_ioctl, fb_ioctl_clear, clear_from,
}

-- The buffer lies below the top of the address space, and an `int` can count its bytes.
pub record IsPlaced (fb : Framebuffer) : Type 0 where
  pub top : fb.back + 4 * fb.size < 2 ^ 64
  pub count : fb.size < 2 ^ 31

clip_lem :
    (fb : Framebuffer) (offset size : ℕ)
    → fb.size < 2 ^ 31
    → offset < fb.size
    → offset + size < 2 ^ 64
    → clip fb offset size ≡ min size (fb.size - offset)
clip_lem fb offset size count inside fits = ground (arith, count, inside, fits)

to_int_lem : (n : ℕ) → n < 2 ^ 31 → to_int n ≡ pos n
to_int_lem n h =
    let same : n % 2 ^ 32 ≡ n = omega (arith, h) in
    let low : ltb n (2 ^ 31) ≡ true = ground (arith, h) in rw (same, low) refl

-- On a frame buffer below the top of the address space, of less than 2 ^ 31 bytes, a read to a place apart,
-- whose offset and size add up below 2 ^ 64, copies what there is from the offset on, and no byte at or
-- behind the end; it gives the number of bytes.
pub fb_read_lem :
    (fb : Framebuffer) (offset buffer size : ℕ) (m : Bytes)
    → IsPlaced fb
    → offset + size < 2 ^ 64
    → (buffer + size ≤ fb.back) ⊎ (fb.back + fb.size ≤ buffer)
    → ((fb_read fb offset buffer size m).0 ≡ pos (min size (fb.size - offset)))
      × ((a : ℕ)
          → (fb_read fb offset buffer size m).1 a
            ≡ moved buffer (fb.back + offset) (min size (fb.size - offset)) m a)
unfolding fb_read
fb_read_lem fb offset buffer size m p fits apart = elim (Bool-cases (leb fb.size offset)) [
  | inl past ↦
      let nothing : min size (fb.size - offset) ≡ 0 = ground (arith, past) in
      rw (past, nothing) (refl, λ a. ground arith)
  | inr inside ↦
      let below : offset < fb.size = ground (arith, inside) in
      let n = clip_lem fb offset size p.count below fits in
      let at : add64 fb.back offset ≡ fb.back + offset = omega (arith, p.top, below) in
      rw (inside, n, at)
        (
          to_int_lem (min size (fb.size - offset)) (ground (arith, p.count)),
          λ a.
              memcpy_lem buffer (fb.back + offset) (min size (fb.size - offset)) m a
                (ground (arith, apart, below)),
        )
]

-- A write within the size, from another place, of which the offset is at least a quarter of the
-- size, reports the bytes as written, but none of the frame buffer changes: they go to four times
-- the offset, behind its end.
pub fb_write_behind :
    (fb : Framebuffer) (offset buffer size : ℕ) (m : Bytes)
    → IsPlaced fb
    → offset < fb.size
    → fb.size ≤ 4 * offset
    → offset + size < 2 ^ 64
    → (fb.back + 4 * offset < buffer) ⊎ (buffer + size ≤ fb.back + 4 * offset)
    → ((fb_write fb offset buffer size m).0 ≡ pos (min size (fb.size - offset)))
      × ((i : ℕ)
          → i < fb.size
          → (fb_write fb offset buffer size m).1 (fb.back + i) ≡ m (fb.back + i))
      × ((i : ℕ)
          → i < min size (fb.size - offset)
          → (fb_write fb offset buffer size m).1 (fb.back + 4 * offset + i) ≡ m (buffer + i))
unfolding fb_write
fb_write_behind fb offset buffer size m p below quarter fits apart =
    let inside : leb fb.size offset ≡ false = ground (arith, below) in
    let n = clip_lem fb offset size p.count below fits in
    let at : add64 fb.back (4 * offset) ≡ fb.back + 4 * offset = omega (arith, p.top, below) in
    let apart' : (fb.back + 4 * offset < buffer)
        ⊎ (buffer + min size (fb.size - offset) ≤ fb.back + 4 * offset) =
      ground (arith, apart) in
    rw (inside, n, at)
      (
        to_int_lem (min size (fb.size - offset)) (ground (arith, p.count)),
        (λ i h.
            memcpy_lem (fb.back + 4 * offset) buffer (min size (fb.size - offset)) m (fb.back + i)
              apart'
            ∙ untouched (fb.back + 4 * offset) buffer (min size (fb.size - offset)) m (fb.back + i)
                (omega (arith, h, quarter))),
        λ i h.
            memcpy_lem (fb.back + 4 * offset) buffer (min size (fb.size - offset)) m
              (fb.back + 4 * offset + i) apart'
            ∙ copied (fb.back + 4 * offset) buffer (min size (fb.size - offset)) m i h,
      )
  where
    untouched : (dest src n : ℕ) (m : Bytes) (a : ℕ) → a < dest → moved dest src n m a ≡ m a
    untouched dest src n m a h = let out : leb dest a ≡ false = ground (arith, h) in rw out refl

    copied :
        (dest src n : ℕ) (m : Bytes) (i : ℕ) → i < n → moved dest src n m (dest + i) ≡ m (src + i)
    copied dest src n m i h =
        let low : leb dest (dest + i) ≡ true = ground arith in
        let high : ltb (dest + i) (dest + n) ≡ true = ground (arith, h) in
        rw (low, high) (ap m (omega arith))

load_eq :
    (n a : ℕ) (m m' : Bytes) → ((b : ℕ) → a ≤ b → b < a + n → m' b ≡ m b) → load n a m' ≡ load n a m
unfolding load
load_eq zero a m m' same = refl
load_eq (suc n) a m m' same = omega (
  arith,
  same a (omega arith) (omega arith),
  load_eq n (a + 1) m m' (λ b h k. same b (omega (arith, h)) (omega (arith, k))),
)

clear_outside :
    (left i back color : ℕ) (m : Bytes) (a : ℕ)
    → (a < back + 4 * i) ⊎ (back + 4 * (i + left) ≤ a)
    → clear_from left i back color m a ≡ m a
unfolding clear_from
clear_outside zero i back color m a h = refl
clear_outside (suc left) i back color m a h =
    clear_outside left (i + 1) back color (store 4 (back + 4 * i) color m) a
      (elim h [ inl k ↦ inl (omega (arith, k)) | inr k ↦ inr (omega (arith, k)) ])
    ∙ elim h [
      | inl k ↦ store_below 4 (back + 4 * i) color a m k
      | inr k ↦ store_above 4 (back + 4 * i) color a m (omega (arith, k))
    ]

clear_inside :
    (left i back color : ℕ) (m : Bytes) (j : ℕ)
    → color < 2 ^ 32
    → i ≤ j
    → j < i + left
    → load 4 (back + 4 * j) (clear_from left i back color m) ≡ color
unfolding clear_from
clear_inside zero i back color m j small low high = absurd (omega (arith, low, high))
clear_inside (suc left) i back color m j small low high = elim (Bool-cases (j == i)) [
  | inl e ↦
      let e' : j ≡ i = ground (arith, e) in
      load_eq 4 (back + 4 * j) (store 4 (back + 4 * i) color m)
        (clear_from left (i + 1) back color (store 4 (back + 4 * i) color m))
        (λ b h k.
          clear_outside left (i + 1) back color (store 4 (back + 4 * i) color m) b
            (inl (omega (arith, k, e'))))
      ∙ ap (λ q. load 4 (back + 4 * q) (store 4 (back + 4 * i) color m)) e'
      ∙ load-store 4 (back + 4 * i) color m (omega (arith, small))
  | inr ne ↦
      let next : i + 1 ≤ j = ground (arith, low, ne) in
      clear_inside left (i + 1) back color (store 4 (back + 4 * i) color m) j small next
        (omega (arith, high))
]

-- `FB_IOCTL_CLEAR` gives every pixel the colour, which is the low half of the argument, and changes nothing outside.
pub fb_ioctl_clear_lem :
    (fb : Framebuffer) (arg : ℕ) (m : Bytes)
    → ((j : ℕ)
        → j < fb.size / 4
        → load 4 (fb.back + 4 * j) (fb_ioctl (some fb) fb_ioctl_clear arg m).1 ≡ arg % 2 ^ 32)
      × ((a : ℕ)
          → (a < fb.back) ⊎ (fb.back + fb.size ≤ a)
          → (fb_ioctl (some fb) fb_ioctl_clear arg m).1 a ≡ m a)
unfolding fb_ioctl
fb_ioctl_clear_lem fb arg m = (
  λ j h.
      clear_inside (fb.size / 4) 0 fb.back (arg % 2 ^ 32) m j (omega arith) (omega arith)
        (omega (arith, h)),
  λ a h.
      clear_outside (fb.size / 4) 0 fb.back (arg % 2 ^ 32) m a
        (elim h [ inl k ↦ inl (omega (arith, k)) | inr k ↦ inr (omega (arith, k)) ]),
)
