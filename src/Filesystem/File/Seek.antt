-- ===== src/Filesystem/File/Seek.antt =====
-- `vfs_lseek` (`src/filesystem/vfs/vfs.c`).
use reddyos_osdev.Base.{
  ℕ, ◌+◌, ◌%◌, ◌^◌, min, ◌≤◌, ◌<◌, ◌≡◌, ◌≢◌, ◌∙◌, refl, ap, sym, some, false, ◌==◌, arith,
}
use reddyos_osdev.Base.Int.{ℤ, pos, negsuc, ◌+ℤ◌, pos_part, neg_part}
use reddyos_osdev.Base.Outcome.{done}
use reddyos_osdev.Filesystem.Vfs.{Vnode, File}
use reddyos_osdev.Filesystem.File.{
  Whence, seek_set, seek_cur, seek_end, invalid, to_signed, to_word, seek_target, clamp, vfs_lseek,
}

-- The place in a file of `size` bytes that is nearest to the target.
abbrev pub nearest : ℕ → ℤ → ℕ
nearest size target = min size (pos_part target)

clamp_lem : (size : ℕ) (target : ℤ) → clamp (pos size) target ≡ pos (nearest size target)
unfolding clamp
clamp_lem size target = ground arith

-- The target is `base` and the offset on, in numbers without bounds.
abbrev pub OffsetFrom : ℕ → ℤ → ℤ → Type 0
OffsetFrom base offset target =
    pos_part target + neg_part offset ≡ base + pos_part offset + neg_part target

-- The place that a seek means, in a file of `size` bytes that stands at `at`.
abbrev pub Asks : ℕ → ℕ → ℤ → Whence → ℤ → Type 0
Asks at size offset seek_set target = target ≡ offset
Asks at size offset seek_cur target = OffsetFrom at offset target
Asks at size offset seek_end target = OffsetFrom size offset target
Asks at size offset invalid target = ⊥

-- A 64-bit signed number.
abbrev pub IsOff : ℤ → Type 0
IsOff x = (pos_part x < 2 ^ 63) × (neg_part x ≤ 2 ^ 63)

word_lem : (x : ℤ) → IsOff x → to_signed (to_word x) ≡ x
unfolding to_signed to_word
word_lem (pos n) h = ground (arith, h.0)
word_lem (negsuc n) h = ground (arith, h.1)

sum_lem :
    (base : ℕ) (offset target : ℤ) → OffsetFrom base offset target → pos base +ℤ offset ≡ target
unfolding ◌+ℤ◌
sum_lem base (pos a) (pos b) h = ground (arith, h)
sum_lem base (pos a) (negsuc b) h = absurd (omega (arith, h))
sum_lem base (negsuc a) (pos b) h = ground (arith, h)
sum_lem base (negsuc a) (negsuc b) h = ground (arith, h)

signed_lem : (n : ℕ) → n < 2 ^ 63 → to_signed n ≡ pos n
unfolding to_signed
signed_lem n h = ground (arith, h)

-- The code's sum does not wrap round on a target of 64 bits.
seek_target_lem :
    (file : File) (size : ℕ) (offset : ℤ) (whence : Whence) (target : ℤ)
    → file.offset < 2 ^ 63
    → IsOff target
    → Asks file.offset size offset whence target
    → seek_target file (pos size) offset whence ≡ some target
unfolding seek_target
seek_target_lem file size offset seek_set target h off asks = ap some (sym asks)
seek_target_lem file size offset seek_cur target h off asks =
    rw (signed_lem file.offset h, sum_lem file.offset offset target asks, word_lem target off) refl
seek_target_lem file size offset seek_end target h off asks =
    rw (sum_lem size offset target asks, word_lem target off) refl
seek_target_lem file size offset invalid target h off asks = absurd asks

at_place :
    (node : ℕ → Vnode) (file : File) (offset : ℤ) (whence : Whence) (size : ℕ) (target : ℤ)
    → (node file.vnode).size ≡ pos size
    → size < 2 ^ 63
    → file.vnode ≢ 0
    → seek_target file (pos size) offset whence ≡ some target
    → vfs_lseek node file offset whence
      ≡ done (pos (nearest size target), record file { offset = nearest size target })
unfolding to_word vfs_lseek
at_place node file offset whence size target len small some_node goal =
    let word : nearest size target % 2 ^ 64 ≡ nearest size target = omega (arith, small) in
    let given : (file.vnode == 0) ≡ false = ground (arith, some_node) in
    let found = ap (λ (z : ℤ). seek_target file z offset whence) len ∙ goal in
    rw (given, found, vfs_lseek) (rw (len, clamp_lem size target, word) refl)

-- On an open file of a proper size that stands at a proper place, `vfs_lseek` moves to the place in the
-- file that is nearest to the one asked for, if that is a 64-bit signed number, and says so; asked again
-- for the present place, it gives the same and moves no more.
pub vfs_lseek_lem :
    (node : ℕ → Vnode) (file : File) (offset : ℤ) (whence : Whence) (size : ℕ) (target : ℤ)
    → (node file.vnode).size ≡ pos size
    → size < 2 ^ 63
    → file.vnode ≢ 0
    → file.offset < 2 ^ 63
    → IsOff target
    → Asks file.offset size offset whence target
    → (file' : File) × (vfs_lseek node file offset whence ≡ done (pos (nearest size target), file'))
      × (file'.offset ≡ nearest size target)
      × (vfs_lseek node file' (pos 0) seek_cur ≡ done (pos (nearest size target), file'))
vfs_lseek_lem node file offset whence size target len small some_node place off asks =
    let n = nearest size target in
    let file' : File = record file { offset = n } in
    let inside : n < 2 ^ 63 = omega (arith, small) in
    (
      file',
      at_place node file offset whence size target len small some_node
          (seek_target_lem file size offset whence target place off asks),
      refl,
      at_place node file' (pos 0) seek_cur size (pos n) len small some_node (
            seek_target_lem file' size (pos 0) seek_cur (pos n) inside (inside, omega arith)
              (omega arith))
          ∙ ap (λ (k : ℕ). done (pos k, record file { offset = k })) (omega arith),
    )
