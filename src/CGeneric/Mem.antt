-- ===== src/CGeneric/Mem.antt =====
-- `memcpy`, `memset`, `memmove` and `memcmp` (`src/kernel_common/c_generic/gcc_mem.c`). Each loop runs
-- over the index as in the code; the ranges lie below the top of the address space.
use reddyos_osdev.Base.{
  ℕ, zero, suc, ◌+◌, ◌-◌, ◌%◌, ◌≤◌, ◌<◌, ◌≡◌, ◌≢◌, ◌∙◌, ◌⊎◌, inl, inr, refl, ap, false, ◌==◌, leb,
  ltb, ◌&&◌, if◌then◌else◌, arith, Bool-cases, ==_iff, ltb→lt,
}
use reddyos_osdev.Base.Int.{ℤ, pos, negsuc}
use reddyos_osdev.Base.Outcome.{Outcome, done, panic}

abbrev pub Bytes : Type 0
Bytes = ℕ → ℕ

unfoldable pub put_byte : Bytes → ℕ → ℕ → Bytes
put_byte m a v b = if b == a then v else m b

-- The loop from the lowest index up.
unfoldable pub copy_up : ℕ → ℕ → ℕ → ℕ → Bytes → Bytes
copy_up dest src zero i m = m
copy_up dest src (suc left) i m =
    copy_up dest src left (i + 1) (put_byte m (dest + i) (m (src + i)))

-- The loop from the highest index down.
unfoldable pub copy_down : ℕ → ℕ → ℕ → Bytes → Bytes
copy_down dest src zero m = m
copy_down dest src (suc i) m = copy_down dest src i (put_byte m (dest + i) (m (src + i)))

unfoldable pub memcpy : ℕ → ℕ → ℕ → Bytes → Bytes
memcpy dest src n m = copy_up dest src n 0 m

unfoldable pub memmove : ℕ → ℕ → ℕ → Bytes → Bytes
memmove dest src n m =
    if ltb dest src
    then copy_up dest src n 0 m
    else if ltb src dest
    then copy_down dest src n m
    else m

unfoldable pub set_up : ℕ → ℕ → ℕ → ℕ → Bytes → Bytes
set_up s c zero i m = m
set_up s c (suc left) i m = set_up s c left (i + 1) (put_byte m (s + i) (c % 256))

unfoldable pub memset : ℕ → ℕ → ℕ → Bytes → Outcome Bytes
memset s c n m = if s == 0 then panic else done (set_up s c n 0 m)

unfoldable pub compare_up : ℕ → ℕ → ℕ → ℕ → Bytes → ℤ
compare_up a b zero i m = pos 0
compare_up a b (suc left) i m =
    let rest = compare_up a b left (i + 1) m in
    if m (a + i) == m (b + i) then rest else if ltb (m (a + i)) (m (b + i)) then negsuc 0 else pos 1

unfoldable pub memcmp : ℕ → ℕ → ℕ → Bytes → ℤ
memcmp a b n m = compare_up a b n 0 m

-- The memory after `n` bytes were moved at once, overlap or not.
abbrev pub moved : ℕ → ℕ → ℕ → Bytes → Bytes
moved dest src n m a = if leb dest a && ltb a (dest + n) then m (src + (a - dest)) else m a

put_self : (m : Bytes) (a v b : ℕ) → b ≡ a → put_byte m a v b ≡ v
unfolding put_byte
put_self m a v b e = ground (arith, e)

put_other : (m : Bytes) (a v b : ℕ) → b ≢ a → put_byte m a v b ≡ m b
unfolding put_byte
put_other m a v b e = ground (arith, e)

copy_up_lem :
    (dest src left i : ℕ) (m : Bytes) (a : ℕ)
    → (dest < src) ⊎ (src + i + left ≤ dest)
    → copy_up dest src left i m a
      ≡ (if leb (dest + i) a && ltb a (dest + i + left) then m (src + (a - dest)) else m a)
unfolding copy_up
copy_up_lem dest src zero i m a h = ground arith
copy_up_lem dest src (suc left) i m a h =
    let v = m (src + i) in
    let later : (dest < src) ⊎ (src + (i + 1) + left ≤ dest) = ground (arith, h) in
    copy_up_lem dest src left (i + 1) (put_byte m (dest + i) v) a later
    ∙ ground (
      arith,
      h,
      put_self m (dest + i) v a,
      put_other m (dest + i) v a,
      put_other m (dest + i) v (src + (a - dest)),
      ap m {x = src + i} {y = src + (a - dest)},
    )

copy_down_lem :
    (dest src n : ℕ) (m : Bytes) (a : ℕ)
    → src < dest
    → copy_down dest src n m a ≡ moved dest src n m a
unfolding copy_down
copy_down_lem dest src zero m a h = ground arith
copy_down_lem dest src (suc i) m a h =
    let v = m (src + i) in
    copy_down_lem dest src i (put_byte m (dest + i) v) a h
    ∙ ground (
      arith,
      h,
      put_self m (dest + i) v a,
      put_other m (dest + i) v a,
      put_other m (dest + i) v (src + (a - dest)),
      ap m {x = src + i} {y = src + (a - dest)},
    )

-- `memmove` moves the range as if all of it were read before any of it is written, whether the
-- ranges overlap or not, and changes no byte outside the destination.
pub memmove_lem :
    (dest src n : ℕ) (m : Bytes) (a : ℕ) → memmove dest src n m a ≡ moved dest src n m a
unfolding memmove
memmove_lem dest src n m a = ground (
  arith,
  copy_up_lem dest src n 0 m a,
  copy_down_lem dest src n m a,
  ap m {x = a} {y = src + (a - dest)},
)

-- `memcpy` does the same when the ranges do not overlap, or the destination lies below the source.
pub memcpy_lem :
    (dest src n : ℕ) (m : Bytes) (a : ℕ)
    → (dest < src) ⊎ (src + n ≤ dest)
    → memcpy dest src n m a ≡ moved dest src n m a
unfolding memcpy
memcpy_lem dest src n m a h =
    let h' : (dest < src) ⊎ (src + 0 + n ≤ dest) = ground (arith, h) in
    copy_up_lem dest src n 0 m a h' ∙ ground arith

set_up_lem :
    (s c left i : ℕ) (m : Bytes) (a : ℕ)
    → set_up s c left i m a ≡ (if leb (s + i) a && ltb a (s + i + left) then c % 256 else m a)
unfolding set_up
set_up_lem s c zero i m a = ground arith
set_up_lem s c (suc left) i m a =
    set_up_lem s c left (i + 1) (put_byte m (s + i) (c % 256)) a
    ∙ ground (arith, put_self m (s + i) (c % 256) a, put_other m (s + i) (c % 256) a)

-- `memset` panics at NULL; elsewhere it stores the low byte of `c` throughout the range and changes
-- no other byte.
pub memset_lem :
    (s c n : ℕ) (m : Bytes)
    → s ≢ 0
    → (memset 0 c n m ≡ panic)
      × (m' : Bytes) × (memset s c n m ≡ done m')
      × ((a : ℕ) → m' a ≡ (if leb s a && ltb a (s + n) then c % 256 else m a))
unfolding memset
memset_lem s c n m nz =
    (refl, set_up s c n 0 m, ground (arith, nz), λ a. set_up_lem s c n 0 m a ∙ ground arith)

-- What a comparison of `n` bytes from index `i` on may answer.
abbrev pub Compared : ℕ → ℕ → ℕ → ℕ → Bytes → ℤ → Type 0
Compared a b n i m r =
    ((r ≡ pos 0) × ((k : ℕ) → k < n → m (a + (i + k)) ≡ m (b + (i + k))))
    ⊎ ((k : ℕ) × (k < n)
        × ((j : ℕ) → j < k → m (a + (i + j)) ≡ m (b + (i + j)))
        × (((m (a + (i + k)) < m (b + (i + k))) × (r ≡ negsuc 0))
            ⊎ ((m (b + (i + k)) < m (a + (i + k))) × (r ≡ pos 1))))

one_equal :
    (a b n i : ℕ) (m : Bytes) (r : ℤ)
    → m (a + i) ≡ m (b + i)
    → Compared a b n (i + 1) m r
    → Compared a b (suc n) i m r
one_equal a b n i m r same (inl (e, all)) = inl (e, λ k. each k)
  where
    each : (k : ℕ) → k < suc n → m (a + (i + k)) ≡ m (b + (i + k))
    each zero lt = ap m (omega arith) ∙ same ∙ ap m (omega arith)
    each (suc k) lt = ap m (omega arith) ∙ all k (omega arith) ∙ ap m (omega arith)
one_equal a b n i m r same (inr (k, lt, before, side)) =
    let here : m (a + (i + suc k)) ≡ m (a + (i + 1 + k)) = ap m (omega arith) in
    let there : m (b + (i + suc k)) ≡ m (b + (i + 1 + k)) = ap m (omega arith) in
    inr (suc k, omega arith, λ j. each j, rw (here, there) side)
  where
    each : (j : ℕ) → j < suc k → m (a + (i + j)) ≡ m (b + (i + j))
    each zero lt = ap m (omega arith) ∙ same ∙ ap m (omega arith)
    each (suc j) lt = ap m (omega arith) ∙ before j (omega arith) ∙ ap m (omega arith)

compare_up_lem : (a b left i : ℕ) (m : Bytes) → Compared a b left i m (compare_up a b left i m)
unfolding compare_up
compare_up_lem a b zero i m = inl (refl, λ k lt. absurd (omega arith))
compare_up_lem a b (suc left) i m = elim (Bool-cases (m (a + i) == m (b + i))) [
  | inl same ↦ rw same (
      one_equal a b left i m _ ((==_iff (m (a + i)) (m (b + i))).0 same)
        (compare_up_lem a b left (i + 1) m))
  | inr other ↦
      let here : m (a + (i + 0)) ≡ m (a + i) = ap m (omega arith) in
      let there : m (b + (i + 0)) ≡ m (b + i) = ap m (omega arith) in
      inr (0, omega arith, λ j lt. absurd (omega arith), rw (other, here, there) (sides other))
]
  where
    sides :
        (m (a + i) == m (b + i)) ≡ false
        → ((m (a + i) < m (b + i))
            × ((if ltb (m (a + i)) (m (b + i)) then negsuc 0 else pos 1) ≡ negsuc 0))
          ⊎ ((m (b + i) < m (a + i))
              × ((if ltb (m (a + i)) (m (b + i)) then negsuc 0 else pos 1) ≡ pos 1))
    sides other = elim (Bool-cases (ltb (m (a + i)) (m (b + i)))) [
      | inl less ↦ rw less (inl (ltb→lt _ _ less, refl))
      | inr more ↦ rw more (inr (ground (arith, more, other), refl))
    ]

-- `memcmp` gives 0 exactly for ranges that agree in every byte; else it gives -1 or 1 by the first
-- byte in which they differ.
pub memcmp_lem : (a b n : ℕ) (m : Bytes) → Compared a b n 0 m (memcmp a b n m)
unfolding memcmp
memcmp_lem a b n m = compare_up_lem a b n 0 m
