-- ===== src/Filesystem/Calls.antt =====
-- The system calls on files (`src/syscalls/fs/fs.c`), with the error numbers of `abi-bits/errno.h`.
use reddyos_osdev.Base.{
  ℕ, zero, suc, ◌-◌, ◌^◌, ◌≡◌, refl, ap, Option, none, some, List, [], ◌∷◌, ltb, ◌==◌, ◌||◌,
  if◌then◌else◌, get_elem?, set, ◌⊎◌, inl, inr,
}
use reddyos_osdev.Base.Int.{ℤ, pos, negsuc}
use reddyos_osdev.Base.Outcome.{Outcome, done, panic, ◌>>=◌}
use reddyos_osdev.Filesystem.Vfs.{File, vfs_find_vnode}
use reddyos_osdev.Filesystem.File.{
  vfs_read, vfs_write, vfs_ioctl, vfs_lseek, vfs_stat, Whence, Modes, Stat,
}
use reddyos_osdev.Filesystem.Fd.{FdState, process_fd_open, process_fd_close, process_unpack_fd}
use reddyos_osdev.Filesystem.Fd.Slots.{slot}

-- A `uint` passed on as an `int`.
unfoldable pub to_int : ℕ → ℤ
to_int fd = if ltb fd (2 ^ 31) then pos fd else negsuc (2 ^ 32 - 1 - fd)

-- The error `-code`.
abbrev pub failure : ℕ → ℤ
failure zero = pos 0
failure (suc code) = negsuc code

unfoldable pub do_sys_open : List ℕ → ℕ → FdState → Outcome (ℤ × FdState)
do_sys_open path flags s = process_fd_open path flags s

unfoldable pub do_sys_close : ℕ → FdState → Outcome (ℤ × FdState)
do_sys_close fd s = process_fd_close (to_int fd) s

module _ (ebadf : ℕ) where
  -- What the calls do with the open file behind a descriptor, which stays at its place.
  unfoldable pub with_file : ℕ → FdState → (File → Outcome (ℤ × File)) → Outcome (ℤ × FdState)
  with_file fd s go = process_unpack_fd (to_int fd) s >>= λ found. elim found [
    | none ↦ done (failure ebadf, s)
    | some idx ↦ elim (get_elem? s.table idx) [
      | none ↦ panic
      | some none ↦ done (failure ebadf, s)
      | some (some file) ↦
          go file >>= λ r. done (r.0, record s { table = set s.table idx (some r.1) })
    ]
  ]

  unfoldable pub do_sys_lseek : ℕ → ℤ → Whence → FdState → Outcome (ℤ × FdState)
  do_sys_lseek fd offset whence s = with_file fd s (λ file. vfs_lseek s.vfs.node file offset whence)

  -- `buffer` is the structure that the call fills.
  unfoldable pub do_sys_fstat : Modes → ℕ → Option Stat → FdState → Outcome (ℤ × Option Stat)
  do_sys_fstat modes fd buffer s = process_unpack_fd (to_int fd) s >>= λ found. elim found [
    | none ↦ done (failure ebadf, buffer)
    | some idx ↦ elim (get_elem? s.table idx) [
      | none ↦ panic
      | some none ↦ done (failure ebadf, buffer)
      | some (some file) ↦ vfs_stat modes file.vnode (s.vfs.node file.vnode) buffer
    ]
  ]

  module _ (call : ℕ → ℕ → ℕ → ℕ → ℤ) where
    unfoldable pub do_sys_read : ℕ → ℕ → ℕ → ℕ → FdState → Outcome (ℤ × FdState)
    do_sys_read einval fd buffer size s =
        if buffer == 0 || size == 0
        then done (failure einval, s)
        else with_file fd s (λ file. vfs_read s.vfs.node call file buffer size)

    unfoldable pub do_sys_write : ℕ → ℕ → ℕ → ℕ → FdState → Outcome (ℤ × FdState)
    do_sys_write einval fd buffer size s =
        if buffer == 0 || size == 0
        then done (failure einval, s)
        else with_file fd s (λ file. vfs_write s.vfs.node call file size)

    unfoldable pub do_sys_ioctl : ℕ → ℕ → ℕ → FdState → Outcome (ℤ × FdState)
    do_sys_ioctl fd cmd arg s =
        with_file fd s (λ file. done (vfs_ioctl s.vfs.node call file cmd arg, file))

unfoldable pub do_sys_stat : ℕ → Modes → List ℕ → Option Stat → FdState → Outcome (ℤ × Option Stat)
do_sys_stat enoent modes path buffer s = vfs_find_vnode s.vfs path >>= λ found. elim found [
  | none ↦ done (failure enoent, buffer)
  | some n ↦ vfs_stat modes n (s.vfs.node n) buffer
]

slot_closed :
    (xs : List (Option ℕ)) (j : ℕ)
    → slot xs j ≡ none
    → (get_elem? xs j ≡ none) ⊎ (get_elem? xs j ≡ some none)
slot_closed [] j h = inl refl
slot_closed (x ∷ xs) zero h = inr (ap some h)
slot_closed (x ∷ xs) (suc j) h = slot_closed xs j h

unpack_closed :
    (fd : ℕ) (s : FdState) → slot s.fds fd ≡ none → process_unpack_fd (pos fd) s ≡ done none
unfolding process_unpack_fd
unpack_closed fd s h = elim (slot_closed s.fds fd h) [
  | inl outside ↦ rw (outside, process_unpack_fd) refl
  | inr free ↦ rw (free, process_unpack_fd) refl
]
