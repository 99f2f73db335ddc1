-- ===== src/Filesystem/Fd.antt =====
-- The table of open files and the descriptors of a process (`src/filesystem/fd/fd.c`). A `file_t` is
-- reached only through its place in the table, so the table holds it; an array of pointers is a list of
-- options. What `kmalloc` and `kcalloc` answer, one call after the other, is part of the state; a list
-- that has ended refuses.
pub mod Slots
pub mod Descriptors
pub mod Opening
use reddyos_osdev.Base.{
  ℕ, zero, suc, ◌+◌, ◌-◌, ◌*◌, ◌%◌, ◌^◌, Bool, true, false, Option, none, some, List, [], ◌∷◌, ◌++◌,
  ◌==◌, if◌then◌else◌, not, length, get_elem?, set, replicate,
}
use reddyos_osdev.Base.Int.{ℤ, pos, negsuc}
use reddyos_osdev.Base.Outcome.{Outcome, done, panic, out_of_fuel, ◌>>=◌}
use reddyos_osdev.Filesystem.Vfs.{File, Vfs, vfs_open}

abbrev pub granted : List Bool → Bool
granted [] = false
granted (a ∷ later) = a

abbrev pub later : List Bool → List Bool
later [] = []
later (a ∷ as') = as'

-- The variables of the file, the descriptors of the process, and what they use.
pub record FdState : Type 0 where
  pub table : List (Option File)
  pub fds : List (Option ℕ)
  pub memory : List Bool
  pub vfs : Vfs

unfoldable pub first_free {ℓ} : {A : Type ℓ} → List (Option A) → Option ℕ
first_free [] = none
first_free (none ∷ xs) = some 0
first_free (some a ∷ xs) = elim (first_free xs) [ none ↦ none | some i ↦ some (suc i) ]

-- Twice the capacity, the old places first.
unfoldable pub extend {ℓ} : {A : Type ℓ} → List (Option A) → List (Option A)
extend xs = xs ++ replicate (length xs) none

-- The loop that looks for a free place and extends the array when there is none: the place and the
-- array, or none when memory was refused.
unfoldable pub insert_slot {ℓ} :
    {A : Type ℓ}
    → ℕ
    → A
    → List (Option A)
    → List Bool
    → Outcome (Option (ℕ × List (Option A)) × List Bool)
insert_slot zero a xs memory = out_of_fuel
insert_slot (suc fuel) a xs memory =
    let rest = insert_slot fuel a (extend xs) (later memory) in
    elim (first_free xs) [
      | some i ↦ done (some (i, set xs i (some a)), memory)
      | none ↦ if granted memory then rest else done (none, later memory)
    ]

-- The index in the table, or none for -1. The search ends in its second round at the latest.
unfoldable pub of_open : List ℕ → ℕ → FdState → Outcome (Option ℕ × FdState)
of_open path flags s =
    let s1 : FdState = record s { memory = later s.memory } in
    if not (granted s.memory)
    then done (none, s1)
    else vfs_open s.vfs path flags >>= λ opened. elim opened [
      | none ↦ done (none, s1)
      | some (file, vfs) ↦
          insert_slot 2 (record file { refcount = (file.refcount + 1) % 2 ^ 32; flags = flags })
            s.table (later s.memory)
          >>= λ r. elim r.0 [
            | none ↦ done (none, record s { memory = r.1; vfs = vfs })
            | some (i, table) ↦ done (some i, record s { table = table; memory = r.1; vfs = vfs })
          ]
    ]

-- An index out of range is a fault.
unfoldable pub of_close : ℕ → List (Option File) → Outcome (ℤ × List (Option File))
of_close idx table = elim (get_elem? table idx) [
  | none ↦ panic
  | some none ↦ done (negsuc 0, table)
  | some (some file) ↦
      let count = (file.refcount + 2 ^ 32 - 1) % 2 ^ 32 in
      done (
        pos 0,
        if count == 0
            then set table idx none
            else set table idx (some (record file { refcount = count })),
      )
]

-- The end of `process_fd_open` when it has failed: `clean_of`.
unfoldable pub clean_of : ℕ → FdState → Outcome (ℤ × FdState)
clean_of idx s = do r ← of_close idx s.table; done (negsuc 0, record s { table = r.1 })

-- The part of `process_fd_open` behind `of_open`.
unfoldable pub fd_insert : ℕ → FdState → Outcome (ℤ × FdState)
fd_insert idx s =
    let s1 : FdState = record s { memory = later s.memory } in
    if not (granted s.memory)
    then clean_of idx s1
    else insert_slot 2 idx s.fds (later s.memory) >>= λ r. elim r.0 [
      | none ↦ clean_of idx (record s { memory = r.1 })
      | some (j, fds) ↦ done (pos j, record s { fds = fds; memory = r.1 })
    ]

unfoldable pub process_fd_open : List ℕ → ℕ → FdState → Outcome (ℤ × FdState)
process_fd_open path flags s = of_open path flags s >>= λ r. elim r.0 [
  | none ↦ done (negsuc 0, r.1)
  | some idx ↦ fd_insert idx r.1
]

unfoldable pub process_fd_close : ℤ → FdState → Outcome (ℤ × FdState)
process_fd_close (negsuc k) s = done (negsuc 0, s)
process_fd_close (pos fd) s = elim (get_elem? s.fds fd) [
  | none ↦ done (negsuc 0, s)
  | some none ↦ done (negsuc 0, s)
  | some (some idx) ↦
      of_close idx s.table >>= λ r. done (pos 0, record s { table = r.1; fds = set s.fds fd none })
]

-- The index of the file in the table; NULL is none, and an index out of range is a fault.
unfoldable pub process_unpack_fd : ℤ → FdState → Outcome (Option ℕ)
process_unpack_fd (negsuc k) s = done none
process_unpack_fd (pos fd) s = elim (get_elem? s.fds fd) [
  | none ↦ done none
  | some none ↦ done none
  | some (some idx) ↦ elim (get_elem? s.table idx) [
    | none ↦ panic
    | some none ↦ done none
    | some (some file) ↦ done (some idx)
  ]
]

unfoldable pub fd_init : List (Option File)
fd_init = replicate 32 none

unfoldable pub process_fd_init : List (Option ℕ)
process_fd_init = replicate 16 none

abbrev pub o_rdonly : ℕ
o_rdonly = 0

abbrev pub o_wronly : ℕ
o_wronly = 1

-- `/dev/stdin`, `/dev/stdout` and `/dev/stderr`.
abbrev pub dev_stdin : List ℕ
dev_stdin = 47 ∷ 100 ∷ 101 ∷ 118 ∷ 47 ∷ 115 ∷ 116 ∷ 100 ∷ 105 ∷ 110 ∷ []

abbrev pub dev_stdout : List ℕ
dev_stdout = 47 ∷ 100 ∷ 101 ∷ 118 ∷ 47 ∷ 115 ∷ 116 ∷ 100 ∷ 111 ∷ 117 ∷ 116 ∷ []

abbrev pub dev_stderr : List ℕ
dev_stderr = 47 ∷ 100 ∷ 101 ∷ 118 ∷ 47 ∷ 115 ∷ 116 ∷ 100 ∷ 101 ∷ 114 ∷ 114 ∷ []

-- What follows a call, unless it gave a negative number, which makes the whole -1.
abbrev pub unless_failed : ℤ × FdState → (FdState → Outcome (ℤ × FdState)) → Outcome (ℤ × FdState)
unless_failed (pos fd, s) go = go s
unless_failed (negsuc k, s) go = done (negsuc 0, s)

unfoldable pub process_fd_base : FdState → Outcome (ℤ × FdState)
process_fd_base s = process_fd_open dev_stdin o_rdonly s >>= λ r. unless_failed r (λ s1.
    process_fd_open dev_stdout o_wronly s1 >>= λ r1. unless_failed r1 (λ s2.
      process_fd_open dev_stderr o_wronly s2 >>= λ r2. unless_failed r2 (λ s3. done (pos 0, s3))))
