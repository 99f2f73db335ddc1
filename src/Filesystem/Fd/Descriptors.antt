-- ===== src/Filesystem/Fd/Descriptors.antt =====
-- The descriptors of a process and the open files behind them (`src/filesystem/fd/fd.c`).
use reddyos_osdev.Base.{
  ℕ, zero, suc, ◌<◌, ◌≡◌, ◌≢◌, ◌∙◌, refl, ap, sym, Option, none, some, List, [], ◌∷◌, length,
  get_elem?, set, length-set, arith,
}
use reddyos_osdev.Base.Int.{ℤ, pos, negsuc}
use reddyos_osdev.Base.Outcome.{Outcome, done, ◌>>=◌}
use reddyos_osdev.Filesystem.Vfs.{File}
use reddyos_osdev.Filesystem.Fd.{FdState, of_close, process_fd_close}
use reddyos_osdev.Filesystem.Fd.Slots.{slot, slot-get, slot-set_self, slot-set_ne, slot_inside}

-- Every descriptor has an open file of its own, which it alone refers to.
pub record IsValid (s : FdState) : Type 0 where
  pub backed :
      (j i : ℕ) → slot s.fds j ≡ some i → (f : File) × (slot s.table i ≡ some f) × (f.refcount ≡ 1)
  pub alone : (j k i : ℕ) → slot s.fds j ≡ some i → slot s.fds k ≡ some i → j ≡ k
  pub some_files : 0 < length s.table
  pub some_fds : 0 < length s.fds

pub of_close_last :
    (idx : ℕ) (table : List (Option File)) (f : File)
    → slot table idx ≡ some f
    → f.refcount ≡ 1
    → of_close idx table ≡ done (pos 0, set table idx none)
unfolding of_close
of_close_last idx table f h one = rw (slot-get table idx h, of_close) (rw one refl)

-- `process_fd_close` of an open descriptor gives 0, frees it and its file, and leaves the other
-- descriptors and their files as they are.
pub process_fd_close_lem :
    (fd i : ℕ) (s : FdState)
    → IsValid s
    → slot s.fds fd ≡ some i
    → (s' : FdState) × (process_fd_close (pos fd) s ≡ done (pos 0, s'))
      × IsValid s'
      × (slot s'.fds fd ≡ none)
      × (slot s'.table i ≡ none)
      × ((k : ℕ) → k ≢ fd → slot s'.fds k ≡ slot s.fds k)
      × ((k : ℕ) → k ≢ i → slot s'.table k ≡ slot s.table k)
      × (s'.vfs ≡ s.vfs)
unfolding process_fd_close
process_fd_close_lem fd i s v open' =
    let (f, here, one) = v.backed fd i open' in
    let gone = slot-set_self s.fds fd none (slot_inside s.fds fd open') in
    let s' : FdState = record s { table = set s.table i none; fds = set s.fds fd none } in
    let other : (j k : ℕ) → slot s'.fds j ≡ some k → j ≢ fd =
      λ j k h e. cc (h, gone, ap (slot s'.fds) e) in
    let old : (j k : ℕ) → slot s'.fds j ≡ some k → slot s.fds j ≡ some k =
      λ j k h. sym (slot-set_ne s.fds fd j none (other j k h)) ∙ h in
    (
      s',
      rw (slot-get s.fds fd open', process_fd_close) (rw (of_close_last i s.table f here one) refl),
      record {
        backed = λ j k h.
            let (g, there, count) = v.backed j k (old j k h) in
            let ne : k ≢ i = λ e. other j k h (v.alone j fd i (old j k h ∙ ap some e) open') in
            (g, slot-set_ne s.table i k none ne ∙ there, count);
        alone = λ j k m h h'. v.alone j k m (old j m h) (old k m h');
        some_files = omega (arith, length-set s.table i none, v.some_files);
        some_fds = omega (arith, length-set s.fds fd none, v.some_fds);
      },
      gone,
      slot-set_self s.table i none (slot_inside s.table i here),
      λ k ne. slot-set_ne s.fds fd k none ne,
      λ k ne. slot-set_ne s.table i k none ne,
      refl,
    )

-- A descriptor that is not open: -1, and nothing changes.
pub process_fd_close_closed :
    (fd : ℕ) (s : FdState) → slot s.fds fd ≡ none → process_fd_close (pos fd) s ≡ done (negsuc 0, s)
unfolding process_fd_close
process_fd_close_closed fd s h = go s.fds fd h
  where
    go :
        (xs : List (Option ℕ)) (j : ℕ)
        → slot xs j ≡ none
        → (elim (get_elem? xs j) as (λ x. Outcome (ℤ × FdState)) [
          | none ↦ done (negsuc 0, s)
          | some none ↦ done (negsuc 0, s)
          | some (some idx) ↦ of_close idx s.table >>= λ r.
              done (pos 0, record s { table = r.1; fds = set s.fds fd none })
        ])
          ≡ done (negsuc 0, s)
    go [] j h = refl
    go (x ∷ xs) zero h = rw h refl
    go (x ∷ xs) (suc j) h = go xs j h
