-- ===== src/Filesystem/Fd/Opening.antt =====
-- Opening a path: the place in the table of open files and the descriptor (`src/filesystem/fd/fd.c`).
use Prim.Native.Nat.{bit_and}
use reddyos_osdev.Base.{
  ℕ, ◌<◌, ◌≡◌, ◌≢◌, ◌∙◌, ◌⊎◌, inl, inr, refl, ap, sym, Bool, none, some, List, ◌==◌, if◌then◌else◌,
  length, set, length-set, arith, Bool-cases, some-injective, subst, ℕ_discrete, suc,
}
use reddyos_osdev.Base.Int.{ℤ, pos, negsuc}
use reddyos_osdev.Base.Outcome.{done, done-injective}
use reddyos_osdev.Filesystem.Vfs.{File, Vfs, vfs_open, vfs_find_vnode, o_trunc, put_node}
use reddyos_osdev.Filesystem.Fd.{
  FdState, granted, later, of_open, clean_of, fd_insert, process_fd_open, process_fd_close,
}
use reddyos_osdev.Filesystem.Fd.Slots.{
  Granting, slot, slot-set_self, slot-set_ne, slot_inside, Inserted, insert_slot_lem,
}
use reddyos_osdev.Filesystem.Fd.Descriptors.{IsValid, of_close_last, process_fd_close_lem}

abbrev pub fresh_file : ℕ → ℕ → File
fresh_file n flags = record { vnode = n; offset = 0; refcount = 1; flags = flags }

-- The file system after the opening of a node.
abbrev pub opened_vfs : Vfs → ℕ → ℕ → Vfs
opened_vfs v n flags =
    if bit_and flags o_trunc == 0
    then v
    else record v { node = put_node v.node n (record (v.node n) { size = pos 0 }) }

-- The descriptors and the open files are as they were.
pub record Restored (s s' : FdState) : Type 0 where
  pub fds : (j : ℕ) → slot s'.fds j ≡ slot s.fds j
  pub table : (k : ℕ) → slot s'.table k ≡ slot s.table k
  pub valid : IsValid s'

-- A refusal. The file system is as it was, or the node was opened already, when truncation has set its
-- size to 0.
pub record Refused (s : FdState) (n flags : ℕ) (s' : FdState) : Type 0 where
  pub restored : Restored s s'
  pub vfs : (s'.vfs ≡ s.vfs) ⊎ (s'.vfs ≡ opened_vfs s.vfs n flags)

-- A descriptor that was free now has a file of its own, the node was opened, and nothing else has changed.
pub record Opened (s : FdState) (f : File) (fd i : ℕ) (s' : FdState) : Type 0 where
  pub vfs : s'.vfs ≡ opened_vfs s.vfs f.vnode f.flags
  pub descriptor : Inserted i s.fds fd s'.fds
  pub file : Inserted f s.table i s'.table
  pub valid : IsValid s'

kept-IsValid :
    (s s' : FdState)
    → IsValid s
    → ((j : ℕ) → slot s'.fds j ≡ slot s.fds j)
    → ((k : ℕ) → slot s'.table k ≡ slot s.table k)
    → 0 < length s'.table
    → 0 < length s'.fds
    → IsValid s'
kept-IsValid s s' v fds table room room' = record {
  backed = λ j i h. let (f, here, one) = v.backed j i (sym (fds j) ∙ h) in (f, table i ∙ here, one);
  alone = λ j k i h h'. v.alone j k i (sym (fds j) ∙ h) (sym (fds k) ∙ h');
  some_files = room;
  some_fds = room';
}

vfs_open_found :
    (v : Vfs) (path : List ℕ) (flags n : ℕ)
    → vfs_find_vnode v path ≡ done (some n)
    → vfs_open v path flags
      ≡ done (
          some
            (record { vnode = n; offset = 0; refcount = 0; flags = flags }, opened_vfs v n flags))
unfolding vfs_open
vfs_open_found v path flags n h = rw (h, vfs_open) refl

of_open_lem :
    (path : List ℕ) (flags n : ℕ) (s : FdState)
    → IsValid s
    → vfs_find_vnode s.vfs path ≡ done (some n)
    → ((¬ Granting 2 s.memory)
        × (s' : FdState) × (of_open path flags s ≡ done (none, s'))
        × (s'.fds ≡ s.fds)
        × (s'.table ≡ s.table)
        × ((s'.vfs ≡ s.vfs) ⊎ (s'.vfs ≡ opened_vfs s.vfs n flags)))
      ⊎ ((i : ℕ) × (s' : FdState) × (of_open path flags s ≡ done (some i, s'))
          × (s'.fds ≡ s.fds)
          × (s'.vfs ≡ opened_vfs s.vfs n flags)
          × ((k : ℕ) → Granting (suc (suc k)) s.memory → Granting k s'.memory)
          × Inserted (fresh_file n flags) s.table i s'.table)
unfolding of_open
of_open_lem path flags n s v found = elim (Bool-cases (granted s.memory)) [
  | inr refused ↦ inl (
    λ g. cc (g.0, refused),
    record s { memory = later s.memory },
    rw (refused, of_open) refl,
    refl,
    refl,
    inl refl,
  )
  | inl given ↦ elim (insert_slot_lem (fresh_file n flags) s.table (later s.memory) v.some_files) [
    | inl (refused, rest, e) ↦ inl (
      λ g. cc (g.1.0, refused),
      record s { memory = rest; vfs = opened_vfs s.vfs n flags },
      rw (given, of_open) (rw (vfs_open_found s.vfs path flags n found) (rw e refl)),
      refl,
      refl,
      inr refl,
    )
    | inr (i, ys, rest, e, left, ins) ↦ inr (
      i,
      record s { table = ys; memory = rest; vfs = opened_vfs s.vfs n flags },
      rw (given, of_open) (rw (vfs_open_found s.vfs path flags n found) (rw e refl)),
      refl,
      refl,
      λ k g. left k g.1,
      ins,
    )
  ]
]

clean_of_lem :
    (i : ℕ) (s : FdState) (f : File)
    → slot s.table i ≡ some f
    → f.refcount ≡ 1
    → clean_of i s ≡ done (negsuc 0, record s { table = set s.table i none })
unfolding clean_of
clean_of_lem i s f here one = rw (of_close_last i s.table f here one, clean_of) refl

-- Taking the file back leaves the open files as they were before it.
cleaned_Restored :
    (s s1 : FdState) (f : File) (i : ℕ)
    → IsValid s
    → s1.fds ≡ s.fds
    → Inserted f s.table i s1.table
    → (memory : List Bool) → Restored s (record s1 { table = set s1.table i none; memory = memory })
cleaned_Restored s s1 f i v same ins memory =
    let s' : FdState = record s1 { table = set s1.table i none; memory = memory } in
    let fds : (j : ℕ) → slot s'.fds j ≡ slot s.fds j = λ j. ap (λ xs. slot xs j) same in
    let table : (k : ℕ) → slot s'.table k ≡ slot s.table k = λ k. elim (ℕ_discrete k i) [
      | yes e ↦
          rw e (slot-set_self s1.table i none (slot_inside s1.table i ins.here) ∙ sym ins.free)
      | no ne ↦ slot-set_ne s1.table i k none ne ∙ ins.others k ne
    ] in
    record {
      fds = fds;
      table = table;
      valid =
          kept-IsValid s s' v fds table
            (omega (arith, length-set s1.table i none, ins.capacity, v.some_files))
            (rw same v.some_fds);
    }

-- A new descriptor with a new file keeps the validity.
Inserted-IsValid :
    (s s' : FdState) (f : File) (fd i : ℕ)
    → IsValid s
    → f.refcount ≡ 1
    → Inserted i s.fds fd s'.fds
    → Inserted f s.table i s'.table
    → IsValid s'
Inserted-IsValid s s' f fd i v one d t =
    let used : (j k : ℕ) → slot s.fds j ≡ some k → k ≢ i =
      λ j k h e. let (g, there, count) = v.backed j k h in cc (there, t.free, e) in
    let old : (j k : ℕ) → slot s'.fds j ≡ some k → j ≢ fd → slot s.fds j ≡ some k =
      λ j k h ne. sym (d.others j ne) ∙ h in
    let new : (j k : ℕ) → slot s'.fds j ≡ some k → j ≡ fd → k ≡ i =
      λ j k h e. some-injective _ _ (sym h ∙ ap (slot s'.fds) e ∙ d.here) in
    record {
      backed = λ j k h. elim (ℕ_discrete j fd) [
        | yes e ↦ (f, ap (slot s'.table) (new j k h e) ∙ t.here, one)
        | no ne ↦
            let (g, there, count) = v.backed j k (old j k h ne) in
            (g, t.others k (used j k (old j k h ne)) ∙ there, count)
      ];
      alone = λ j k m h h'. elim (ℕ_discrete j fd) [
        | yes e ↦ elim (ℕ_discrete k fd) [
          | yes e' ↦ e ∙ sym e'
          | no ne' ↦ absurd (used k m (old k m h' ne') (new j m h e))
        ]
        | no ne ↦ elim (ℕ_discrete k fd) [
          | yes e' ↦ absurd (used j m (old j m h ne) (new k m h' e'))
          | no ne' ↦ v.alone j k m (old j m h ne) (old k m h' ne')
        ]
      ];
      some_files = omega (arith, t.capacity, v.some_files);
      some_fds = omega (arith, d.capacity, v.some_fds);
    }

fd_insert_lem :
    (i : ℕ) (s s1 : FdState) (f : File)
    → IsValid s
    → f.refcount ≡ 1
    → s1.fds ≡ s.fds
    → s1.vfs ≡ opened_vfs s.vfs f.vnode f.flags
    → Inserted f s.table i s1.table
    → ((¬ Granting 2 s1.memory)
        × (s' : FdState) × (fd_insert i s1 ≡ done (negsuc 0, s'))
        × Refused s f.vnode f.flags s')
      ⊎ ((fd : ℕ) × (s' : FdState) × (fd_insert i s1 ≡ done (pos fd, s')) × Opened s f fd i s')
unfolding fd_insert
fd_insert_lem i s s1 f v one same sys ins =
    let undone : (memory : List Bool)
        → (s' : FdState) × (clean_of i (record s1 { memory = memory }) ≡ done (negsuc 0, s'))
          × Refused s f.vnode f.flags s' =
      λ memory. (
        record s1 { table = set s1.table i none; memory = memory },
        clean_of_lem i (record s1 { memory = memory }) f ins.here one,
        record { restored = cleaned_Restored s s1 f i v same ins memory; vfs = inr sys },
      ) in
    elim (Bool-cases (granted s1.memory)) [
      | inr refused ↦
          let (s', e, r) = undone (later s1.memory) in
          inl (λ g. cc (g.0, refused), s', rw (refused, fd_insert) e, r)
      | inl given ↦ elim (insert_slot_lem i s1.fds (later s1.memory) (rw same v.some_fds)) [
        | inl (refused, rest, full) ↦
            let (s', e, r) = undone rest in
            inl (λ g. cc (g.1.0, refused), s', rw (given, fd_insert) (rw full e), r)
        | inr (fd, ys, rest, e, _, new) ↦
            let s' : FdState = record s1 { fds = ys; memory = rest } in
            let d : Inserted i s.fds fd ys = subst (λ xs. Inserted i xs fd ys) same new in
            inr (
              fd,
              s',
              rw (given, fd_insert) (rw e refl),
              record {
                vfs = sys;
                descriptor = d;
                file = ins;
                valid = Inserted-IsValid s s' f fd i v one d ins;
              },
            )
      ]
    ]

-- `process_fd_open` of a path that names a node ends, and keeps the validity. It gives -1, with the
-- descriptors and open files as they were, only if one of the first four answers refuses memory; the
-- file system is then as it was, or, with O_TRUNC, the size of the node may be 0 already. Or it gives a
-- descriptor that was free and now alone has an open file of its own, at its start, with the flags asked
-- for; the other descriptors and files are as they were, and so is the file system, but for the size of
-- the node, which O_TRUNC sets to 0.
pub process_fd_open_lem :
    (path : List ℕ) (flags n : ℕ) (s : FdState)
    → IsValid s
    → vfs_find_vnode s.vfs path ≡ done (some n)
    → ((¬ Granting 4 s.memory)
        × (s' : FdState) × (process_fd_open path flags s ≡ done (negsuc 0, s'))
        × Refused s n flags s')
      ⊎ ((fd i : ℕ) × (s' : FdState) × (process_fd_open path flags s ≡ done (pos fd, s'))
          × Opened s (fresh_file n flags) fd i s')
unfolding process_fd_open
process_fd_open_lem path flags n s v found = elim (of_open_lem path flags n s v found) [
  | inl (refused, s', e, fds, table, sys) ↦
      let same : (j : ℕ) → slot s'.fds j ≡ slot s.fds j = λ j. ap (λ xs. slot xs j) fds in
      let same' : (k : ℕ) → slot s'.table k ≡ slot s.table k = λ k. ap (λ xs. slot xs k) table in
      inl (
        λ g. refused (g.0, (g.1.0, tt)),
        s',
        rw (e, process_fd_open) refl,
        record {
          restored = record {
            fds = same;
            table = same';
            valid = kept-IsValid s s' v same same' (rw table v.some_files) (rw fds v.some_fds);
          };
          vfs = sys;
        },
      )
  | inr (i, s1, e, fds, sys, left, ins) ↦
      elim (fd_insert_lem i s s1 (fresh_file n flags) v refl fds sys ins) [
        | inl (refused, s', e', r) ↦
            inl (λ g. refused (left 2 g), s', rw (e, process_fd_open) e', r)
        | inr (fd, s', e', o) ↦ inr (fd, i, s', rw (e, process_fd_open) e', o)
      ]
]

-- Closing a descriptor right after it was opened gives 0, and every descriptor and open file is as it
-- was before the opening; so is the file system, but for the size of the node, which O_TRUNC has set to 0.
pub process_fd_close-process_fd_open :
    (path : List ℕ) (flags n fd : ℕ) (s s1 : FdState)
    → IsValid s
    → vfs_find_vnode s.vfs path ≡ done (some n)
    → process_fd_open path flags s ≡ done (pos fd, s1)
    → (s2 : FdState) × (process_fd_close (pos fd) s1 ≡ done (pos 0, s2))
      × Restored s s2
      × (s2.vfs ≡ opened_vfs s.vfs n flags)
process_fd_close-process_fd_open path flags n fd s s1 v found opened =
    elim (process_fd_open_lem path flags n s v found) [
      | inl (_, s', e, r) ↦ cc (sym opened ∙ e)
      | inr (fd', i, s', e, o) ↦ closed fd' i s' o (done-injective (sym opened ∙ e))
    ]
  where
    closed :
        (fd' i : ℕ) (s' : FdState)
        → Opened s (fresh_file n flags) fd' i s'
        → ◌≡◌ {A = ℤ × FdState} (pos fd, s1) (pos fd', s')
        → (s2 : FdState) × (process_fd_close (pos fd) s1 ≡ done (pos 0, s2))
          × Restored s s2
          × (s2.vfs ≡ opened_vfs s.vfs n flags)
    closed fd' i s' o same =
        let (s2, e, v2, gone, free, fds, table, sys) =
          process_fd_close_lem fd' i s' o.valid o.descriptor.here in
        (
          s2,
          ap (λ r. process_fd_close r.0 r.1) same ∙ e,
          record {
            fds = λ j. elim (ℕ_discrete j fd') [
              | yes e' ↦
                  ap (slot s2.fds) e' ∙ gone ∙ sym o.descriptor.free ∙ ap (slot s.fds) (sym e')
              | no ne ↦ fds j ne ∙ o.descriptor.others j ne
            ];
            table = λ k. elim (ℕ_discrete k i) [
              | yes e' ↦ ap (slot s2.table) e' ∙ free ∙ sym o.file.free ∙ ap (slot s.table) (sym e')
              | no ne ↦ table k ne ∙ o.file.others k ne
            ];
            valid = v2;
          },
          sys ∙ o.vfs,
        )
