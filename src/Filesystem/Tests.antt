-- ===== src/Filesystem/Tests.antt =====
-- Runs of the file system and of the descriptors (`src/filesystem/vfs/vfs.c`, `src/filesystem/fd/fd.c`).
use reddyos_osdev.Base.{
  ℕ, ◌≡◌, ◌⊎◌, inl, inr, refl, ap, length, List, [], ◌∷◌, ◌++◌, none, some, some-injective, zero,
  suc, true, arith, if◌then◌else◌, ◌==◌,
}
use reddyos_osdev.Base.Int.{pos, negsuc, ◌+ℤ◌}
use reddyos_osdev.Base.Outcome.{done}
use reddyos_osdev.Filesystem.Vfs.{
  Vfs, Vnode, File, children, raw, slash, find_child, same_text, direct_child, strip_leading,
  strip_trailing, vfs_find_vnode, vfs_open,
}
use reddyos_osdev.Filesystem.Vfs.Path.{join, IsName}
use reddyos_osdev.Filesystem.Vfs.Lookup.{vfs_find_vnode_lem}
use reddyos_osdev.Filesystem.File.{seek_cur, vfs_lseek}
use reddyos_osdev.Filesystem.File.Seek.{nearest, vfs_lseek_lem}
use reddyos_osdev.Filesystem.Mount.{mount_fs, mount_fs_lem}
use reddyos_osdev.Filesystem.Fd.{
  FdState, of_open, fd_insert, insert_slot, first_free, process_fd_open, process_fd_close,
}
use reddyos_osdev.Filesystem.Fd.Slots.{Granting, slot}
use reddyos_osdev.Filesystem.Fd.Descriptors.{IsValid}
use reddyos_osdev.Filesystem.Fd.Opening.{
  Restored, opened_vfs, Refused, Opened, fresh_file, process_fd_open_lem,
  process_fd_close-process_fd_open,
}

-- `ab` and `c`.
abbrev ab : List ℕ
ab = 97 ∷ 98 ∷ []

abbrev c : List ℕ
c = 99 ∷ []

abbrev root_node : Vnode
root_node = record { name = slash ∷ []; size = pos 0; ops = none; internal = children (2 ∷ []) }

-- A regular file of 100 bytes.
abbrev file_node : Vnode
file_node = record {
  name = ab;
  size = pos 100;
  ops = some (record { read = 7; write = 0; ioctl = 0; vma_fault = 0 });
  internal = raw 5;
}

abbrev new_node : Vnode
new_node = record { name = c; size = pos 0; ops = none; internal = children [] }

abbrev vfs : Vfs
vfs = record {
  node = λ n. if n == 1 then root_node else if n == 2 then file_node else new_node;
  root = some 1;
}

ab-IsName : IsName ab
ab-IsName = (omega arith, omega arith, (omega arith, (omega arith, tt)))

c-IsName : IsName c
c-IsName = (omega arith, omega arith, (omega arith, tt))

-- The root has `ab` and the directory `c`, which has `ab` too.
abbrev top_node : Vnode
top_node = record { name = slash ∷ []; size = pos 0; ops = none; internal = children (2 ∷ 3 ∷ []) }

abbrev directory_node : Vnode
directory_node = record { name = c; size = pos 0; ops = none; internal = children (2 ∷ []) }

abbrev nested : Vfs
nested = record {
  node = λ n. if n == 1 then top_node else if n == 2 then file_node else directory_node;
  root = some 1;
}

-- `/c/ab`.
vfs_find_vnode_example :
    (vfs_find_vnode nested (slash ∷ join (c ∷ ab ∷ [])) ≡ done (some 2))
    × (vfs_find_vnode nested (slash ∷ (join (c ∷ ab ∷ []) ++ slash ∷ [])) ≡ done (some 2))
vfs_find_vnode_example =
    vfs_find_vnode_lem nested 1 c (ab ∷ []) (some 2) refl (c-IsName, (ab-IsName, tt)) (omega arith)
      (inr (
        inr (
            inr (
              2 ∷ 3 ∷ [],
              refl,
              ((λ e. omega (arith, ap length e)), ((λ e. omega (arith, ap length e)), tt)),
            )),
        (
          3,
          (2 ∷ 3 ∷ [], refl, inr ((λ e. omega (arith, ap length e)), inl (refl, refl))),
          (2, (2 ∷ [], refl, inl (refl, refl)), refl),
        ),
      ))

mount_fs_example :
    (v' : Vfs) × (mount_fs (some (slash ∷ c)) (some 3) vfs ≡ done (pos 0, v'))
    × (vfs_find_vnode v' (slash ∷ c) ≡ done (some 3))
mount_fs_example = mount_fs_lem vfs 1 3 (2 ∷ []) c refl refl c-IsName refl (omega arith)

abbrev open_file : File
open_file = record { vnode = 2; offset = 60; refcount = 1; flags = 0 }

-- 60 on from 60, in a file of 100 bytes.
vfs_lseek_example :
    (file' : File) × (vfs_lseek vfs.node open_file (pos 60) seek_cur
      ≡ done (pos (nearest 100 (pos 120)), file'))
    × (file'.offset ≡ nearest 100 (pos 120))
    × (vfs_lseek vfs.node file' (pos 0) seek_cur ≡ done (pos (nearest 100 (pos 120)), file'))
unfolding ◌+ℤ◌
vfs_lseek_example =
    vfs_lseek_lem vfs.node open_file (pos 60) seek_cur 100 (pos 120) refl (omega arith)
      (omega arith) (omega arith) (omega arith, omega arith) (omega arith)

-- One file is open, at descriptor 1.
abbrev state : FdState
state = record {
  table = some open_file ∷ none ∷ [];
  fds = none ∷ some 0 ∷ [];
  memory = true ∷ true ∷ [];
  vfs = vfs;
}

state-IsValid : IsValid state
state-IsValid = record {
  backed = λ j i h. backed j i h;
  alone = λ j k i h h'. alone j k i h h';
  some_files = omega arith;
  some_fds = omega arith;
}
  where
    backed :
        (j i : ℕ)
        → slot state.fds j ≡ some i
        → (f : File) × (slot state.table i ≡ some f) × (f.refcount ≡ 1)
    backed zero i h = cc h
    backed (suc zero) zero h = (open_file, refl, refl)
    backed (suc zero) (suc i) h = absurd (omega (arith, some-injective _ _ h))
    backed (suc (suc j)) i h = cc h

    alone : (j k i : ℕ) → slot state.fds j ≡ some i → slot state.fds k ≡ some i → j ≡ k
    alone zero k i h h' = cc h
    alone (suc zero) zero i h h' = cc h'
    alone (suc zero) (suc zero) i h h' = refl
    alone (suc zero) (suc (suc k)) i h h' = cc h'
    alone (suc (suc j)) k i h h' = cc h

finds_file : vfs_find_vnode vfs (slash ∷ ab) ≡ done (some 2)
unfolding vfs_find_vnode strip_leading strip_trailing direct_child find_child same_text
finds_file = refl

process_fd_open_example :
    ((¬ Granting 4 state.memory)
      × (s' : FdState) × (process_fd_open (slash ∷ ab) 2 state ≡ done (negsuc 0, s'))
      × Refused state 2 2 s')
    ⊎ ((fd i : ℕ) × (s' : FdState) × (process_fd_open (slash ∷ ab) 2 state ≡ done (pos fd, s'))
        × Opened state (fresh_file 2 2) fd i s')
process_fd_open_example = process_fd_open_lem (slash ∷ ab) 2 2 state state-IsValid finds_file

-- The next file goes to place 1 of the table, its descriptor is 0.
abbrev opened : FdState
opened = record {
  table = some open_file ∷ some (fresh_file 2 2) ∷ [];
  fds = some 1 ∷ some 0 ∷ [];
  memory = [];
  vfs = vfs;
}

opens : process_fd_open (slash ∷ ab) 2 state ≡ done (pos 0, opened)
unfolding process_fd_open of_open fd_insert insert_slot first_free vfs_open vfs_find_vnode
    strip_leading strip_trailing direct_child find_child same_text
opens = refl

process_fd_close-process_fd_open_example :
    (s2 : FdState) × (process_fd_close (pos 0) opened ≡ done (pos 0, s2))
    × Restored state s2
    × (s2.vfs ≡ opened_vfs state.vfs 2 2)
process_fd_close-process_fd_open_example =
    process_fd_close-process_fd_open (slash ∷ ab) 2 2 0 state opened state-IsValid finds_file opens
