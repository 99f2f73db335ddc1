-- ===== src/Filesystem/File.antt =====
-- The operations on an open file (`src/filesystem/vfs/vfs.c`). A call through a function pointer of
-- the node gives what `call` says, and is a fault if the pointer is NULL.
pub mod Seek
use Prim.Native.Nat.{bit_or}
use reddyos_osdev.Base.{
  ℕ, zero, suc, ◌+◌, ◌-◌, ◌*◌, ◌/◌, ◌%◌, ◌^◌, Bool, true, false, Option, none, some, List, [], ◌∷◌,
  ◌==◌, leb, ltb, not, ◌&&◌, if◌then◌else◌, length,
}
use reddyos_osdev.Base.Int.{ℤ, pos, negsuc, ◌+ℤ◌, ltb_ℤ, pos_part}
use reddyos_osdev.Base.Outcome.{Outcome, done, panic, out_of_fuel, ◌>>=◌}
use reddyos_osdev.Memory.Page.{add64}
use reddyos_osdev.Filesystem.Vfs.{
  Vnode, VnodeOps, File, Internal, nothing, children, raw, is_directory,
}

-- A 64-bit word as a signed number, and back.
unfoldable pub to_signed : ℕ → ℤ
to_signed x = if ltb x (2 ^ 63) then pos x else negsuc (2 ^ 64 - 1 - x)

unfoldable pub to_word : ℤ → ℕ
to_word x = elim x [ pos n ↦ n % 2 ^ 64 | negsuc n ↦ 2 ^ 64 - 1 - n % 2 ^ 64 ]

-- `if (read > 0) file->offset += read`.
unfoldable pub advance : ℤ → File → File
advance r file = elim r [ pos n ↦ record file { offset = add64 file.offset n } | negsuc n ↦ file ]

module _ (node : ℕ → Vnode) (call : ℕ → ℕ → ℕ → ℕ → ℤ) where
  -- A call of the function at `fn`, for the node of the file.
  unfoldable pub call_at : ℕ → File → ℕ → Outcome (ℤ × File)
  call_at fn file size =
      if fn == 0
      then panic
      else let r = call fn file.vnode file.offset size in done (r, advance r file)

  unfoldable pub vfs_read : File → ℕ → ℕ → Outcome (ℤ × File)
  vfs_read file buffer size =
      if buffer == 0
      then done (negsuc 0, file)
      else elim (node file.vnode).ops [ none ↦ panic | some ops ↦ call_at ops.read file size ]

  unfoldable pub vfs_write : File → ℕ → Outcome (ℤ × File)
  vfs_write file size = elim (node file.vnode).ops [
    | none ↦ panic
    | some ops ↦ call_at ops.write file size
  ]

  -- Here the arguments of `call` are the command and its argument.
  unfoldable pub vfs_ioctl : File → ℕ → ℕ → ℤ
  vfs_ioctl file cmd arg = if file.vnode == 0 then negsuc 0 else elim (node file.vnode).ops [
    | none ↦ negsuc 0
    | some ops ↦ if ops.ioctl == 0 then negsuc 0 else call ops.ioctl file.vnode cmd arg
  ]

pub data Whence : Type 0 where
  seek_set seek_cur seek_end invalid : Whence

-- A sum of 64-bit signed numbers, which wraps round.
abbrev pub sum_signed : ℤ → ℤ → ℤ
sum_signed a b = to_signed (to_word (a +ℤ b))

-- The place that a seek asks for; none for a `whence` that the code does not know.
unfoldable pub seek_target : File → ℤ → ℤ → Whence → Option ℤ
seek_target file size offset seek_set = some offset
seek_target file size offset seek_cur = some (sum_signed (to_signed file.offset) offset)
seek_target file size offset seek_end = some (sum_signed size offset)
seek_target file size offset invalid = none

unfoldable pub clamp : ℤ → ℤ → ℤ
clamp size target =
    let low = if ltb_ℤ target (pos 0) then pos 0 else target in if ltb_ℤ size low then size else low

unfoldable pub vfs_lseek : (ℕ → Vnode) → File → ℤ → Whence → Outcome (ℤ × File)
vfs_lseek node file offset whence =
    let size = (node file.vnode).size in
    if file.vnode == 0 then done (negsuc 0, file) else elim (seek_target file size offset whence) [
      | none ↦ panic
      | some target ↦
          let new = clamp size target in done (new, record file { offset = to_word new })
    ]

-- The mode bits of `abi-bits/stat.h`.
pub record Modes : Type 0 where
  pub ifdir : ℕ
  pub ifchr : ℕ
  pub ifreg : ℕ
  pub irusr : ℕ
  pub iwusr : ℕ
  pub ixusr : ℕ
  pub irgrp : ℕ
  pub iwgrp : ℕ
  pub ixgrp : ℕ
  pub iroth : ℕ
  pub iwoth : ℕ
  pub ixoth : ℕ

-- The fields of `struct stat` that `vfs_stat` sets; the others are 0.
pub record Stat : Type 0 where
  pub st_dev : ℕ
  pub st_ino : ℕ
  pub st_mode : ℕ
  pub st_nlink : ℕ
  pub st_size : ℤ
  pub st_rdev : ℕ
  pub st_blksize : ℕ
  pub st_blocks : ℤ

-- `(size + 511) / 512`, which C rounds towards 0.
unfoldable pub blocks_of : ℤ → ℤ
blocks_of size = elim (size +ℤ pos 511) [
  | pos n ↦ pos (n / 512)
  | negsuc n ↦ if (n + 1) / 512 == 0 then pos 0 else negsuc ((n + 1) / 512 - 1)
]

abbrev pub or_all : List ℕ → ℕ
or_all [] = 0
or_all (b ∷ bs) = bit_or b (or_all bs)

abbrev pub has_ioctl : Vnode → Bool
has_ioctl n = elim n.ops [ none ↦ false | some ops ↦ not (ops.ioctl == 0) ]

abbrev pub has_write : Vnode → Bool
has_write n = elim n.ops [ none ↦ false | some ops ↦ not (ops.write == 0) ]

abbrev pub directory_stat : Modes → Stat → ℕ → Stat
directory_stat m base count = record base {
  st_mode = or_all (m.ifdir ∷ m.irusr ∷ m.irgrp ∷ m.iroth ∷ m.ixusr ∷ m.ixgrp ∷ m.ixoth ∷ []);
  st_size = pos count;
  st_nlink = 2;
  st_blocks = pos 0;
}

-- What `vfs_stat` fills in for a node. Counting the children of a directory whose data is something
-- else follows its first word, unless that is 0.
unfoldable pub stat_of : Modes → ℕ → Vnode → Outcome Stat
stat_of m address n =
    let base : Stat = record {
      st_dev = 1;
      st_ino = address;
      st_mode = 0;
      st_nlink = 1;
      st_size = n.size;
      st_rdev = 0;
      st_blksize = 512;
      st_blocks = blocks_of n.size;
    } in
    if is_directory n
    then elim n.internal [
      | nothing ↦ done base
      | raw word ↦ if word == 0 then done (directory_stat m base 0) else panic
      | children ns ↦ done (directory_stat m base (length ns))
    ]
    else if has_ioctl n
    then done (record base {
      st_mode = or_all (m.ifchr ∷ m.irusr ∷ m.iwusr ∷ m.irgrp ∷ m.iwgrp ∷ m.iroth ∷ m.iwoth ∷ []);
      st_rdev = address;
    })
    else done (record base {
      st_mode =
          bit_or (or_all (m.ifreg ∷ m.irusr ∷ m.irgrp ∷ m.iroth ∷ []))
            (if has_write n then or_all (m.iwusr ∷ m.iwgrp ∷ m.iwoth ∷ []) else 0);
    })

-- The node at an address, and what the buffer holds; none is NULL.
unfoldable pub vfs_stat : Modes → ℕ → Vnode → Option Stat → Outcome (ℤ × Option Stat)
vfs_stat m address n none = done (negsuc 0, none)
vfs_stat m address n (some buffer) =
    if address == 0
    then done (negsuc 0, some buffer)
    else stat_of m address n >>= λ stat. done (pos 0, some stat)
