-- ===== src/Process.antt =====
-- The first stack of a process (`src/scheduler/process.c`, `headers/scheduler/process_stack.h`), in the
-- bytes of its address space, by address. A C string is the list of its bytes without the NUL.
pub mod Words
pub mod Strings
pub mod Layout
pub mod Vector
pub mod Growth
mod Tests
use Prim.Native.Nat.{bit_and, bit_or}
use reddyos_osdev.Base.{
  ℕ, zero, suc, ◌+◌, ◌-◌, ◌*◌, ◌/◌, ◌%◌, ◌^◌, List, [], ◌∷◌, ◌++◌, length, ◌==◌, not, if◌then◌else◌,
}
use reddyos_osdev.Memory.Page.{page_size, u64, sub64, not64}
use reddyos_osdev.CGeneric.Mem.{Bytes, put_byte}

abbrev pub at_null : ℕ
at_null = 0

abbrev pub at_phdr : ℕ
at_phdr = 3

abbrev pub at_phent : ℕ
at_phent = 4

abbrev pub at_phnum : ℕ
at_phnum = 5

abbrev pub at_pagesz : ℕ
at_pagesz = 6

abbrev pub at_entry : ℕ
at_entry = 9

abbrev pub at_random : ℕ
at_random = 25

abbrev pub at_execfn : ℕ
at_execfn = 31

-- "PATH=/bin:/usr/bin:/usr/local/bin".
abbrev env_path : List ℕ
env_path =
    80 ∷ 65 ∷ 84 ∷ 72 ∷ 61 ∷ 47 ∷ 98 ∷ 105 ∷ 110 ∷ 58 ∷ 47 ∷ 117 ∷ 115 ∷ 114 ∷ 47 ∷ 98 ∷ 105 ∷ 110
    ∷ 58 ∷ 47 ∷ 117 ∷ 115 ∷ 114 ∷ 47 ∷ 108 ∷ 111 ∷ 99 ∷ 97 ∷ 108 ∷ 47 ∷ 98 ∷ 105 ∷ 110 ∷ []

-- "HOME=/".
abbrev env_home : List ℕ
env_home = 72 ∷ 79 ∷ 77 ∷ 69 ∷ 61 ∷ 47 ∷ []

-- "PWD=/".
abbrev env_pwd : List ℕ
env_pwd = 80 ∷ 87 ∷ 68 ∷ 61 ∷ 47 ∷ []

-- "TERM=linux".
abbrev env_term : List ℕ
env_term = 84 ∷ 69 ∷ 82 ∷ 77 ∷ 61 ∷ 108 ∷ 105 ∷ 110 ∷ 117 ∷ 120 ∷ []

-- "USER=root".
abbrev env_user : List ℕ
env_user = 85 ∷ 83 ∷ 69 ∷ 82 ∷ 61 ∷ 114 ∷ 111 ∷ 111 ∷ 116 ∷ []

abbrev pub process_default_env : List (List ℕ)
process_default_env = env_path ∷ env_home ∷ env_pwd ∷ env_term ∷ env_user ∷ []

-- `elf_info_t`.
pub record ElfInfo : Type 0 where
  pub entry : ℕ
  pub base : ℕ
  pub phdr : ℕ
  pub phnum : ℕ
  pub phentsize : ℕ

-- The fields of `process_t` that the first stack depends on.
pub record Process : Type 0 where
  pub entry_point : ℕ
  pub rsp : ℕ
  pub pid : ℕ

pub record Stack : Type 0 where
  pub sp : ℕ
  pub byte : Bytes

-- The lowest byte first.
unfoldable pub store : ℕ → ℕ → ℕ → Bytes → Bytes
store zero a v m = m
store (suc n) a v m = store n (a + 1) (v / 256) (put_byte m a (v % 256))

unfoldable pub push_u64 : ℕ → Stack → Stack
push_u64 value s = let sp = sub64 s.sp 8 in record { sp = sp; byte = store 8 sp value s.byte }

unfoldable pub push_auxv : ℕ → ℕ → Stack → Stack
push_auxv type value s = push_u64 type (push_u64 value s)

unfoldable pub copy_in : ℕ → List ℕ → Bytes → Bytes
copy_in a [] m = m
copy_in a (c ∷ text) m = copy_in (a + 1) text (put_byte m a c)

unfoldable pub push_string : List ℕ → Stack → ℕ × Stack
push_string text s =
    let bytes = sub64 s.sp (length text + 1) in
    (bytes, record { sp = bytes; byte = copy_in bytes (text ++ 0 ∷ []) s.byte })

-- The loop of `push_default_env_strings`, and the pointers that it notes.
unfoldable pub push_strings : List (List ℕ) → Stack → List ℕ × Stack
push_strings [] s = ([], s)
push_strings (text ∷ texts) s =
    let (ptr, s1) = push_string text s in let (ptrs, s2) = push_strings texts s1 in (ptr ∷ ptrs, s2)

-- The pointers, the last first.
unfoldable pub push_ptrs : List ℕ → Stack → Stack
push_ptrs [] s = s
push_ptrs (ptr ∷ ptrs) s = push_u64 ptr (push_ptrs ptrs s)

unfoldable pub bit_xor : ℕ → ℕ → ℕ
bit_xor a b = bit_or a b - bit_and a b

unfoldable pub xorshift : ℕ → ℕ
xorshift rnd =
    let rnd1 = bit_xor rnd (u64 (rnd * 2 ^ 13)) in
    let rnd2 = bit_xor rnd1 (rnd1 / 2 ^ 7) in bit_xor rnd2 (u64 (rnd2 * 2 ^ 17))

-- `now` is what `ns_since_boot` gives.
unfoldable pub random_seed : ℕ → Process → ℕ
random_seed now p =
    let seed = bit_xor (bit_xor (bit_xor now p.pid) p.entry_point) p.rsp in
    if seed == 0 then 0xdeadbeefcafebabe else seed

-- The vector, its end first.
unfoldable pub push_vector : Process → ElfInfo → ℕ → ℕ → Stack → Stack
push_vector p info prog random s = push_auxv at_phdr info.phdr (
    push_auxv at_phent info.phentsize (
      push_auxv at_phnum info.phnum (
        push_auxv at_pagesz page_size (
          push_auxv at_entry p.entry_point
            (push_auxv at_random random (push_auxv at_execfn prog (push_auxv at_null 0 s)))))))

-- A word more if the number of pointers to come is odd.
unfoldable pub pad : ℕ → Stack → Stack
pad env_count s = if (4 + env_count) % 2 == 0 then s else push_u64 0 s

-- `argc`, `argv` and `envp`.
unfoldable pub push_arguments : ℕ → List ℕ → Stack → Stack
push_arguments prog envs s = push_u64 1 (push_u64 prog (push_u64 0 (push_ptrs envs (push_u64 0 s))))

-- The stack pointer, rounded down, and the random bytes below it.
unfoldable pub push_random : ℕ → Process → Stack → Stack
push_random now p s =
    let room = push_u64 0 (push_u64 0 (record s { sp = bit_and s.sp (not64 15) })) in
    let rnd = xorshift (random_seed now p) in
    record room { byte = store 8 (room.sp + 8) (xorshift rnd) (store 8 room.sp rnd room.byte) }

unfoldable pub setup_process_stack : ℕ → Process → List ℕ → ElfInfo → Bytes → Process × Bytes
setup_process_stack now p filename info m =
    let (prog, s1) = push_string filename (record { sp = p.rsp; byte = m }) in
    let (envs, s2) = push_strings process_default_env s1 in
    let s3 = push_random now p s2 in
    let s4 = pad (length envs) (push_vector p info prog s3.sp s3) in
    let s5 = push_arguments prog envs s4 in (record p { rsp = s5.sp }, s5.byte)
