-- ===== src/Process/Layout.antt =====
-- What the first stack of a process looks like (`setup_process_stack` of `src/scheduler/process.c`).
use Prim.Native.Nat.{bit_and}
use reddyos_osdev.Base.{
  ℕ, suc, ◌+◌, ◌*◌, ◌/◌, ◌%◌, ◌^◌, ◌≤◌, ◌<◌, ◌≡◌, ◌∙◌, refl, ap, List, [], ◌∷◌, ◌++◌, length,
  length-append, ◌==◌, All, All-map, arith, false,
}
use reddyos_osdev.Base.Bits.{bit_and_field}
use reddyos_osdev.Memory.Page.{page_size, not64}
use reddyos_osdev.CGeneric.Mem.{Bytes}
use reddyos_osdev.Process.{
  Process, ElfInfo, Stack, at_null, at_phdr, at_phent, at_phnum, at_pagesz, at_entry, at_random,
  at_execfn, process_default_env, store, push_u64, push_auxv, push_string, push_strings,
  push_vector, pad, push_arguments, push_random, setup_process_stack, random_seed, xorshift,
}
use reddyos_osdev.Process.Words.{
  store_above, Holds, SameAbove, Pushed, Pushed-nothing, push_u64_lem, push_ptrs_lem,
}
use reddyos_osdev.Process.Strings.{
  BytesAt-same, StringAt, StringsAt, StringsAt-same, push_string_lem, push_strings_lem,
}

push_auxv_lem :
    (s : Stack) (xs : List ℕ) (s' : Stack) (type v : ℕ)
    → Pushed s xs s'
    → 16 ≤ s'.sp
    → s.sp < 2 ^ 64
    → type < 2 ^ 64
    → v < 2 ^ 64
    → Pushed s (type ∷ v ∷ xs) (push_auxv type v s')
unfolding push_auxv
push_auxv_lem s xs s' type v p low high small small' =
    let one = push_u64_lem s xs s' v p (omega (arith, low)) high small' in
    push_u64_lem s (v ∷ xs) (push_u64 v s') type one (omega (arith, one.room, p.room, low)) high
      small

-- The vector from its lowest word up.
abbrev pub vector : Process → ElfInfo → ℕ → ℕ → List ℕ
vector p info prog random =
    at_phdr ∷ info.phdr ∷ at_phent ∷ info.phentsize ∷ at_phnum ∷ info.phnum ∷ at_pagesz ∷ page_size
    ∷ at_entry ∷ p.entry_point ∷ at_random ∷ random ∷ at_execfn ∷ prog ∷ at_null ∷ 0 ∷ []

-- The values from the process and its file are words.
pub record HasWords (p : Process) (info : ElfInfo) : Type 0 where
  pub rsp : p.rsp < 2 ^ 64
  pub entry : p.entry_point < 2 ^ 64
  pub phdr : info.phdr < 2 ^ 64
  pub phnum : info.phnum < 2 ^ 16
  pub phentsize : info.phentsize < 2 ^ 16

push_vector_lem :
    (p : Process) (info : ElfInfo) (prog random : ℕ) (s : Stack)
    → HasWords p info
    → 128 ≤ s.sp
    → s.sp < 2 ^ 64
    → random < 2 ^ 64
    → prog < 2 ^ 64
    → Pushed s (vector p info prog random) (push_vector p info prog random s)
unfolding push_vector
push_vector_lem p info prog random s w low high small small' =
    let p1 =
      push_auxv_lem s _ s at_null 0 (Pushed-nothing s) (omega (arith, low)) high (omega arith)
        (omega arith) in
    let p2 =
      push_auxv_lem s _ _ at_execfn prog p1 (omega (arith, p1.room, low)) high (omega arith)
        small' in
    let p3 =
      push_auxv_lem s _ _ at_random random p2 (omega (arith, p2.room, low)) high (omega arith)
        small in
    let p4 =
      push_auxv_lem s _ _ at_entry p.entry_point p3 (omega (arith, p3.room, low)) high (omega arith)
        w.entry in
    let p5 =
      push_auxv_lem s _ _ at_pagesz page_size p4 (omega (arith, p4.room, low)) high (omega arith)
        (omega arith) in
    let p6 =
      push_auxv_lem s _ _ at_phnum info.phnum p5 (omega (arith, p5.room, low)) high (omega arith)
        (omega (arith, w.phnum)) in
    let p7 =
      push_auxv_lem s _ _ at_phent info.phentsize p6 (omega (arith, p6.room, low)) high
        (omega arith) (omega (arith, w.phentsize)) in
    push_auxv_lem s _ _ at_phdr info.phdr p7 (omega (arith, p7.room, low)) high (omega arith) w.phdr

-- The random bytes lie below the strings, on a multiple of 16.
push_random_lem :
    (now : ℕ) (p : Process) (s : Stack)
    → 32 ≤ s.sp
    → s.sp < 2 ^ 64
    → ((push_random now p s).sp + 16 ≡ s.sp / 16 * 16)
      × SameAbove s.sp s.byte (push_random now p s).byte
unfolding push_random push_u64
push_random_lem now p s low high =
    let down : bit_and s.sp (not64 15) ≡ s.sp / 16 * 16 =
      omega (arith, bit_and_field 4 60 s.sp, high) in
    let s0 : Stack = record s { sp = bit_and s.sp (not64 15) } in
    let room = push_u64 0 (push_u64 0 s0) in
    let one =
      push_u64_lem s0 [] s0 0 (Pushed-nothing s0) (omega (arith, down, low))
        (omega (arith, down, high)) (omega arith) in
    let two =
      push_u64_lem s0 (0 ∷ []) (push_u64 0 s0) 0 one (omega (arith, one.room, down, low))
        (omega (arith, down, high)) (omega arith) in
    let rnd = xorshift (random_seed now p) in
    (
      omega (arith, two.room, down),
      λ b h.
          store_above 8 (room.sp + 8) (xorshift rnd) b (store 8 room.sp rnd room.byte)
            (omega (arith, two.room, down, h))
          ∙ store_above 8 room.sp rnd b room.byte (omega (arith, two.room, down, h))
          ∙ two.frame b (omega (arith, down, h)),
    )

pub StringsAt-length :
    (m : Bytes) (low high : ℕ) (ptrs : List ℕ) (texts : List (List ℕ))
    → StringsAt m low high ptrs texts
    → length ptrs ≡ length texts
StringsAt-length m low high [] [] h = refl
StringsAt-length m low high [] (text ∷ texts) h = absurd h
StringsAt-length m low high (ptr ∷ ptrs) [] h = absurd h
StringsAt-length m low high (ptr ∷ ptrs) (text ∷ texts) h =
    ap suc (StringsAt-length m low high ptrs texts h.3)

pub StringsAt-bounds :
    (m : Bytes) (low high : ℕ) (ptrs : List ℕ) (texts : List (List ℕ))
    → StringsAt m low high ptrs texts
    → All (λ v. (low ≤ v) × (v < high)) ptrs
StringsAt-bounds m low high [] texts h = tt
StringsAt-bounds m low high (ptr ∷ ptrs) [] h = absurd h
StringsAt-bounds m low high (ptr ∷ ptrs) (text ∷ texts) h =
    ((h.0, h.1), StringsAt-bounds m low high ptrs texts h.3)

-- The words of the stack from `rsp` up: `argc`, `argv`, `envp`, a word of 0, the vector; behind them the
-- random bytes, and the strings that `argv` and `envp` point to.
pub record IsFirstStack (p : Process) (filename : List ℕ) (info : ElfInfo) (rsp : ℕ) (m : Bytes)
    : Type 0 where
  pub prog : ℕ
  pub random : ℕ
  pub envs : List ℕ
  pub words : Holds m rsp (1 ∷ prog ∷ 0 ∷ envs ++ 0 ∷ 0 ∷ vector p info prog random)
  pub aligned : rsp % 16 ≡ 0
  pub behind : rsp + 208 ≡ random
  pub name : (random + 16 ≤ prog) × (prog < p.rsp) × StringAt m prog filename
  pub environment : StringsAt m (random + 16) p.rsp envs process_default_env

push_arguments_lem :
    (s : Stack) (xs : List ℕ) (s' : Stack) (prog : ℕ) (envs : List ℕ)
    → Pushed s xs s'
    → length envs ≡ 5
    → 128 ≤ s'.sp
    → s.sp < 2 ^ 64
    → prog < 2 ^ 64
    → All (λ v. v < 2 ^ 64) envs
    → Pushed s (1 ∷ prog ∷ 0 ∷ envs ++ 0 ∷ 0 ∷ xs) (push_arguments prog envs (pad (length envs) s'))
unfolding push_arguments pad
push_arguments_lem s xs s' prog envs p five low high small all =
    let odd : ((4 + length envs) % 2 == 0) ≡ false = ground (arith, five) in
    let p1 = push_u64_lem s xs s' 0 p (omega (arith, low)) high (omega arith) in
    let p2 = push_u64_lem s _ _ 0 p1 (omega (arith, p1.room, p.room, low)) high (omega arith) in
    let p3 = push_ptrs_lem envs s _ _ p2 (omega (arith, five, p2.room, p.room, low)) high all in
    let size = length-append envs (0 ∷ 0 ∷ xs) in
    let p4 =
      push_u64_lem s _ _ 0 p3 (omega (arith, five, size, p3.room, p.room, low)) high
        (omega arith) in
    let p5 =
      push_u64_lem s _ _ prog p4 (omega (arith, five, size, p4.room, p.room, low)) high small in
    let p6 =
      push_u64_lem s _ _ 1 p5 (omega (arith, five, size, p5.room, p.room, low)) high
        (omega arith) in
    rw odd p6

-- With room for the name and 1024 bytes more, the first stack of a process has its parts in order,
-- 16-byte aligned, and what was above it is not touched.
pub setup_process_stack_lem :
    (now : ℕ) (p : Process) (filename : List ℕ) (info : ElfInfo) (m : Bytes)
    → HasWords p info
    → length filename + 1024 ≤ p.rsp
    → IsFirstStack p filename info
        (setup_process_stack now p filename info m).0.rsp
        (setup_process_stack now p filename info m).1
      × SameAbove p.rsp m (setup_process_stack now p filename info m).1
unfolding setup_process_stack
setup_process_stack_lem now p filename info m w low =
    let s0 : Stack = record { sp = p.rsp; byte = m } in
    let r1 = push_string filename s0 in
    let (at, named, one) = push_string_lem filename s0 (omega (arith, low)) w.rsp in
    let r2 = push_strings process_default_env r1.1 in
    let (env, two) =
      push_strings_lem process_default_env r1.1 (omega (arith, one.room, low))
        (omega (arith, one.room, w.rsp)) in
    let s3 = push_random now p r2.1 in
    let (below, three) =
      push_random_lem now p r2.1 (omega (arith, one.room, two.room, low))
        (omega (arith, one.room, two.room, w.rsp)) in
    let five = StringsAt-length r2.1.byte r2.1.sp r1.1.sp r2.0 process_default_env env in
    let p4 =
      push_vector_lem p info r1.0 s3.sp s3 w (omega (arith, one.room, two.room, below, low))
        (omega (arith, one.room, two.room, below, w.rsp))
        (omega (arith, one.room, two.room, below, w.rsp)) (omega (arith, at, one.room, w.rsp)) in
    let p5 =
      push_arguments_lem s3 _ _ r1.0 r2.0 p4 five
        (omega (arith, p4.room, one.room, two.room, below, low))
        (omega (arith, one.room, two.room, below, w.rsp)) (omega (arith, at, one.room, w.rsp))
        (All-map _ _ r2.0 (λ v h. omega (arith, h.1, one.room, w.rsp))
          (StringsAt-bounds r2.1.byte r2.1.sp r1.1.sp r2.0 process_default_env env)) in
    let s5 = push_arguments r1.0 r2.0 (pad (length r2.0) (push_vector p info r1.0 s3.sp s3)) in
    let size = length-append r2.0 (0 ∷ 0 ∷ vector p info r1.0 s3.sp) in
    let keeps : SameAbove r2.1.sp r2.1.byte s5.byte =
      λ b h. p5.frame b (omega (arith, h, below)) ∙ three b h in
    (
      record {
        prog = r1.0;
        random = s3.sp;
        envs = r2.0;
        words = p5.held;
        aligned = omega (arith, p5.room, size, five, below);
        behind = omega (arith, p5.room, size, five);
        name = (
          omega (arith, at, two.room, below),
          omega (arith, at, one.room),
          BytesAt-same (filename ++ 0 ∷ []) r1.0 r1.1.sp r1.1.byte s5.byte (omega (arith, at))
              (λ b h. keeps b (omega (arith, h, two.room)) ∙ two.frame b h) named,
        );
        environment =
            StringsAt-same r2.0 process_default_env r2.1.byte s5.byte r2.1.sp r1.1.sp (s3.sp + 16)
              p.rsp (omega (arith, below)) (omega (arith, one.room)) keeps env;
      },
      λ b h.
          keeps b (omega (arith, h, one.room, two.room))
          ∙ two.frame b (omega (arith, h, one.room))
          ∙ one.frame b h,
    )
