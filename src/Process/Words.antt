-- ===== src/Process/Words.antt =====
-- The words of a stack (`headers/scheduler/process_stack.h`).
use reddyos_osdev.Base.{
  ℕ, zero, suc, ◌+◌, ◌-◌, ◌*◌, ◌/◌, ◌%◌, ◌^◌, ◌≤◌, ◌<◌, ◌≡◌, ◌≢◌, ◌∙◌, refl, subst, List, [], ◌∷◌,
  ◌++◌, length, length-append, ◌==◌, All, arith, false, true,
}
use native.Mathlib.Nat.{pow-suc}
use reddyos_osdev.Memory.Page.{sub64}
use reddyos_osdev.CGeneric.Mem.{Bytes, put_byte}
use reddyos_osdev.Process.{Stack, store, push_u64, push_ptrs}

unfoldable pub load : ℕ → ℕ → Bytes → ℕ
load zero a m = 0
load (suc n) a m = m a + 256 * load n (a + 1) m

pub put_byte_self : (m : Bytes) (a v : ℕ) → put_byte m a v a ≡ v
unfolding put_byte
put_byte_self m a v = let same : (a == a) ≡ true = ground arith in rw same refl

pub put_byte_other : (m : Bytes) (a v b : ℕ) → b ≢ a → put_byte m a v b ≡ m b
unfolding put_byte
put_byte_other m a v b ne = let other : (b == a) ≡ false = ground (arith, ne) in rw other refl

pub store_below : (n a v b : ℕ) (m : Bytes) → b < a → store n a v m b ≡ m b
unfolding store
store_below zero a v b m h = refl
store_below (suc n) a v b m h =
    store_below n (a + 1) (v / 256) b (put_byte m a (v % 256)) (omega (arith, h))
    ∙ put_byte_other m a (v % 256) b (λ e. absurd (omega (arith, e, h)))

pub store_above : (n a v b : ℕ) (m : Bytes) → a + n ≤ b → store n a v m b ≡ m b
unfolding store
store_above zero a v b m h = refl
store_above (suc n) a v b m h =
    store_above n (a + 1) (v / 256) b (put_byte m a (v % 256)) (omega (arith, h))
    ∙ put_byte_other m a (v % 256) b (λ e. absurd (omega (arith, e, h)))

pub load-store : (n a v : ℕ) (m : Bytes) → v < 256 ^ n → load n a (store n a v m) ≡ v
unfolding store load
load-store zero a v m h = omega (arith, h)
load-store (suc n) a v m h =
    let low : store n (a + 1) (v / 256) (put_byte m a (v % 256)) a ≡ v % 256 =
      store_below n (a + 1) (v / 256) a (put_byte m a (v % 256)) (omega arith)
      ∙ put_byte_self m a (v % 256) in
    let high =
      load-store n (a + 1) (v / 256) (put_byte m a (v % 256)) (omega (arith, h, pow-suc 256 n)) in
    omega (arith, low, high)

-- The words from an address up.
abbrev pub Holds : Bytes → ℕ → List ℕ → Type 0
Holds m a [] = Unit
Holds m a (x ∷ xs) = (load 8 a m ≡ x) × Holds m (a + 8) xs

-- Two memories agree from an address up.
abbrev pub SameAbove : ℕ → Bytes → Bytes → Type 0
SameAbove a m m' = (b : ℕ) → a ≤ b → m' b ≡ m b

pub load-same :
    (n a low : ℕ) (m m' : Bytes) → low ≤ a → SameAbove low m m' → load n a m' ≡ load n a m
unfolding load
load-same zero a low m m' h same = refl
load-same (suc n) a low m m' h same =
    omega (arith, same a h, load-same n (a + 1) low m m' (omega (arith, h)) same)

pub Holds-same :
    (xs : List ℕ) (a low : ℕ) (m m' : Bytes)
    → low ≤ a
    → SameAbove low m m'
    → Holds m a xs
    → Holds m' a xs
Holds-same [] a low m m' h same held = tt
Holds-same (x ∷ xs) a low m m' h same held = (
  load-same 8 a low m m' h same ∙ held.0,
  Holds-same xs (a + 8) low m m' (omega (arith, h)) same held.1,
)

-- The words `xs` lie on the stack `s'`, on top of what `s` has.
pub record Pushed (s : Stack) (xs : List ℕ) (s' : Stack) : Type 0 where
  pub room : s'.sp + 8 * length xs ≡ s.sp
  pub held : Holds s'.byte s'.sp xs
  pub frame : SameAbove s.sp s.byte s'.byte

pub push_u64_lem :
    (s : Stack) (xs : List ℕ) (s' : Stack) (v : ℕ)
    → Pushed s xs s'
    → 8 ≤ s'.sp
    → s.sp < 2 ^ 64
    → v < 2 ^ 64
    → Pushed s (v ∷ xs) (push_u64 v s')
unfolding push_u64
push_u64_lem s xs s' v p low high small =
    let sp : sub64 s'.sp 8 ≡ s'.sp - 8 = omega (arith, p.room, low, high) in
    let above : SameAbove s'.sp s'.byte (push_u64 v s').byte =
      λ b h. store_above 8 (sub64 s'.sp 8) v b s'.byte (omega (arith, sp, low, h)) in
    record {
      room = omega (arith, p.room, sp, low);
      held = (
        load-store 8 (sub64 s'.sp 8) v s'.byte (omega (arith, small)),
        subst (λ a. Holds (push_u64 v s').byte a xs) (omega (arith, sp, low))
            (Holds-same xs s'.sp s'.sp s'.byte (push_u64 v s').byte (omega arith) above p.held),
      );
      frame = λ b h. above b (omega (arith, h, p.room)) ∙ p.frame b h;
    }

pub Pushed-nothing : (s : Stack) → Pushed s [] s
Pushed-nothing s = record { room = omega arith; held = tt; frame = λ b h. refl }

pub push_ptrs_lem :
    (ptrs : List ℕ) (s : Stack) (xs : List ℕ) (s' : Stack)
    → Pushed s xs s'
    → 8 * length ptrs ≤ s'.sp
    → s.sp < 2 ^ 64
    → All (λ v. v < 2 ^ 64) ptrs
    → Pushed s (ptrs ++ xs) (push_ptrs ptrs s')
unfolding push_ptrs
push_ptrs_lem [] s xs s' p room high small = p
push_ptrs_lem (v ∷ ptrs) s xs s' p room high small =
    let below = push_ptrs_lem ptrs s xs s' p (omega (arith, room)) high small.1 in
    push_u64_lem s (ptrs ++ xs) (push_ptrs ptrs s') v below
      (omega (arith, below.room, p.room, room, length-append ptrs xs)) high small.0
