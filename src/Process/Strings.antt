-- ===== src/Process/Strings.antt =====
-- The strings of a stack (`headers/scheduler/process_stack.h`).
use reddyos_osdev.Base.{
  ℕ, ◌+◌, ◌-◌, ◌^◌, ◌≤◌, ◌<◌, ◌≡◌, ◌∙◌, refl, List, [], ◌∷◌, ◌++◌, length, length-append, arith,
}
use reddyos_osdev.Memory.Page.{sub64}
use reddyos_osdev.CGeneric.Mem.{Bytes, put_byte}
use reddyos_osdev.Process.{Stack, copy_in, push_string, push_strings}
use reddyos_osdev.Process.Words.{put_byte_self, put_byte_other, SameAbove}

-- The bytes from an address up.
abbrev pub BytesAt : Bytes → ℕ → List ℕ → Type 0
BytesAt m a [] = Unit
BytesAt m a (c ∷ text) = (m a ≡ c) × BytesAt m (a + 1) text

-- A string with its NUL.
abbrev pub StringAt : Bytes → ℕ → List ℕ → Type 0
StringAt m a text = BytesAt m a (text ++ 0 ∷ [])

pub BytesAt-same :
    (text : List ℕ) (a low : ℕ) (m m' : Bytes)
    → low ≤ a
    → SameAbove low m m'
    → BytesAt m a text
    → BytesAt m' a text
BytesAt-same [] a low m m' h same held = tt
BytesAt-same (c ∷ text) a low m m' h same held =
    (same a h ∙ held.0, BytesAt-same text (a + 1) low m m' (omega (arith, h)) same held.1)

copy_in_below : (text : List ℕ) (a b : ℕ) (m : Bytes) → b < a → copy_in a text m b ≡ m b
unfolding copy_in
copy_in_below [] a b m h = refl
copy_in_below (c ∷ text) a b m h =
    copy_in_below text (a + 1) b (put_byte m a c) (omega (arith, h))
    ∙ put_byte_other m a c b (λ e. absurd (omega (arith, e, h)))

copy_in_above :
    (text : List ℕ) (a b : ℕ) (m : Bytes) → a + length text ≤ b → copy_in a text m b ≡ m b
unfolding copy_in
copy_in_above [] a b m h = refl
copy_in_above (c ∷ text) a b m h =
    copy_in_above text (a + 1) b (put_byte m a c) (omega (arith, h))
    ∙ put_byte_other m a c b (λ e. absurd (omega (arith, e, h)))

copy_in_lem : (text : List ℕ) (a : ℕ) (m : Bytes) → BytesAt (copy_in a text m) a text
unfolding copy_in
copy_in_lem [] a m = tt
copy_in_lem (c ∷ text) a m = (
  copy_in_below text (a + 1) a (put_byte m a c) (omega arith) ∙ put_byte_self m a c,
  copy_in_lem text (a + 1) (put_byte m a c),
)

-- The stack grew by `n` bytes, and what was on it stays.
pub record Grown (s : Stack) (n : ℕ) (s' : Stack) : Type 0 where
  pub room : s'.sp + n ≡ s.sp
  pub frame : SameAbove s.sp s.byte s'.byte

pub push_string_lem :
    (text : List ℕ) (s : Stack)
    → length text + 1 ≤ s.sp
    → s.sp < 2 ^ 64
    → ((push_string text s).0 ≡ (push_string text s).1.sp)
      × StringAt (push_string text s).1.byte (push_string text s).0 text
      × Grown s (length text + 1) (push_string text s).1
unfolding push_string
push_string_lem text s low high =
    let sp : sub64 s.sp (length text + 1) ≡ s.sp - (length text + 1) = omega (arith, low, high) in
    (
      refl,
      copy_in_lem (text ++ 0 ∷ []) (sub64 s.sp (length text + 1)) s.byte,
      record {
        room = omega (arith, sp, low);
        frame = λ b h.
            copy_in_above (text ++ 0 ∷ []) (sub64 s.sp (length text + 1)) b s.byte
              (omega (arith, sp, h, low, length-append text (0 ∷ [])));
      },
    )

-- The bytes that some strings take.
abbrev pub total : List (List ℕ) → ℕ
total [] = 0
total (text ∷ texts) = length text + 1 + total texts

-- A pointer to each string, in the part of the stack that grew.
abbrev pub StringsAt : Bytes → ℕ → ℕ → List ℕ → List (List ℕ) → Type 0
StringsAt m low high [] [] = Unit
StringsAt m low high [] (text ∷ texts) = ⊥
StringsAt m low high (ptr ∷ ptrs) [] = ⊥
StringsAt m low high (ptr ∷ ptrs) (text ∷ texts) =
    (low ≤ ptr) × (ptr < high) × StringAt m ptr text × StringsAt m low high ptrs texts

pub StringsAt-same :
    (ptrs : List ℕ) (texts : List (List ℕ)) (m m' : Bytes) (low high low' high' : ℕ)
    → low' ≤ low
    → high ≤ high'
    → SameAbove low m m'
    → StringsAt m low high ptrs texts
    → StringsAt m' low' high' ptrs texts
StringsAt-same [] [] m m' low high low' high' h k same held = tt
StringsAt-same [] (text ∷ texts) m m' low high low' high' h k same held = held
StringsAt-same (ptr ∷ ptrs) [] m m' low high low' high' h k same held = held
StringsAt-same (ptr ∷ ptrs) (text ∷ texts) m m' low high low' high' h k same held = (
  omega (arith, h, held.0),
  omega (arith, k, held.1),
  BytesAt-same (text ++ 0 ∷ []) ptr low m m' held.0 same held.2,
  StringsAt-same ptrs texts m m' low high low' high' h k same held.3,
)

pub push_strings_lem :
    (texts : List (List ℕ)) (s : Stack)
    → total texts ≤ s.sp
    → s.sp < 2 ^ 64
    → StringsAt
        (push_strings texts s).1.byte
        (push_strings texts s).1.sp
        s.sp
        (push_strings texts s).0
        texts
      × Grown s (total texts) (push_strings texts s).1
unfolding push_strings
push_strings_lem [] s low high = (tt, record { room = omega arith; frame = λ b h. refl })
push_strings_lem (text ∷ texts) s low high =
    let (at, held, one) = push_string_lem text s (omega (arith, low)) high in
    let s1 = (push_string text s).1 in
    let (more, rest) =
      push_strings_lem texts s1 (omega (arith, low, one.room)) (omega (arith, high, one.room)) in
    let s2 = (push_strings texts s1).1 in
    (
      (
        omega (arith, at, rest.room),
        omega (arith, at, one.room),
        BytesAt-same (text ++ 0 ∷ []) (push_string text s).0 s1.sp s1.byte s2.byte
            (omega (arith, at)) rest.frame held,
        StringsAt-same (push_strings texts s1).0 texts s2.byte s2.byte s2.sp s1.sp s2.sp s.sp
            (omega arith) (omega (arith, one.room)) (λ b h. refl) more,
      ),
      record {
        room = omega (arith, one.room, rest.room);
        frame = λ b h. rest.frame b (omega (arith, h, one.room)) ∙ one.frame b h;
      },
    )
