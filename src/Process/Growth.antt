-- ===== src/Process/Growth.antt =====
-- The growth of a user stack (`grow_user_stack` of `src/scheduler/process.c`).
use Prim.Native.Nat.{bit_and, bit_or}
use reddyos_osdev.Base.{ℕ, ◌%◌, ◌^◌, ◌≤◌, ◌<◌, ◌≡◌, Bool, true, false, List, ltb, if◌then◌else◌}
use reddyos_osdev.Base.Outcome.{Outcome, done, ◌>>=◌}
use reddyos_osdev.Memory.Page.{page_size, sub64}
use reddyos_osdev.Memory.Store.{virt_to_phys}
use reddyos_osdev.Memory.Pmm.{Entry, Pmm, alloc_page}
use reddyos_osdev.Memory.Pmm.Owned.{Granted}
use reddyos_osdev.Memory.Vmm.{AddressSpace, page_present, page_user, page_writable, vmm_map}
use reddyos_osdev.Memory.Vmm.Mapping.{Mapped}

-- The fields of `process_t` that say where the stack ends.
pub record UserStack : Type 0 where
  pub user_stack_bottom : ℕ
  pub user_stack_bottom_max : ℕ

abbrev pub stack_flags : ℕ
stack_flags = bit_or (bit_or page_user page_writable) page_present

-- The physical addresses of pages that the processor takes.
abbrev pub Admits : ℕ → Type 0
Admits cpu = (phys : ℕ) → phys < 2 ^ 52 → phys % 4096 ≡ 0 → (phys ≤ cpu) × (bit_and phys cpu ≡ phys)

module _ (hhdm : ℕ) (entries : List Entry) where
  unfoldable pub grow_user_stack :
      ℕ → AddressSpace → UserStack → Pmm → Outcome (Bool × UserStack × Pmm)
  grow_user_stack cpu space p s =
      let below = sub64 p.user_stack_bottom page_size in
      if ltb below p.user_stack_bottom_max
      then done (false, p, s)
      else alloc_page hhdm entries s >>= λ r.
          vmm_map hhdm entries cpu space below r.0 stack_flags r.1 >>= λ s'.
          done (true, record p { user_stack_bottom = below }, s')

  -- A page for the stack: what the allocator gives for `s`, mapped below the stack.
  pub record IsGrown (s : Pmm) (xs : List ℕ) (space : AddressSpace) (virt : ℕ) (s' : Pmm)
      : Type 0 where
    pub page : ℕ
    pub between : Pmm
    pub listed : List ℕ
    pub granted : Granted hhdm entries s xs page between listed
    pub listed' : List ℕ
    pub pdpt : ℕ
    pub pd : ℕ
    pub pt : ℕ
    pub mapped :
        Mapped hhdm entries between listed space virt
          (virt_to_phys hhdm page)
          stack_flags
          s'
          listed'
          pdpt
          pd
          pt
