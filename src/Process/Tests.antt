-- ===== src/Process/Tests.antt =====
-- Runs of the first stack of a process (`src/scheduler/process.c`).
use reddyos_osdev.Base.{ℕ, ◌≡◌, some, List, [], ◌∷◌, arith}
use reddyos_osdev.Process.{Process, ElfInfo, setup_process_stack}
use reddyos_osdev.Process.Words.{SameAbove}
use reddyos_osdev.Process.Layout.{HasWords, IsFirstStack, setup_process_stack_lem}
use reddyos_osdev.Process.Vector.{found_vector, setup_process_stack_hidden}

abbrev init : Process
init = record { entry_point = 0x401000; rsp = 0xf0000000; pid = 1 }

abbrev init_info : ElfInfo
init_info = record { entry = 0x401000; base = 0; phdr = 0x400040; phnum = 4; phentsize = 56 }

-- "/init".
abbrev init_name : List ℕ
init_name = 47 ∷ 105 ∷ 110 ∷ 105 ∷ 116 ∷ []

init-HasWords : HasWords init init_info
init-HasWords = record {
  rsp = omega arith;
  entry = omega arith;
  phdr = omega arith;
  phnum = omega arith;
  phentsize = omega arith;
}

setup_process_stack_lem_example :
    IsFirstStack init init_name init_info
      (setup_process_stack 5 init init_name init_info (λ _. 0)).0.rsp
      (setup_process_stack 5 init init_name init_info (λ _. 0)).1
    × SameAbove 0xf0000000 (λ _. 0) (setup_process_stack 5 init init_name init_info (λ _. 0)).1
setup_process_stack_lem_example =
    setup_process_stack_lem 5 init init_name init_info (λ _. 0) init-HasWords (omega arith)

setup_process_stack_hidden_example :
    found_vector 6
      (setup_process_stack 5 init init_name init_info (λ _. 0)).1
      (setup_process_stack 5 init init_name init_info (λ _. 0)).0.rsp
    ≡ some []
setup_process_stack_hidden_example =
    setup_process_stack_hidden 6 5 init init_name init_info (λ _. 0) init-HasWords (omega arith)
      (omega arith)
