-- ===== src/Machine/Start.antt =====
-- The constructor of code/machine/machine.cc.
use nachos_lab.Base.{
  ℕ, zero, suc, ◌+◌, ◌^◌, ◌<◌, ◌≡◌, refl, ap, false, List, arith, none, length, ok, All,
  div_round_up, ltb, lt→ltb, if◌then◌else◌, Option,
}
use nachos_lab.Base.Int.{ℤ}
use nachos_lab.BitMap.Valid.{is_set}
use nachos_lab.BitMap.Count.{init-clear}
use nachos_lab.Machine.{
  Machine, init, cleared_registers, unmapped_entries, find_entry, num_phys_pages, memory_size,
}
use nachos_lab.Machine.Paging.{IsMachine}

length-unmapped_entries : (n i : ℕ) → length (unmapped_entries n i) ≡ n
unfolding unmapped_entries
length-unmapped_entries zero i = refl
length-unmapped_entries (suc n) i = ap suc (length-unmapped_entries n (i + 1))

find_entry-unmapped_entries :
    (n i j : ℕ) (pid : ℤ) (vpn : ℕ) → find_entry (unmapped_entries n i) j pid vpn ≡ none
unfolding find_entry unmapped_entries
find_entry-unmapped_entries zero i j pid vpn = refl
find_entry-unmapped_entries (suc n) i j pid vpn =
    rw (find_entry-unmapped_entries n (i + 1) (j + 1) pid vpn) (ground arith)

-- A new machine is well formed, no page of any thread is mapped, no frame is in use, and the memory
-- is zero.
pub init-IsMachine :
    (raw : List ℕ) (memory : ℕ → ℕ) (swap : ℤ → Option (List ℕ)) (pid : ℤ)
    → length raw ≡ div_round_up num_phys_pages 32
    → All (λ w. w < 2 ^ 32) raw
    → (m : Machine) × (init raw memory swap pid ≡ ok m)
      × IsMachine m
      × ((thread : ℤ) (vpn : ℕ) → find_entry m.page_table 0 thread vpn ≡ none)
      × ((k : ℕ) → k < num_phys_pages → is_set m.memory_map k ≡ false)
      × ((a : ℕ) → a < 4096 → m.main_memory a ≡ 0)
unfolding init cleared_registers
init-IsMachine raw memory swap pid long words =
    let (b, made, valid, bits, clear) = init-clear num_phys_pages raw long words in
    (
      record {
        registers = cleared_registers 40;
        main_memory = λ a. if ltb a memory_size then 0 else memory a;
        page_table = unmapped_entries num_phys_pages 0;
        memory_map = b;
        swap = swap;
        pid = pid;
      },
      rw made refl,
      record {
        registers = refl;
        loading = omega arith;
        table = length-unmapped_entries 32 0;
        valid = valid;
        frames = bits;
      },
      λ thread vpn. find_entry-unmapped_entries 32 0 0 thread vpn,
      clear,
      λ a h. rw (lt→ltb a 4096 h) refl,
    )
