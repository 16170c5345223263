-- ===== src/Machine/Tlb/Tests.antt =====
-- `tlbflag` from the start: entry 3 is replaced first, and after a hit of entry 2, entry 1.
use nachos_lab.Base.{ℕ, ◌-◌, ◌≤◌, ◌<◌, ◌≡◌, refl, List, [], ◌∷◌, ok}
use nachos_lab.Machine.Tlb.{tlb_size, init_flags, swap_tlb, hit_tlb}
use nachos_lab.Machine.Tlb.Oldest.{IsAge, use_at, init_flags-IsAge, swap_tlb-oldest}

abbrev start : List ℕ
start = 0 ∷ 1 ∷ 2 ∷ 3 ∷ []

tests_swap :
    (init_flags tlb_size 0 ≡ start)
    × (swap_tlb start ≡ ok (3, 1 ∷ 2 ∷ 3 ∷ 0 ∷ []))
    × (hit_tlb (1 ∷ 2 ∷ 3 ∷ 0 ∷ []) 2 ≡ ok (2 ∷ 3 ∷ 0 ∷ 1 ∷ []))
    × (swap_tlb (2 ∷ 3 ∷ 0 ∷ 1 ∷ []) ≡ ok (1, 3 ∷ 0 ∷ 1 ∷ 2 ∷ []))
unfolding init_flags swap_tlb hit_tlb
tests_swap = (refl, refl, refl, refl)

abbrev used : ℕ → ℕ
used i = 3 - i

swap_tlb-oldest_example :
    (victim : ℕ) × (flags' : List ℕ) × (swap_tlb (init_flags tlb_size 0) ≡ ok (victim, flags'))
    × (victim < tlb_size)
    × ((j : ℕ) → j < tlb_size → used victim ≤ used j)
    × IsAge 4 (use_at used victim 4) flags'
swap_tlb-oldest_example = swap_tlb-oldest 3 used (init_flags tlb_size 0) init_flags-IsAge
