-- ===== src/Mips/Safe.antt =====
-- Machine::OneInstruction of code/machine/mipssim.cc: whatever the instruction is, the simulation stays
-- inside the register file, the page table and the bitmap, and leaves a well-formed machine.
use nachos_lab.Base.{
  ℕ, ◌<◌, Bool, true, false, Option, none, some, arith, Result, ok, ◌==◌, not, ◌&&◌, if◌then◌else◌,
}
use nachos_lab.Base.Yields.{Yields, yields, fails, Yields->>=, Yields-imp, Yields-if, Yields-check}
use nachos_lab.Machine.{
  Machine, ExceptionType, read_register, write_register, load_reg, overflow_exception,
  address_error_exception, load_value_reg,
}
use nachos_lab.Machine.Paging.{IsMachine}
use nachos_lab.Machine.Registers.{IsRested, read_register-Yields, write_register-Yields}
use nachos_lab.Machine.Memory.{IsLocated, IsWritten, read_mem-Yields, write_mem-Yields}
use nachos_lab.Machine.Trap.{raise_exception-Yields}
use Prim.Native.Nat.{bit_and}
use nachos_lab.Mips.{sign_bit}
use nachos_lab.Mips.Decode.{Instruction}
use nachos_lab.Mips.Outcome.{Outcome, next, stop, store, branch, link, word_add}
use nachos_lab.Mips.Compute.{
  raise, add, add_immediate, subtract, of_two, of_immediate, of_amount, move, divide,
  divide_unsigned, multiply, store_hi_lo, sum_overflows, difference_overflows,
}
use nachos_lab.Mips.Transfer.{
  branch_on_two, branch_on, branch_and_link, jump, jump_and_link, jump_register,
  jump_and_link_register, address_of, reading, writing, load_byte, load_half, load_word,
  pending_value, load_part, store_bytes, store_part,
}

-- The registers of an instruction are general registers.
pub record IsGeneral (i : Instruction) : Type 0 where
  pub rs : i.rs < 32
  pub rt : i.rt < 32
  pub rd : i.rd < 32

-- The switch is left with a well-formed machine, and a load for a general register.
abbrev pub IsSettled : Outcome → Type 0
IsSettled (next m pc_after reg value) = IsMachine m × (reg < 32)
IsSettled (stop m) = IsRested m

-- A general register, or one for the program counters and the products.
pub read :
    {num : ℕ} (m : Machine) → IsMachine m → num < 37 → Yields (λ _. Unit) (read_register m num)
unfolding read_register
read {num} m i h = Yields-imp (read_register-Yields m num i (omega arith)) (λ _ _. tt)

pub written :
    {num : ℕ} (m : Machine) (value : ℕ)
    → IsMachine m
    → num < 37
    → Yields IsMachine (write_register m num value)
written {num} m value i h =
    write_register-Yields m num value i (omega arith) (λ e. absurd (omega arith))

pub store-Yields :
    {num : ℕ} (m : Machine) (pc_after value : ℕ)
    → IsMachine m
    → num < 37
    → Yields IsSettled (store m pc_after num value)
unfolding store
store-Yields m pc_after value i h =
    Yields->>= (written m value i h) (λ m1 i1. yields (i1, omega arith))

branch-Yields :
    (m : Machine) (pc_after extra : ℕ) (test : Bool)
    → IsMachine m
    → Yields IsSettled (branch m pc_after extra test)
unfolding branch
branch-Yields m pc_after extra test i =
    Yields->>= (read m i (omega arith)) (λ next_pc _. yields (i, omega arith))

link-Yields : {num : ℕ} (m : Machine) → IsMachine m → num < 32 → Yields IsMachine (link m num)
unfolding link
link-Yields m i h =
    Yields->>= (read m i (omega arith))
      (λ next_pc _. written m (word_add next_pc 4) i (omega arith))

pub raise-Yields :
    (m : Machine) (which : ExceptionType) (addr : ℕ)
    → IsMachine m
    → Yields IsSettled (raise m which addr)
unfolding raise
raise-Yields m which addr i = Yields->>= (raise_exception-Yields m which addr i) (λ m1 r. yields r)

reading-Yields :
    (m : Machine) (addr size : ℕ) (rest : ℕ → Machine → Result Outcome)
    → IsMachine m
    → ((value : ℕ) (m1 : Machine) → IsMachine m1 → Yields IsSettled (rest value m1))
    → Yields IsSettled (reading m addr size rest)
unfolding reading
reading-Yields m addr size rest w go =
    Yields->>= (read_mem-Yields m addr size w) (λ (found, m1) l. answer found m1 l)
  where
    answer :
        (found : Option ℕ) (m1 : Machine)
        → IsLocated (found, m1)
        → Yields IsSettled (elim found [ none ↦ ok (stop m1) | some value ↦ rest value m1 ])
    answer none m1 l = yields l
    answer (some value) m1 l = go value m1 l

writing-Yields :
    (m : Machine) (addr size value pc_after : ℕ)
    → IsMachine m
    → Yields IsSettled (writing m addr size value pc_after)
unfolding writing
writing-Yields m addr size value pc_after w =
    Yields->>= (write_mem-Yields m addr size value w) (λ (done, m1) l. answer done m1 l)
  where
    answer :
        (done : Bool) (m1 : Machine)
        → IsWritten (done, m1)
        → Yields IsSettled (if done then ok (next m1 pc_after 0 0) else ok (stop m1))
    answer true m1 l = yields (l, omega arith)
    answer false m1 l = yields l

pending_value-Yields :
    {num : ℕ} (m : Machine) → IsMachine m → num < 32 → Yields (λ _. Unit) (pending_value m num)
unfolding pending_value
pending_value-Yields {num} m w h =
    Yields->>= (read_register-Yields m load_reg w (omega arith)) (λ reg _.
      Yields-if (reg == num)
        (λ _. Yields-imp (read_register-Yields m load_value_reg w (omega arith)) (λ _ _. tt))
        (λ _. read m w (omega arith)))

-- The operations, on an instruction with general registers.
module _ (m : Machine) (i : Instruction) (pc_after : ℕ) (w : IsMachine m) (g : IsGeneral i) where
  rs_of : Yields (λ _. Unit) (read_register m i.rs)
  rs_of = read m w (omega (arith, g.rs))

  rt_of : Yields (λ _. Unit) (read_register m i.rt)
  rt_of = read m w (omega (arith, g.rt))

  to_rd : (value : ℕ) → Yields IsSettled (store m pc_after i.rd value)
  to_rd value = store-Yields m pc_after value w (omega (arith, g.rd))

  to_rt : (value : ℕ) → Yields IsSettled (store m pc_after i.rt value)
  to_rt value = store-Yields m pc_after value w (omega (arith, g.rt))

  pub add-Yields : Yields IsSettled (add m i pc_after)
  unfolding add
  add-Yields = Yields->>= rs_of (λ rs _. Yields->>= rt_of (λ rt _.
      Yields-if (sum_overflows rs rt rs) (λ _. raise-Yields m overflow_exception 0 w)
        (λ _. to_rd _)))

  pub add_immediate-Yields : Yields IsSettled (add_immediate m i pc_after)
  unfolding add_immediate
  add_immediate-Yields = Yields->>= rs_of (λ rs _.
      Yields-if (sum_overflows rs i.extra i.extra) (λ _. raise-Yields m overflow_exception 0 w)
        (λ _. to_rt _))

  pub subtract-Yields : Yields IsSettled (subtract m i pc_after)
  unfolding subtract
  subtract-Yields = Yields->>= rs_of (λ rs _. Yields->>= rt_of (λ rt _.
      Yields-if (difference_overflows rs rt) (λ _. raise-Yields m overflow_exception 0 w)
        (λ _. to_rd _)))

  pub of_two-Yields : (f : ℕ → ℕ → ℕ) → Yields IsSettled (of_two f m i pc_after)
  unfolding of_two
  of_two-Yields f = Yields->>= rs_of (λ rs _. Yields->>= rt_of (λ rt _. to_rd (f rs rt)))

  pub of_immediate-Yields : (f : ℕ → ℕ → ℕ) → Yields IsSettled (of_immediate f m i pc_after)
  unfolding of_immediate
  of_immediate-Yields f = Yields->>= rs_of (λ rs _. to_rt (f rs i.extra))

  pub of_amount-Yields : (f : ℕ → ℕ → ℕ) → Yields IsSettled (of_amount f m i pc_after)
  unfolding of_amount
  of_amount-Yields f = Yields->>= rt_of (λ rt _. to_rd (f rt i.extra))

  pub move-Yields : (to from : ℕ) → to < 37 → from < 37 → Yields IsSettled (move to from m pc_after)
  unfolding move
  move-Yields to from h l = Yields->>= (read m w l) (λ value _. store-Yields m pc_after value w h)

  store_hi_lo-Yields : (hi lo : ℕ) → Yields IsSettled (store_hi_lo m pc_after hi lo)
  unfolding store_hi_lo
  store_hi_lo-Yields hi lo =
      Yields->>= (written m lo w (omega arith))
        (λ m1 w1. store-Yields m1 pc_after hi w1 (omega arith))

  pub divide-Yields : Yields IsSettled (divide m i pc_after)
  unfolding divide
  divide-Yields = Yields->>= rs_of (λ rs _. Yields->>= rt_of (λ rt _.
      Yields-if (rt == 0) (λ _. store_hi_lo-Yields 0 0)
        (λ _.
          Yields-if ((rs == sign_bit) && (rt == 0xffffffff)) (λ _. fails tt)
            (λ _. store_hi_lo-Yields _ _))))

  pub divide_unsigned-Yields : Yields IsSettled (divide_unsigned m i pc_after)
  unfolding divide_unsigned
  divide_unsigned-Yields = Yields->>= rs_of (λ rs _.
      Yields->>= rt_of
        (λ rt _. Yields-if (rt == 0) (λ _. store_hi_lo-Yields 0 0) (λ _. store_hi_lo-Yields _ _)))

  pub multiply-Yields : (signed : Bool) → Yields IsSettled (multiply signed m i pc_after)
  unfolding multiply
  multiply-Yields signed =
      Yields->>= rs_of (λ rs _. Yields->>= rt_of (λ rt _. store_hi_lo-Yields _ _))

  pub branch_on_two-Yields :
      (test : ℕ → ℕ → Bool) → Yields IsSettled (branch_on_two test m i pc_after)
  unfolding branch_on_two
  branch_on_two-Yields test =
      Yields->>= rs_of
        (λ rs _. Yields->>= rt_of (λ rt _. branch-Yields m pc_after i.extra (test rs rt) w))

  pub branch_on-Yields : (test : ℕ → Bool) → Yields IsSettled (branch_on test m i pc_after)
  unfolding branch_on
  branch_on-Yields test = Yields->>= rs_of (λ rs _. branch-Yields m pc_after i.extra (test rs) w)

  pub jump-Yields : Yields IsSettled (jump m i pc_after)
  unfolding jump
  jump-Yields = yields (w, omega arith)

  pub jump_register-Yields : Yields IsSettled (jump_register m i pc_after)
  unfolding jump_register
  jump_register-Yields = Yields->>= rs_of (λ target _. yields (w, omega arith))

  address_of-Yields : Yields (λ _. Unit) (address_of m i)
  unfolding address_of
  address_of-Yields = Yields->>= rs_of (λ rs _. yields tt)

  pub store_bytes-Yields : (size : ℕ) → Yields IsSettled (store_bytes size m i pc_after)
  unfolding store_bytes
  store_bytes-Yields size =
      Yields->>= address_of-Yields
        (λ addr _. Yields->>= rt_of (λ rt _. writing-Yields m addr size rt pc_after w))

  pub store_part-Yields : (split : ℕ → ℕ → ℕ → ℕ) → Yields IsSettled (store_part split m i pc_after)
  unfolding store_part
  store_part-Yields split = Yields->>= address_of-Yields (λ addr _.
      Yields-check (bit_and addr 3 == 0) (
        reading-Yields m (bit_and addr 0xfffffffc) 4 _ w (λ value m1 w1.
          Yields->>= (read {num = i.rt} m1 w1 (omega (arith, g.rt))) (λ rt _.
            writing-Yields m1 (bit_and addr 0xfffffffc) 4 (split (bit_and addr 3) rt value) pc_after
              w1))))

  pub load_part-Yields : (merge : ℕ → ℕ → ℕ → ℕ) → Yields IsSettled (load_part merge m i pc_after)
  unfolding load_part
  load_part-Yields merge = Yields->>= address_of-Yields (λ addr _.
      Yields-check (bit_and addr 3 == 0) (
        reading-Yields m addr 4 _ w (λ value m1 w1.
          Yields->>= (pending_value-Yields m1 w1 g.rt) (λ old _. yields (w1, g.rt)))))

  pub load_byte-Yields : (signed : Bool) → Yields IsSettled (load_byte signed m i pc_after)
  unfolding load_byte
  load_byte-Yields signed =
      Yields->>= address_of-Yields
        (λ addr _. reading-Yields m addr 1 _ w (λ value m1 w1. yields (w1, g.rt)))

  pub load_half-Yields : (signed : Bool) → Yields IsSettled (load_half signed m i pc_after)
  unfolding load_half
  load_half-Yields signed = Yields->>= address_of-Yields (λ addr _.
      Yields-if (not (bit_and addr 1 == 0)) (λ _. raise-Yields m address_error_exception addr w)
        (λ _. reading-Yields m addr 2 _ w (λ value m1 w1. yields (w1, g.rt))))

  pub load_word-Yields : Yields IsSettled (load_word m i pc_after)
  unfolding load_word
  load_word-Yields = Yields->>= address_of-Yields (λ addr _.
      Yields-if (not (bit_and addr 3 == 0)) (λ _. raise-Yields m address_error_exception addr w)
        (λ _. reading-Yields m addr 4 _ w (λ value m1 w1. yields (w1, g.rt))))

module _ (m : Machine) (i : Instruction) (pc_after : ℕ) (w : IsMachine m) (g : IsGeneral i) where
  pub branch_and_link-Yields :
      (test : ℕ → Bool) → Yields IsSettled (branch_and_link test m i pc_after)
  unfolding branch_and_link
  branch_and_link-Yields test =
      Yields->>= (link-Yields m w (omega arith)) (λ m1 w1. branch_on-Yields m1 i pc_after w1 g test)

  pub jump_and_link-Yields : Yields IsSettled (jump_and_link m i pc_after)
  unfolding jump_and_link
  jump_and_link-Yields =
      Yields->>= (link-Yields m w (omega arith)) (λ m1 w1. jump-Yields m1 i pc_after w1 g)

  pub jump_and_link_register-Yields : Yields IsSettled (jump_and_link_register m i pc_after)
  unfolding jump_and_link_register
  jump_and_link_register-Yields =
      Yields->>= (link-Yields m w g.rd) (λ m1 w1. jump_register-Yields m1 i pc_after w1 g)
