-- ===== src/Machine/Registers.antt =====
-- The register file of code/machine/machine.cc and DelayedLoad of mipssim.cc: no access is outside it.
use nachos_lab.Base.{
  ℕ, ◌<◌, ◌≡◌, refl, ◌∙◌, ◌≢◌, arith, List, length, get_or, set, length-set, get_or-set_self,
  get_or-set_ne, ℕ_discrete,
}
use nachos_lab.Base.Yields.{Yields, yields, Yields->>=, fetch-get_or, put-Yields}
use nachos_lab.Machine.{Machine, read_register, write_register, delayed_load, load_reg}
use nachos_lab.Machine.Paging.{IsMachine}

-- Between two instructions, register 0 is 0.
pub record IsRested (m : Machine) : Type 0 where
  pub machine : IsMachine m
  pub zero_register : get_or m.registers 0 0 ≡ 0

pub with_registers :
    {m : Machine} (rs : List ℕ)
    → IsMachine m
    → length rs ≡ 40
    → get_or rs load_reg 0 < 32
    → IsMachine (record m { registers = rs })
with_registers rs i long small = record {
  registers = long;
  loading = small;
  table = i.table;
  valid = i.valid;
  frames = i.frames;
}

-- What a register holds, and for the one that names the target of a load, a general register.
abbrev pub IsTarget : ℕ → ℕ → Type 0
IsTarget num value = (num ≡ load_reg) → value < 32

pub read_register-Yields :
    (m : Machine) (num : ℕ) → IsMachine m → num < 40 → Yields (IsTarget num) (read_register m num)
unfolding read_register
read_register-Yields m num i h =
    rw (fetch-get_or m.registers num (omega (arith, i.registers)) 0) (yields (λ e. rw e i.loading))

set-loading :
    (rs : List ℕ) (num value : ℕ)
    → length rs ≡ 40
    → get_or rs load_reg 0 < 32
    → (num ≡ load_reg → value < 32)
    → get_or (set rs num value) load_reg 0 < 32
set-loading rs num value long small target = elim (ℕ_discrete num load_reg) [
  | yes e ↦ rw e (rw (get_or-set_self rs 37 value 0 (omega arith)) (target e))
  | no ne ↦ rw (get_or-set_ne rs num 37 value 0 ne) small
]

pub write_register-Yields :
    (m : Machine) (num value : ℕ)
    → IsMachine m
    → num < 40
    → IsTarget num value
    → Yields IsMachine (write_register m num value)
unfolding write_register
write_register-Yields m num value i h target =
    Yields->>= {P = λ rs. (length rs ≡ 40) × (get_or rs load_reg 0 < 32)}
      (put-Yields m.registers num (omega (arith, i.registers)) value (
        length-set m.registers num value ∙ i.registers,
        set-loading m.registers num value i.registers i.loading target,
      ))
      (λ rs p. yields (with_registers rs i p.0 p.1))

pub clear_zero-Yields : (m : Machine) → IsMachine m → Yields IsRested (write_register m 0 0)
unfolding write_register
clear_zero-Yields m i =
    Yields->>= {P = λ rs. (length rs ≡ 40) × (get_or rs load_reg 0 < 32) × (get_or rs 0 0 ≡ 0)}
      (put-Yields m.registers 0 (omega (arith, i.registers)) 0 (
        length-set m.registers 0 0 ∙ i.registers,
        set-loading m.registers 0 0 i.registers i.loading (λ e. absurd (omega arith)),
        get_or-set_self m.registers 0 0 0 (omega (arith, i.registers)),
      ))
      (λ rs p. yields (record { machine = with_registers rs i p.0 p.1; zero_register = p.2 }))

-- A write that spares register 0.
pub spare_zero-Yields :
    (m : Machine) (num value : ℕ)
    → IsRested m
    → num < 37
    → num ≢ 0
    → Yields IsRested (write_register m num value)
unfolding write_register
spare_zero-Yields m num value r h ne =
    let i = r.machine in
    Yields->>= {P = λ rs. (length rs ≡ 40) × (get_or rs load_reg 0 < 32) × (get_or rs 0 0 ≡ 0)}
      (put-Yields m.registers num (omega (arith, i.registers)) value (
        length-set m.registers num value ∙ i.registers,
        set-loading m.registers num value i.registers i.loading (λ e. absurd (omega arith)),
        get_or-set_ne m.registers num 0 value 0 ne ∙ r.zero_register,
      ))
      (λ rs p. yields (record { machine = with_registers rs i p.0 p.1; zero_register = p.2 }))

-- A load that is finished, and one for a general register that begins.
pub delayed_load-Yields :
    (m : Machine) (reg value : ℕ)
    → IsMachine m
    → reg < 32
    → Yields IsRested (delayed_load m reg value)
unfolding delayed_load
delayed_load-Yields m reg value i h =
    Yields->>= (read_register-Yields m 37 i (omega arith)) (λ target below.
      Yields->>= (read_register-Yields m 38 i (omega arith)) (λ loaded _.
        Yields->>=
          (write_register-Yields m target loaded i (omega (arith, below refl))
            (λ e. absurd (omega (arith, below refl))))
          (λ m1 i1. Yields->>= (write_register-Yields m1 37 reg i1 (omega arith) (λ e. h)) (λ m2 i2.
            Yields->>=
              (write_register-Yields m2 38 value i2 (omega arith) (λ e. absurd (omega arith)))
              (λ m3 i3. clear_zero-Yields m3 i3)))))
