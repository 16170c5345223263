-- ===== src/Directory/Names.antt =====
-- strncmp and strncpy of the C library, as code/filesys/directory.cc uses them.
use nachos_lab.Base.{
  ℕ, zero, suc, ◌≡◌, ◌↔◌, refl, ap, Bool, true, false, List, [], ◌∷◌, arith, ◌==◌, if◌then◌else◌,
  Bool-cases, inl, inr,
}

-- The first character of a string, and the rest. The end of the list is the NUL.
abbrev pub head_char : List ℕ → ℕ
head_char [] = 0
head_char (c ∷ s) = c

abbrev pub tail_chars : List ℕ → List ℕ
tail_chars [] = []
tail_chars (c ∷ s) = s

-- `strncmp(a, b, n) == 0`
unfoldable pub strncmp_eq : ℕ → List ℕ → List ℕ → Bool
strncmp_eq zero a b = true
strncmp_eq (suc n) a b =
    let rest = strncmp_eq n (tail_chars a) (tail_chars b) in
    if head_char a == head_char b then (if head_char a == 0 then true else rest) else false

-- `strncpy(dest, s, n)`: after the NUL of `s` the rest of the `n` characters are NUL too, and what
-- stands behind them in `dest` stays.
unfoldable pub strncpy : ℕ → List ℕ → List ℕ → List ℕ
strncpy zero s dest = dest
strncpy (suc n) s dest =
    head_char s ∷ strncpy n (if head_char s == 0 then [] else tail_chars s) (tail_chars dest)

-- What `strncmp` of length `n` can see of a string: its first `n` characters, padded.
pub key : ℕ → List ℕ → List ℕ
key zero s = []
key (suc n) s = head_char s ∷ key n (if head_char s == 0 then [] else tail_chars s)

-- `strncmp` compares keys.
pub strncmp_eq_iff : (n : ℕ) (a b : List ℕ) → (strncmp_eq n a b ≡ true) ↔ (key n a ≡ key n b)
unfolding strncmp_eq key
strncmp_eq_iff zero a b = (λ h. refl, λ h. refl)
strncmp_eq_iff (suc n) a b = (
  λ h. ground (arith, (strncmp_eq_iff n (tail_chars a) (tail_chars b)).0),
  λ h. ground (arith, (strncmp_eq_iff n (tail_chars a) (tail_chars b)).1),
)

-- The copy has the key of the original.
pub key-strncpy : (n : ℕ) (s dest : List ℕ) → key n (strncpy n s dest) ≡ key n s
unfolding key strncpy
key-strncpy zero s dest = refl
key-strncpy (suc n) s dest = elim (Bool-cases (head_char s == 0)) [
  | inl e ↦ rw e
  | inr e ↦ rw e (ap (◌∷◌ (head_char s)) (key-strncpy n (tail_chars s) (tail_chars dest)))
]
