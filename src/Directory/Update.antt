-- ===== src/Directory/Update.antt =====
-- Add and Remove of code/filesys/directory.cc against the dictionary that Find shows.
use nachos_lab.Base.{
  ℕ, suc, ◌≡◌, ◌≢◌, refl, ◌∙◌, sym, ap, Bool, true, false, not, ◌||◌, List, [], ◌∷◌, arith,
  if◌then◌else◌, Bool-cases, inl, inr, none, some, length, ◌⊎◌,
}
use nachos_lab.Base.Int.{ℤ}
use nachos_lab.Directory.Names.{strncmp_eq, strncmp_eq_iff, strncpy, key-strncpy}
use nachos_lab.Directory.{
  DirectoryEntry, Directory, file_name_max_len, matches, filled, add_loop, add,
}
use nachos_lab.Directory.Lookup.{lookup, find_index_from-Found}

-- Do two names agree in the first nine characters?
abbrev pub same_name : List ℕ → List ℕ → Bool
same_name = strncmp_eq file_name_max_len

-- No two entries in use have the same name.
abbrev pub IsUnique : List DirectoryEntry → Type 0
IsUnique [] = Unit {0}
IsUnique (e ∷ es) = (e.in_use ≡ true → lookup es e.name ≡ none) × IsUnique es

pub same_name_trans :
    (a b c : List ℕ) → same_name a b ≡ true → same_name b c ≡ true → same_name a c ≡ true
same_name_trans a b c h k =
    (strncmp_eq_iff 9 a c).1 ((strncmp_eq_iff 9 a b).0 h ∙ (strncmp_eq_iff 9 b c).0 k)

pub same_name_sym : (a b : List ℕ) → same_name a b ≡ true → same_name b a ≡ true
same_name_sym a b h = (strncmp_eq_iff 9 b a).1 (sym ((strncmp_eq_iff 9 a b).0 h))

-- A lookup sees the key of the name only.
pub lookup-same :
    (es : List DirectoryEntry) (a b : List ℕ) → same_name a b ≡ true → lookup es a ≡ lookup es b
unfolding lookup
lookup-same [] a b h = refl
lookup-same (e ∷ es) a b h = ground (
  arith,
  lookup-same es a b h,
  same_name_trans e.name a b,
  same_name_trans e.name b a,
  same_name_sym a b h,
)

bool_ext : (a b : Bool) → (a ≡ true → b ≡ true) → (b ≡ true → a ≡ true) → a ≡ b
bool_ext true b f g = sym (f refl)
bool_ext false true f g = g refl
bool_ext false false f g = refl

-- The copy in the entry is taken for the name itself.
filled-same :
    (name dest other : List ℕ)
    → same_name (strncpy file_name_max_len name dest) other ≡ same_name name other
filled-same name dest other =
    let copy = strncpy file_name_max_len name dest in
    bool_ext (same_name copy other) (same_name name other)
      (λ h.
        (strncmp_eq_iff 9 name other).1
          (sym (key-strncpy 9 name dest) ∙ (strncmp_eq_iff 9 copy other).0 h))
      (λ h.
        (strncmp_eq_iff 9 copy other).1
          (key-strncpy 9 name dest ∙ (strncmp_eq_iff 9 name other).0 h))

abbrev pub has_room : List DirectoryEntry → Bool
has_room [] = false
has_room (e ∷ es) = not e.in_use || has_room es

-- The table after a successful Add.
pub record Added (es : List DirectoryEntry) (name : List ℕ) (sector : ℤ) (es' : List DirectoryEntry)
    : Type 0 where
  pub looks :
      (other : List ℕ)
      → lookup es' other ≡ (if same_name name other then some sector else lookup es other)
  pub unique : IsUnique es → IsUnique es'
  pub size : length es' ≡ length es

absent_tail :
    (e : DirectoryEntry) (es : List DirectoryEntry) (name : List ℕ)
    → lookup (e ∷ es) name ≡ none
    → (matches e name ≡ false) × (lookup es name ≡ none)
unfolding lookup
absent_tail e es name h = ground arith

filled-Added :
    (e : DirectoryEntry) (es : List DirectoryEntry) (name : List ℕ) (sector : ℤ)
    → e.in_use ≡ false
    → lookup es name ≡ none
    → Added (e ∷ es) name sector (filled e name sector ∷ es)
unfolding lookup filled
filled-Added e es name sector free absent = record {
  looks = λ other. ground (arith, filled-same name e.name other);
  unique = λ u. (
    λ _.
        lookup-same es (strncpy file_name_max_len name e.name) name
          (filled-same name e.name name ∙ (strncmp_eq_iff 9 name name).1 refl)
        ∙ absent,
    u.1,
  );
  size = refl;
}

kept-Added :
    (e : DirectoryEntry) (es es' : List DirectoryEntry) (name : List ℕ) (sector : ℤ)
    → e.in_use ≡ true
    → matches e name ≡ false
    → Added es name sector es'
    → Added (e ∷ es) name sector (e ∷ es')
unfolding lookup
kept-Added e es es' name sector used differ a = record {
  looks = λ other.
      ground (arith, a.looks other, same_name_trans e.name other name, same_name_sym name other);
  unique =
      λ u. (λ h. ground (arith, a.looks e.name, u.0 h, same_name_sym name e.name), a.unique u.1);
  size = ap suc a.size;
}

add_loop-Added :
    (es : List DirectoryEntry) (name : List ℕ) (sector : ℤ)
    → has_room es ≡ true
    → lookup es name ≡ none
    → (es' : List DirectoryEntry) × (add_loop es name sector ≡ (true, es'))
      × Added es name sector es'
unfolding add_loop
add_loop-Added [] name sector room absent = cc
add_loop-Added (e ∷ es) name sector room absent =
    let (differ, later) = absent_tail e es name absent in
    elim (Bool-cases e.in_use) [
      | inl used ↦
          let (es', done, a) = add_loop-Added es name sector (rw used at room) later in
          (e ∷ es', rw (used, add_loop) (rw done), kept-Added e es es' name sector used differ a)
      | inr free ↦ (
        filled e name sector ∷ es,
        rw (free, add_loop) refl,
        filled-Added e es name sector free later,
      )
    ]

-- Add of a name that is not there, to a directory with a free entry: Find shows it under the sector,
-- every name that differs in the first nine characters is shown as before, and names stay unique.
pub add-Added :
    (d : Directory) (name : List ℕ) (sector : ℤ)
    → has_room d.table ≡ true
    → lookup d.table name ≡ none
    → (table : List DirectoryEntry) × (add d name sector ≡ (true, record { table = table }))
      × Added d.table name sector table
unfolding add
add-Added d name sector room absent = elim (find_index_from-Found d.table 0 name) [
  | inl (k, e, found, inside, got, look, dropped) ↦ cc
  | inr (missing, look) ↦
      let (table, done, a) = add_loop-Added d.table name sector room absent in
      (table, rw (missing, add) (rw done), a)
]

add_loop-full :
    (es : List DirectoryEntry) (name : List ℕ) (sector : ℤ)
    → has_room es ≡ false
    → add_loop es name sector ≡ (false, es)
unfolding add_loop
add_loop-full [] name sector full = refl
add_loop-full (e ∷ es) name sector full = ground (arith, add_loop-full es name sector)

-- Add answers FALSE, and changes nothing, where the name is there or no entry is free.
pub add-refused :
    (d : Directory) (name : List ℕ) (sector : ℤ)
    → (lookup d.table name ≢ none) ⊎ (has_room d.table ≡ false)
    → add d name sector ≡ (false, d)
unfolding add
add-refused d name sector why = elim (find_index_from-Found d.table 0 name) [
  | inl (k, e, found, inside, got, look, dropped) ↦ rw (found, add) refl
  | inr (missing, look) ↦ elim why [
    | inl there ↦ absurd (there look)
    | inr full ↦ rw (missing, add) (rw (add_loop-full d.table name sector full))
  ]
]
