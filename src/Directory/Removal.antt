-- ===== src/Directory/Removal.antt =====
-- Remove of code/filesys/directory.cc against the dictionary that Find shows.
use nachos_lab.Base.{
  ℕ, suc, ◌+◌, ◌≡◌, ◌≢◌, refl, ◌∙◌, ap, true, false, List, [], ◌∷◌, arith, if◌then◌else◌,
  Bool-cases, inl, inr, none, ok, length, put-ok,
}
use nachos_lab.Base.Int.{pos, negsuc}
use nachos_lab.Directory.{DirectoryEntry, Directory, init, find, all_unused, matches, remove}
use nachos_lab.Directory.Lookup.{lookup, drop_first, find_index_from-Found, find-lookup}
use nachos_lab.Directory.Update.{same_name, same_name_trans, same_name_sym, lookup-same, IsUnique}

-- The table after a Remove.
pub record Removed (es : List DirectoryEntry) (name : List ℕ) (es' : List DirectoryEntry)
    : Type 0 where
  pub looks :
      (other : List ℕ) → lookup es' other ≡ (if same_name name other then none else lookup es other)
  pub unique : IsUnique es'
  pub size : length es' ≡ length es

drop_first-Removed :
    (es : List DirectoryEntry) (name : List ℕ) → IsUnique es → Removed es name (drop_first es name)
unfolding lookup drop_first
drop_first-Removed [] name u = record { looks = λ other. ground arith; unique = tt; size = refl }
drop_first-Removed (e ∷ es) name (first, u) =
    let r = drop_first-Removed es name u in
    elim (Bool-cases (matches e name)) [
      | inl m ↦ rw m (record {
        looks = λ other. ground (
          arith,
          m,
          first (ground arith),
          lookup-same es e.name other,
          same_name_trans e.name name other,
          same_name_trans name e.name other,
          same_name_sym e.name name,
        );
        unique = (λ h. ground arith, u);
        size = refl;
      })
      | inr m ↦ rw m (record {
        looks = λ other.
            ground (
              arith,
              m,
              r.looks other,
              same_name_trans e.name other name,
              same_name_sym name other,
            );
        unique = (λ h. ground (arith, m, first h, r.looks e.name), r.unique);
        size = ap suc r.size;
      })
    ]

-- Remove of a name that is there, once: Find no longer shows it, shows every other name as before,
-- and names stay unique.
pub remove-Removed :
    (d : Directory) (name : List ℕ)
    → IsUnique d.table
    → lookup d.table name ≢ none
    → (table : List DirectoryEntry) × (remove d name ≡ ok (true, record { table = table }))
      × Removed d.table name table
unfolding remove
remove-Removed d name u there = elim (find_index_from-Found d.table 0 name) [
  | inl (k, e, found, inside, got, look, dropped) ↦
      let z : 0 + k ≡ k = omega arith in
      (
        drop_first d.table name,
        rw (found ∙ ap pos z, remove)
            (rw (got) (rw (put-ok d.table k (record e { in_use = false }) inside) (rw (dropped)))),
        drop_first-Removed d.table name u,
      )
  | inr (missing, look) ↦ absurd (there look)
]

-- Remove answers FALSE, and changes nothing, where the name is not there.
pub remove-absent :
    (d : Directory) (name : List ℕ) → lookup d.table name ≡ none → remove d name ≡ ok (false, d)
unfolding remove
remove-absent d name absent = elim (find_index_from-Found d.table 0 name) [
  | inl (k, e, found, inside, got, look, dropped) ↦ cc
  | inr (missing, look) ↦ rw (missing, remove) refl
]

-- A new directory shows no name.
pub init-empty : (raw : List DirectoryEntry) (name : List ℕ) → lookup (all_unused raw) name ≡ none
unfolding lookup all_unused
init-empty [] name = refl
init-empty (e ∷ es) name = init-empty es name

pub find-init : (raw : List DirectoryEntry) (name : List ℕ) → find (init raw) name ≡ ok (negsuc 0)
unfolding init
find-init raw name = rw (find-lookup (init raw) name, init-empty raw name) refl
