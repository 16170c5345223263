-- ===== src/Directory/Tests.antt =====
-- Runs of the directory, and its theorems at a directory of three entries.
use nachos_lab.Base.{◌≡◌, ◌≢◌, refl, true, false, List, [], ◌∷◌, ok, none, arith, inr}
use nachos_lab.Base.Int.{pos, negsuc}
use nachos_lab.Directory.{DirectoryEntry, Directory, all_unused, find, add, remove}
use nachos_lab.Directory.Names.{strncmp_eq}
use nachos_lab.Directory.Lookup.{lookup, or_minus_one, find-lookup}
use nachos_lab.Directory.Update.{IsUnique, Added, add-Added, add-refused}
use nachos_lab.Directory.Removal.{Removed, remove-Removed, remove-absent, init-empty}

-- An entry that was never used.
abbrev blank : DirectoryEntry
blank = record { in_use = false; sector = pos 0; name = []; is_file = false }

-- The entry for "ab" at sector 9.
abbrev ab : DirectoryEntry
ab = record { in_use = true; sector = pos 9; name = 97 ∷ 98 ∷ []; is_file = false }

abbrev root : Directory
root = record { table = blank ∷ ab ∷ blank ∷ [] }

abbrev full : Directory
full = record { table = ab ∷ [] }

tests_find :
    (find root (97 ∷ 98 ∷ []) ≡ ok (pos 9))
    × (find root (97 ∷ []) ≡ ok (negsuc 0))
    × ((remove root (97 ∷ 98 ∷ []))
        ≡ ok (true, record { table = blank ∷ record ab { in_use = false } ∷ blank ∷ [] }))
unfolding find remove strncmp_eq
tests_find = (refl, refl, refl)

-- Ten characters and eleven that agree in the first nine are one name.
tests_long :
    strncmp_eq 9
      (1 ∷ 2 ∷ 3 ∷ 4 ∷ 5 ∷ 6 ∷ 7 ∷ 8 ∷ 9 ∷ 10 ∷ [])
      (1 ∷ 2 ∷ 3 ∷ 4 ∷ 5 ∷ 6 ∷ 7 ∷ 8 ∷ 9 ∷ [])
    ≡ true
unfolding strncmp_eq
tests_long = refl

no_c : lookup root.table (99 ∷ []) ≡ none
unfolding lookup strncmp_eq
no_c = refl

some_ab : lookup root.table (97 ∷ 98 ∷ []) ≢ none
unfolding lookup strncmp_eq
some_ab e = cc

root-IsUnique : IsUnique root.table
unfolding lookup
root-IsUnique = (λ h. ground arith, (λ h. refl, (λ h. ground arith, tt)))

tests_find-lookup : find root (97 ∷ []) ≡ ok (or_minus_one (lookup root.table (97 ∷ [])))
tests_find-lookup = find-lookup root (97 ∷ [])

tests_init_empty : lookup (all_unused (ab ∷ blank ∷ [])) (97 ∷ 98 ∷ []) ≡ none
tests_init_empty = init-empty (ab ∷ blank ∷ []) (97 ∷ 98 ∷ [])

add-Added_example :
    (table : List DirectoryEntry) × (add root (99 ∷ []) (pos 7) ≡ (true, record { table = table }))
    × Added root.table (99 ∷ []) (pos 7) table
add-Added_example = add-Added root (99 ∷ []) (pos 7) refl no_c

tests_add_refused : add full (99 ∷ []) (pos 7) ≡ (false, full)
tests_add_refused = add-refused full (99 ∷ []) (pos 7) (inr refl)

remove-Removed_example :
    (table : List DirectoryEntry) × (remove root (97 ∷ 98 ∷ [])
      ≡ ok (true, record { table = table }))
    × Removed root.table (97 ∷ 98 ∷ []) table
remove-Removed_example = remove-Removed root (97 ∷ 98 ∷ []) root-IsUnique some_ab

tests_remove_absent : remove root (99 ∷ []) ≡ ok (false, root)
tests_remove_absent = remove-absent root (99 ∷ []) no_c
