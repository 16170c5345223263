-- ===== src/Directory/Lookup.antt =====
-- FindIndex and Find of code/filesys/directory.cc as a lookup by key.
use nachos_lab.Base.{
  ℕ, suc, ◌+◌, ◌<◌, ◌≡◌, refl, ◌∙◌, ap, false, List, [], ◌∷◌, arith, if◌then◌else◌, Bool-cases, inl,
  inr, Option, none, some, ok, get_elem?, set, length, ◌⊎◌,
}
use nachos_lab.Base.Int.{ℤ, pos, negsuc}
use nachos_lab.Directory.{DirectoryEntry, Directory, matches, find_index_from, find}

-- The first entry in use whose name agrees in the first nine characters, as a dictionary sees it.
unfoldable pub lookup : List DirectoryEntry → List ℕ → Option ℤ
lookup [] name = none
lookup (e ∷ es) name = if matches e name then some e.sector else lookup es name

-- -1 for none.
abbrev pub or_minus_one : Option ℤ → ℤ
or_minus_one none = negsuc 0
or_minus_one (some sector) = sector

-- The table with the first entry for the name no longer in use.
unfoldable pub drop_first : List DirectoryEntry → List ℕ → List DirectoryEntry
drop_first [] name = []
drop_first (e ∷ es) name =
    if matches e name then record e { in_use = false } ∷ es else e ∷ drop_first es name

-- What FindIndex says of the entries from `i` on: the place `k` of the first match, or -1.
abbrev pub Found : List DirectoryEntry → ℕ → List ℕ → Type 0
Found es i name =
    ((k : ℕ) × (e : DirectoryEntry) × (find_index_from es i name ≡ pos (i + k))
      × (k < length es)
      × (get_elem? es k ≡ some e)
      × (lookup es name ≡ some e.sector)
      × (set es k (record e { in_use = false }) ≡ drop_first es name))
    ⊎ ((find_index_from es i name ≡ negsuc 0) × (lookup es name ≡ none))

pub find_index_from-Found : (es : List DirectoryEntry) (i : ℕ) (name : List ℕ) → Found es i name
unfolding find_index_from lookup drop_first
find_index_from-Found [] i name = inr (refl, refl)
find_index_from-Found (e ∷ es) i name = elim (Bool-cases (matches e name)) [
  | inl m ↦ rw m (inl (0, e, ap pos (omega arith), omega arith, refl, refl, refl))
  | inr m ↦ rw m (elim (find_index_from-Found es (i + 1) name) [
    | inl (k, e', found, inside, got, look, dropped) ↦
        inl (suc k, e', found ∙ ap pos (omega arith), omega arith, got, look, ap (◌∷◌ e) dropped)
    | inr (missing, look) ↦ inr (missing, look)
  ])
]

-- `Find` returns the sector of the first entry that has the name, and -1 if there is none.
pub find-lookup :
    (d : Directory) (name : List ℕ) → find d name ≡ ok (or_minus_one (lookup d.table name))
unfolding find
find-lookup d name = elim (find_index_from-Found d.table 0 name) [
  | inl (k, e, found, inside, got, look, dropped) ↦
      let z : 0 + k ≡ k = omega arith in rw (found ∙ ap pos z, find) (rw (got, look))
  | inr (missing, look) ↦ rw (missing, find) (rw look)
]
