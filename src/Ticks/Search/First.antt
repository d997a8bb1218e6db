-- ===== src/Ticks/Search/First.antt =====
-- src/utils/zdev-ticks-stat.cpp: the search compared with a list of all the directories to look at.
use qcap_demos.Prelude.{
  ℕ, ◌≡◌, refl, Bool, List, [], ◌∷◌, ◌++◌, Option, none, some, if◌then◌else◌, arith, is_text,
}
use qcap_demos.Ticks.Search.{
  Node, regular, other, closed, directory, Entries, nothing, entry, is_dots, first_counter, join,
  counter_files_exist, find_in_tree, find_in_entries,
}

-- The directories that hold a regular file `zdev_ticks0`, through directories that can be opened and no
-- links, in the order of the walk.
unfoldable pub candidates_in : List ℕ → Entries → List (List ℕ)
candidates_in root nothing = []
candidates_in root (entry name regular rest) =
    if is_dots name
    then candidates_in root rest
    else (if is_text name first_counter
        then root ∷ candidates_in root rest
        else candidates_in root rest)
candidates_in root (entry name other rest) = candidates_in root rest
candidates_in root (entry name closed rest) = candidates_in root rest
candidates_in root (entry name (directory entries) rest) =
    if is_dots name
    then candidates_in root rest
    else candidates_in (join root name) entries ++ candidates_in root rest

unfoldable pub candidates : List ℕ → Node → List (List ℕ)
candidates root (directory entries) = candidates_in root entries
candidates root regular = []
candidates root other = []
candidates root closed = []

abbrev pub first : (List ℕ → Bool) → List (List ℕ) → Option (List ℕ)
first test [] = none
first test (p ∷ ps) = if test p then some p else first test ps

abbrev or_later : Option (List ℕ) → Option (List ℕ) → Option (List ℕ)
or_later a b = elim a [ some p ↦ some p | none ↦ b ]

first-append :
    (test : List ℕ → Bool) (ps qs : List (List ℕ))
    → first test (ps ++ qs) ≡ or_later (first test ps) (first test qs)
first-append test [] qs = refl
first-append test (p ∷ ps) qs = let rest = first-append test ps qs in ground arith

module _ (access : List ℕ → ℕ → Bool) where
  find_in_entries-first :
      (root : List ℕ) (es : Entries)
      → find_in_entries access root es ≡ first (counter_files_exist access) (candidates_in root es)
  unfolding find_in_entries candidates_in
  find_in_entries-first root nothing = refl
  find_in_entries-first root (entry name regular rest) =
      let later = find_in_entries-first root rest in ground arith
  find_in_entries-first root (entry name other rest) = find_in_entries-first root rest
  find_in_entries-first root (entry name closed rest) = find_in_entries-first root rest
  find_in_entries-first root (entry name (directory entries) rest) =
      let below = find_in_entries-first (join root name) entries in
      let later = find_in_entries-first root rest in
      let joined =
        first-append (counter_files_exist access) (candidates_in (join root name) entries)
          (candidates_in root rest) in
      ground arith

  -- The search gives the first directory of the walk that holds a regular file `zdev_ticks0` and in which
  -- all four counter files can be read, and none if there is no such directory.
  pub find_in_tree_first :
      (root : List ℕ) (node : Node)
      → find_in_tree access root node ≡ first (counter_files_exist access) (candidates root node)
  unfolding find_in_tree candidates
  find_in_tree_first root (directory entries) = find_in_entries-first root entries
  find_in_tree_first root regular = refl
  find_in_tree_first root other = refl
  find_in_tree_first root closed = refl
