-- ===== src/Ticks/Search.antt =====
-- src/utils/zdev-ticks-stat.cpp: the search for the directory of the counters. A signal cannot stop it,
-- since the handlers are set later.
pub mod First
use qcap_demos.Prelude.{
  ℕ, ◌≡◌, refl, ap, ◌∙◌, Bool, true, false, ◌||◌, ◌&&◌, List, [], ◌∷◌, ◌++◌, Option, none, some,
  ◌==◌, if◌then◌else◌, arith, is_text,
}

-- What `lstat` says of a name: links, other files and names that it fails for are not looked into, and
-- `closed` is a directory that cannot be opened. The entries are in the order of `readdir`.
mutual
  pub data Node : Type 0 where
    regular other closed : Node
    directory : Entries → Node

  pub data Entries : Type 0 where
    nothing : Entries
    entry : List ℕ → Node → Entries → Entries

-- `.` and `..`.
abbrev pub is_dots : List ℕ → Bool
is_dots name = is_text name (46 ∷ []) || is_text name (46 ∷ 46 ∷ [])

-- `zdev_ticks0`.
abbrev pub first_counter : List ℕ
first_counter = 122 ∷ 100 ∷ 101 ∷ 118 ∷ 95 ∷ 116 ∷ 105 ∷ 99 ∷ 107 ∷ 115 ∷ 48 ∷ []

-- `/sys/devices`, and `/platform/amba_pl@0` below it.
abbrev pub devices_root : List ℕ
devices_root = 47 ∷ 115 ∷ 121 ∷ 115 ∷ 47 ∷ 100 ∷ 101 ∷ 118 ∷ 105 ∷ 99 ∷ 101 ∷ 115 ∷ []

abbrev pub default_root : List ℕ
default_root =
    devices_root
    ++ (47 ∷ 112 ∷ 108 ∷ 97 ∷ 116 ∷ 102 ∷ 111 ∷ 114 ∷ 109 ∷ 47 ∷ 97 ∷ 109 ∷ 98 ∷ 97 ∷ 95 ∷ 112 ∷ 108
        ∷ 64 ∷ 48 ∷ [])

-- `root + "/" + name`.
abbrev pub join : List ℕ → List ℕ → List ℕ
join root name = root ++ (47 ∷ name)

-- `access` of the four files of a directory, by the number of the counter.
unfoldable pub counter_files_exist : (List ℕ → ℕ → Bool) → List ℕ → Bool
counter_files_exist access dir = access dir 0 && (access dir 1 && (access dir 2 && access dir 3))

module _ (access : List ℕ → ℕ → Bool) where
  unfoldable pub find_in_entries : List ℕ → Entries → Option (List ℕ)
  find_in_entries root nothing = none
  find_in_entries root (entry name regular rest) =
      let later = find_in_entries root rest in
      if is_dots name
      then later
      else (if is_text name first_counter && counter_files_exist access root
          then some root
          else later)
  find_in_entries root (entry name other rest) = find_in_entries root rest
  find_in_entries root (entry name closed rest) = find_in_entries root rest
  find_in_entries root (entry name (directory entries) rest) =
      let below = find_in_entries (join root name) entries in
      let later = find_in_entries root rest in
      if is_dots name then later else elim below [ some found ↦ some found | none ↦ later ]

  unfoldable pub find_in_tree : List ℕ → Node → Option (List ℕ)
  find_in_tree root (directory entries) = find_in_entries root entries
  find_in_tree root regular = none
  find_in_tree root other = none
  find_in_tree root closed = none

  -- The file system from the two roots, and the directory that the user asks for (empty for none); `none`
  -- is the empty string.
  unfoldable pub find_sysfs_directory : (List ℕ → Node) → List ℕ → Option (List ℕ)
  unfolding find_in_tree
  find_sysfs_directory at [] =
      let default = find_in_tree default_root (at default_root) in
      let all = find_in_tree devices_root (at devices_root) in
      elim default [ some found ↦ some found | none ↦ all ]
  find_sysfs_directory at (c ∷ cs) =
      if counter_files_exist access (c ∷ cs) then some (c ∷ cs) else none
