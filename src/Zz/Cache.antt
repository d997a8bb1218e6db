-- ===== src/Zz/Cache.antt =====
-- src/zzlab/ZzUtils.h: the cache of a thread (`TLSHashMap`) and counted references. An object is its address.
-- Which entry the map gives first is not known: `victim` chooses it.
pub mod Bounded
pub mod Transparent
pub mod References
use qcap_demos.Prelude.{
  ℕ, zero, suc, ◌+◌, ◌-◌, ◌%◌, ◌^◌, Bool, true, false, List, [], ◌∷◌, Option, none, some, length,
  ltb, ◌==◌, if◌then◌else◌,
}

-- The entries, each with its hash and the address of its object, and the objects that were deleted, the last first.
pub record Cache : Type 0 where
  pub entries : List (ℕ × ℕ)
  pub deleted : List ℕ

unfoldable pub find : ℕ → List (ℕ × ℕ) → Option ℕ
find hash [] = none
find hash ((h, object) ∷ rest) =
    let later = find hash rest in if h == hash then some object else later

-- The entry at a position, and the others; past the end nothing is erased.
unfoldable pub erase_at : ℕ → List (ℕ × ℕ) → Option ℕ × List (ℕ × ℕ)
erase_at i [] = (none, [])
erase_at zero ((h, object) ∷ rest) = (some object, rest)
erase_at (suc i) ((h, object) ∷ rest) =
    let (gone, kept) = erase_at i rest in (gone, (h, object) ∷ kept)

module _ (victim : List (ℕ × ℕ) → ℕ) where
  unfoldable pub make_room : ℕ → Cache → Cache
  unfolding erase_at
  make_room max_objects c =
      let (gone, kept) = erase_at (victim c.entries) c.entries in
      let made : Cache = record {
        entries = kept;
        deleted = elim gone [ none ↦ c.deleted | some o ↦ o ∷ c.deleted ];
      } in
      if ltb max_objects (length c.entries) then made else c

  -- `get`: the hash of the creator, and the address of the object that it makes if it is called.
  unfoldable pub get : ℕ → ℕ → ℕ → Cache → ℕ × Cache
  unfolding find make_room
  get max_objects hash created c =
      let room = make_room max_objects c in
      elim (find hash c.entries) [
        | some object ↦ (object, c)
        | none ↦ (created, record room { entries = (hash, created) ∷ room.entries })
      ]

unfoldable pub objects_of : List (ℕ × ℕ) → List ℕ
objects_of [] = []
objects_of ((h, object) ∷ rest) = object ∷ objects_of rest

-- `cleanup_map`, at the end of the thread: what is deleted then.
unfoldable pub cleanup_map : Option Cache → List ℕ
unfolding objects_of
cleanup_map none = []
cleanup_map (some c) = objects_of c.entries

unfoldable pub get_cache_count : Cache → ℕ
get_cache_count c = length c.entries

-- `ref_counted`: the count, 32 bits wide, and whether the object was deleted.
pub record Counted : Type 0 where
  pub count : ℕ
  pub is_deleted : Bool

unfoldable pub new_counted : Counted
new_counted = record { count = 1; is_deleted = false }

unfoldable pub add_ref : Counted → Counted
add_ref c = record c { count = (c.count + 1) % 2 ^ 32 }

unfoldable pub release : Counted → Counted
release c =
    let count = (c.count + 2 ^ 32 - 1) % 2 ^ 32 in
    record { count = count; is_deleted = if count == 0 then true else c.is_deleted }
