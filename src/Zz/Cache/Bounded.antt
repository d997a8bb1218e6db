-- ===== src/Zz/Cache/Bounded.antt =====
-- src/zzlab/ZzUtils.h: the bound of the cache, and what it holds.
use qcap_demos.Prelude.{
  ℕ, zero, suc, ◌+◌, ◌≤◌, ◌<◌, ◌≡◌, ◌⊎◌, inl, inr, refl, List, [], ◌∷◌, Option, none, some, length,
  ◌==◌, if◌then◌else◌, arith,
}
use qcap_demos.Zz.Cache.{Cache, find, erase_at, make_room, get, objects_of}

abbrev pub count : ℕ → List ℕ → ℕ
count o [] = 0
count o (p ∷ ps) = let rest = count o ps in if o == p then suc rest else rest

abbrev pub gone_count : ℕ → Option ℕ → ℕ
gone_count o none = 0
gone_count o (some p) = if o == p then 1 else 0

erase_at-length :
    (i : ℕ) (es : List (ℕ × ℕ)) → i < length es → length (erase_at i es).1 + 1 ≡ length es
unfolding erase_at
erase_at-length i [] h = absurd (omega arith)
erase_at-length zero (e ∷ es) h = omega arith
erase_at-length (suc i) (e ∷ es) h = let rest = erase_at-length i es (omega arith) in omega arith

erase_at-count :
    (o i : ℕ) (es : List (ℕ × ℕ))
    → gone_count o (erase_at i es).0 + count o (objects_of (erase_at i es).1)
      ≡ count o (objects_of es)
unfolding erase_at objects_of
erase_at-count o i [] = refl
erase_at-count o zero ((h, p) ∷ es) = ground arith
erase_at-count o (suc i) ((h, p) ∷ es) = let rest = erase_at-count o i es in ground arith

pub ltb_cases : (a b : ℕ) → a < b ⊎ b ≤ a
ltb_cases a b = ground arith

-- Every object that was made is in the cache or deleted, as often as it was made.
abbrev pub owned : ℕ → Cache → ℕ
owned o c = count o (objects_of c.entries) + count o c.deleted

module _ (victim : List (ℕ × ℕ) → ℕ) (max_objects : ℕ) where
  make_room-bound :
      (c : Cache)
      → (0 < length c.entries → victim c.entries < length c.entries)
      → length c.entries ≤ max_objects + 1
      → length (make_room victim max_objects c).entries ≤ max_objects
  unfolding make_room
  make_room-bound c hv hl = elim (ltb_cases max_objects (length c.entries)) [
    | inl full ↦
        let shorter = erase_at-length (victim c.entries) c.entries (hv (omega arith)) in
        ground arith
    | inr room ↦ ground arith
  ]

  pub make_room-owned : (c : Cache) (o : ℕ) → owned o (make_room victim max_objects c) ≡ owned o c
  unfolding make_room
  make_room-owned c o = let moved = erase_at-count o (victim c.entries) c.entries in ground arith

  -- With a choice that is an entry whenever there is one, from a cache of at most `max_objects` + 1 entries:
  -- `get` leaves at most that many, the object that it gives is the one that the hash has in the cache then, and
  -- each object is in the cache or deleted exactly as often as before, and once more if it was made by this call.
  pub get_lem :
      (hash created o : ℕ) (c : Cache)
      → (0 < length c.entries → victim c.entries < length c.entries)
      → length c.entries ≤ max_objects + 1
      → (length (get victim max_objects hash created c).1.entries ≤ max_objects + 1)
        × (find hash (get victim max_objects hash created c).1.entries
            ≡ some (get victim max_objects hash created c).0)
        × (owned o (get victim max_objects hash created c).1
            ≡ owned o c + elim (find hash c.entries) [
              | some object ↦ 0
              | none ↦ if o == created then 1 else 0
            ])
  unfolding get find objects_of
  get_lem hash created o c hv hl =
      let bound = make_room-bound c hv hl in let kept = make_room-owned c o in ground arith
