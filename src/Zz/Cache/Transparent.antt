-- ===== src/Zz/Cache/Transparent.antt =====
-- src/zzlab/ZzUtils.h: what a client sees of the cache (`TLSHashMap`).
use qcap_demos.Prelude.{
  ℕ, zero, suc, ◌+◌, ◌≤◌, ◌<◌, ◌≡◌, refl, true, false, List, [], ◌∷◌, Option, none, some, length,
  ltb, ◌==◌, if◌then◌else◌, either, arith,
}
use qcap_demos.Zz.Cache.Bounded.{count, owned, make_room-owned}
use qcap_demos.Zz.Cache.{Cache, find, erase_at, make_room, get, objects_of}

-- The creators of a thread's calls, by the number of the call: the hash of each, and the content of the object that it
-- makes. No two objects have the same address: the object of a call has its number.
pub record Creator : Type 0 where
  pub hash : ℕ
  pub content : ℕ

-- What a client finds behind an address that it was given; `none` if the object was deleted.
unfoldable pub look : (ℕ → Creator) → ℕ → Cache → Option ℕ
look creators object c =
    if count object c.deleted == 0 then some (creators object).content else none

-- A client that makes a number of calls of `get`, from a number on, and looks at each object at once.
unfoldable pub serve :
    (List (ℕ × ℕ) → ℕ) → ℕ → (ℕ → Creator) → ℕ → ℕ → Cache → List (Option ℕ) × Cache
serve victim max_objects creators zero n c = ([], c)
serve victim max_objects creators (suc k) n c =
    let (object, c') = get victim max_objects (creators n).hash n c in
    let (seen, c'') = serve victim max_objects creators k (n + 1) c' in
    (look creators object c' ∷ seen, c'')

-- A call sees the content of a live object, which a creator of its own hash made in this call or an earlier one.
abbrev pub IsServed : (ℕ → Creator) → ℕ → Option ℕ → Type 0
IsServed creators n seen =
    (m : ℕ) × (m ≤ n) × ((creators m).hash ≡ (creators n).hash) × (seen ≡ some (creators m).content)

abbrev pub AreServed : (ℕ → Creator) → ℕ → List (Option ℕ) → Type 0
AreServed creators n [] = Unit {0}
AreServed creators n (s ∷ seen) = IsServed creators n s × AreServed creators (n + 1) seen

look-live :
    (creators : ℕ → Creator) (object : ℕ) (c : Cache)
    → count object c.deleted ≡ 0
    → look creators object c ≡ some (creators object).content
unfolding look
look-live creators object c e = rw e refl

-- The count of a new object, and of another one.
bump : (o n x y : ℕ) → x + y ≤ 1 → (o ≡ n → x + y ≡ 0) → (if o == n then suc x else x) + y ≤ 1
bump o n x y h new = ground (arith, h, new)

stay : (o n x y : ℕ) → n + 1 ≤ o → x + y ≡ 0 → (if o == n then suc x else x) + y ≡ 0
stay o n x y h none_yet = ground (arith, h, none_yet)

module _ (creators : ℕ → Creator) where
  -- Every entry has an object that a creator of its hash made, before a call.
  abbrev AreMade : ℕ → List (ℕ × ℕ) → Type 0
  AreMade n [] = Unit {0}
  AreMade n ((h, object) ∷ es) = (object < n) × ((creators object).hash ≡ h) × AreMade n es

  -- Before a call: no object is in the cache twice, or in the cache and deleted, and there is none of a later call.
  record IsSound (n : ℕ) (c : Cache) : Type 0 where
    made : AreMade n c.entries
    once : (o : ℕ) → owned o c ≤ 1
    fresh : (o : ℕ) → n ≤ o → owned o c ≡ 0

  find-AreMade :
      (n h : ℕ) (es : List (ℕ × ℕ)) (object : ℕ)
      → AreMade n es
      → find h es ≡ some object
      → (object < n) × ((creators object).hash ≡ h) × (0 < count object (objects_of es))
  unfolding find objects_of
  find-AreMade n h [] object a f = absurd (ground arith)
  find-AreMade n h ((k, o) ∷ es) object (lt, e, a) f =
      let later = find-AreMade n h es object a in ground arith

  AreMade-later : (n : ℕ) (es : List (ℕ × ℕ)) → AreMade n es → AreMade (n + 1) es
  AreMade-later n [] a = a
  AreMade-later n ((k, o) ∷ es) (lt, e, a) = (omega arith, e, AreMade-later n es a)

  erase_at-AreMade : (n i : ℕ) (es : List (ℕ × ℕ)) → AreMade n es → AreMade n (erase_at i es).1
  unfolding erase_at
  erase_at-AreMade n i [] a = a
  erase_at-AreMade n zero ((k, o) ∷ es) (lt, e, a) = a
  erase_at-AreMade n (suc i) ((k, o) ∷ es) (lt, e, a) = (lt, e, erase_at-AreMade n i es a)

  module _ (victim : List (ℕ × ℕ) → ℕ) (max_objects : ℕ) where
    make_room-AreMade :
        (n : ℕ) (c : Cache)
        → AreMade n c.entries
        → AreMade n (make_room victim max_objects c).entries
    unfolding make_room
    make_room-AreMade n c a =
        either (λ (r : Cache). AreMade n r.entries) (ltb max_objects (length c.entries))
          (λ (_ : ltb max_objects (length c.entries) ≡ true).
            erase_at-AreMade n (victim c.entries) c.entries a)
          (λ (_ : ltb max_objects (length c.entries) ≡ false). a)

    make_room-IsSound :
        (n : ℕ) (c : Cache) → IsSound n c → IsSound n (make_room victim max_objects c)
    make_room-IsSound n c s = record {
      made = make_room-AreMade n c s.made;
      once = λ (o : ℕ). rw (make_room-owned victim max_objects c o) (s.once o);
      fresh = λ (o : ℕ) (h : n ≤ o). rw (make_room-owned victim max_objects c o) (s.fresh o h);
    }

    later-IsSound : (n : ℕ) (c : Cache) → IsSound n c → IsSound (n + 1) c
    later-IsSound n c s = record {
      made = AreMade-later n c.entries s.made;
      once = s.once;
      fresh = λ (o : ℕ) (h : n + 1 ≤ o). s.fresh o (omega (arith, h));
    }

    -- The object of this call is added to the entries.
    added-IsSound :
        (n : ℕ) (c : Cache)
        → IsSound n c
        → IsSound (n + 1) (record c { entries = ((creators n).hash, n) ∷ c.entries })
    unfolding objects_of
    added-IsSound n c s = record {
      made = (omega arith, refl, AreMade-later n c.entries s.made);
      once = λ (o : ℕ).
          bump o n (count o (objects_of c.entries)) (count o c.deleted) (s.once o)
            (λ (e : o ≡ n). s.fresh o (omega (arith, e)));
      fresh = λ (o : ℕ) (h : n + 1 ≤ o).
          stay o n (count o (objects_of c.entries)) (count o c.deleted) h
            (s.fresh o (omega (arith, h)));
    }

    -- What a call gives, by what it finds in the cache.
    found-IsServed :
        (n : ℕ) (c : Cache) (r : Option ℕ)
        → find (creators n).hash c.entries ≡ r
        → IsSound n c
        → let room = make_room victim max_objects c in
          let out : ℕ × Cache = elim r [
            | some object ↦ (object, c)
            | none ↦ (n, record room { entries = ((creators n).hash, n) ∷ room.entries })
          ] in
          IsServed creators n (look creators out.0 out.1) × IsSound (n + 1) out.1
    found-IsServed n c none f s =
        let room = make_room victim max_objects c in
        let sound : IsSound n room = make_room-IsSound n c s in
        let unseen : owned n room ≡ 0 = sound.fresh n (omega arith) in
        (
          (
            n,
            omega arith,
            refl,
            look-live creators n (record room { entries = ((creators n).hash, n) ∷ room.entries })
                (omega (arith, unseen)),
          ),
          added-IsSound n room sound,
        )
    found-IsServed n c (some object) f s =
        let found = find-AreMade n (creators n).hash c.entries object s.made f in
        let once = s.once object in
        (
          (
            object,
            omega (arith, found.0),
            found.1,
            look-live creators object c (omega (arith, found.2, once)),
          ),
          later-IsSound n c s,
        )

    get-IsServed :
        (n : ℕ) (c : Cache)
        → IsSound n c
        → let out = get victim max_objects (creators n).hash n c in
          IsServed creators n (look creators out.0 out.1) × IsSound (n + 1) out.1
    unfolding get
    get-IsServed n c s = found-IsServed n c (find (creators n).hash c.entries) refl s

    served :
        (k n : ℕ) (c : Cache)
        → IsSound n c
        → AreServed creators n (serve victim max_objects creators k n c).0
    unfolding serve
    served zero n c s = tt
    served (suc k) n c s =
        let (seen, sound) = get-IsServed n c s in
        (seen, served k (n + 1) (get victim max_objects (creators n).hash n c).1 sound)

    -- From an empty cache, whatever the cache evicts and however small it is: in each of any number of calls, the client
    -- finds a live object behind the address that it is given, which was made by the creator of this call or of an
    -- earlier one with the same hash. Creators of one hash that make different objects are not told apart.
    pub serve-AreServed :
        (k : ℕ)
        → AreServed creators 0
            (serve victim max_objects creators k 0 (record { entries = []; deleted = [] })).0
    unfolding objects_of
    serve-AreServed k =
        served k 0 (record { entries = []; deleted = [] })
          (record { made = tt; once = λ (o : ℕ). omega arith; fresh = λ (o : ℕ) (h : 0 ≤ o). refl })
