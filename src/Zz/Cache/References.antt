-- ===== src/Zz/Cache/References.antt =====
-- src/zzlab/ZzUtils.h: the life of a counted object.
use qcap_demos.Prelude.{ℕ, ◌+◌, ◌-◌, ◌^◌, ◌<◌, ◌≡◌, refl, List, [], ◌∷◌, ◌==◌, arith}
use qcap_demos.Zz.Cache.{Counted, new_counted, add_ref, release}

-- What a holder of a reference does.
pub data Act : Type 0 where
  adds releases : Act

unfoldable pub act : Act → Counted → Counted
act adds c = add_ref c
act releases c = release c

unfoldable pub live : List Act → Counted → Counted
live [] c = c
live (a ∷ rest) c = live rest (act a c)

-- The references that are held, from `held` of them: one is always held until the last is given back, and
-- they fit in 32 bits.
abbrev pub Holds : ℕ → List Act → ℕ → Type 0
Holds held [] end = held ≡ end
Holds held (adds ∷ rest) end = (0 < held) × (held + 1 < 2 ^ 32) × Holds (held + 1) rest end
Holds held (releases ∷ rest) end = (0 < held) × Holds (held - 1) rest end

live_held :
    (acts : List Act) (held end : ℕ) (c : Counted)
    → c.count ≡ held
    → held < 2 ^ 32
    → c.is_deleted ≡ (held == 0)
    → Holds held acts end
    → ((live acts c).count ≡ end) × ((live acts c).is_deleted ≡ (end == 0))
unfolding live act add_ref release
live_held [] held end c hc hw hd h = ground arith
live_held (adds ∷ rest) held end c hc hw hd (ho, hb, h) =
    live_held rest (held + 1) end (add_ref c) (ground arith) (ground arith) (ground arith) h
live_held (releases ∷ rest) held end c hc hw hd (ho, h) =
    live_held rest (held - 1) end (release c) (ground arith) (ground arith) (ground arith) h

-- A new object of which references are added and given back, never more than were held and at most
-- 2^32 - 1 at a time: it is deleted exactly when none is held, and its count is the number that is held.
pub live_deleted :
    (acts : List Act) (end : ℕ)
    → Holds 1 acts end
    → ((live acts new_counted).count ≡ end) × ((live acts new_counted).is_deleted ≡ (end == 0))
unfolding new_counted
live_deleted acts end h = live_held acts 1 end new_counted refl (omega arith) refl h
