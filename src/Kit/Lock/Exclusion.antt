-- ===== src/Kit/Lock/Exclusion.antt =====
-- src/zzlab/testkit.h: two threads are never behind the spin lock together, and no copy is torn.
use qcap_demos.Prelude.{ℕ, Bool, true, false, ◌≡◌, refl, subst, ◌⊎◌, inl, inr, ◌==◌, arith}
use qcap_demos.Kit.Lock.{
  Shared, Use, assign, copy, Pc, outside, setting, testing, storing_first, storing_second, stored,
  loading_first, loading_second, loaded, returned, test_and_set, clear, Move, win, System, update,
  pick, init, Reach, start, later, call_assign, lose,
}

-- Between the lock and the unlock.
abbrev pub holds : Pc → Bool
holds outside = false
holds (setting u) = false
holds (testing u) = false
holds (returned a b) = false
holds p = true

same_or_not : (i j : ℕ) → ((i == j) ≡ true) ⊎ (((i == j) ≡ false) × (i ≡ j → ⊥))
same_or_not i j = ground arith

module _ (valid : ℕ → ℕ → Bool) where
  abbrev IsAllowed : Use → Type 0
  IsAllowed (assign v w) = valid v w ≡ true
  IsAllowed copy = Unit {0}

  -- What the place of a thread says of its values and of the struct.
  abbrev IsFresh : Shared → Pc → Type 0
  IsFresh m outside = Unit {0}
  IsFresh m (setting u) = IsAllowed u
  IsFresh m (testing u) = IsAllowed u
  IsFresh m (storing_first v w) = valid v w ≡ true
  IsFresh m (storing_second v w) = (valid v w ≡ true) × (m.first ≡ v)
  IsFresh m stored = valid m.first m.second ≡ true
  IsFresh m loading_first = valid m.first m.second ≡ true
  IsFresh m (loading_second a) = (valid m.first m.second ≡ true) × (m.first ≡ a)
  IsFresh m (loaded a b) = (valid m.first m.second ≡ true) × (valid a b ≡ true)
  IsFresh m (returned a b) = valid a b ≡ true

  record Inv (m : Shared) (pc : ℕ → Pc) : Type 0 where
    busy : (i : ℕ) → holds (pc i) ≡ true → m.flag ≡ true
    unique : (i j : ℕ) → holds (pc i) ≡ true → holds (pc j) ≡ true → i ≡ j
    free : m.flag ≡ false → valid m.first m.second ≡ true
    fresh : (i : ℕ) → IsFresh m (pc i)

  -- The premise of a move.
  abbrev Guard : {m m' : Shared} {p p' : Pc} → Move valid m p m' p' → Type 0
  Guard {m} (win g) = m.flag ≡ false
  Guard {m} (lose g) = m.flag ≡ true
  Guard (call_assign {v} {w} g) = valid v w ≡ true
  Guard mv = Unit {0}

  guard : {m m' : Shared} {p p' : Pc} (mv : Move valid m p m' p') → Guard mv
  unfolding test_and_set
  guard (win g) = g
  guard (lose g) = g
  guard (call_assign g) = g
  guard mv = tt

  module _ {m : Shared} {pc : ℕ → Pc} (inv : Inv m pc) (i : ℕ) where
    open inv use {busy, unique, free, fresh}

    record Mover (p : Pc) : Type 0 where
      here : pc i ≡ p
      own : IsFresh m p

    Move-busy :
        {p p' : Pc} {m' : Shared}
        → Move valid m p m' p'
        → Mover p
        → (j : ℕ) → holds (update pc i p' j) ≡ true
        → m'.flag ≡ true
    unfolding test_and_set clear
    Move-busy (call_assign g) f j h = ground (arith, busy j)
    Move-busy mv f j h = ground (arith, guard mv, busy i, busy j, unique i j)

    Move-unique :
        {p p' : Pc} {m' : Shared}
        → Move valid m p m' p'
        → Mover p
        → (a b : ℕ) → holds (update pc i p' a) ≡ true
        → holds (update pc i p' b) ≡ true
        → a ≡ b
    Move-unique (call_assign g) f a b ha hb = ground (arith, unique a b)
    Move-unique mv f a b ha hb =
        ground (arith, guard mv, busy a, busy b, unique a b, unique i a, unique i b)

    Move-free :
        {p p' : Pc} {m' : Shared}
        → Move valid m p m' p'
        → Mover p
        → m'.flag ≡ false
        → valid m'.first m'.second ≡ true
    unfolding test_and_set clear
    Move-free (call_assign g) f h = ground (arith, free)
    Move-free mv f h = ground (arith, guard mv, busy i, free)

    Move-own : {p p' : Pc} {m' : Shared} → Move valid m p m' p' → Mover p → IsFresh m' p'
    unfolding test_and_set clear
    Move-own (call_assign g) f = g
    Move-own mv f = ground (arith, guard mv, free)

    Move-others :
        {p p' : Pc} {m' : Shared}
        → Move valid m p m' p'
        → Mover p
        → (q : Pc) → IsFresh m q
        → (holds p ≡ true → holds q ≡ false)
        → IsFresh m' q
    unfolding test_and_set clear
    Move-others (call_assign g) f q h alone = h
    Move-others mv f q h alone = ground arith

    Move-alone : {p : Pc} → Mover p → (j : ℕ) → (i ≡ j → ⊥) → holds p ≡ true → holds (pc j) ≡ false
    Move-alone f j differs h = ground (arith, unique i j)

    Move-fresh :
        {p p' : Pc} {m' : Shared}
        → Move valid m p m' p'
        → Mover p
        → (j : ℕ) → IsFresh m' (update pc i p' j)
    Move-fresh mv f j = elim (same_or_not i j) [
      | inl same ↦ rw same (Move-own mv f)
      | inr (differs, apart) ↦ rw differs (Move-others mv f (pc j) (fresh j) (Move-alone f j apart))
    ]

  Move-Inv :
      {m : Shared} {pc : ℕ → Pc}
      → Inv m pc
      → (i : ℕ) → {m' : Shared} {p' : Pc} → Move valid m (pc i) m' p'
      → Inv m' (update pc i p')
  Move-Inv {pc} inv i mv =
      let f : Mover inv i (pc i) = record { here = refl; own = inv.fresh i } in
      record {
        busy = Move-busy inv i mv f;
        unique = Move-unique inv i mv f;
        free = Move-free inv i mv f;
        fresh = Move-fresh inv i mv f;
      }

  Reach-Inv : {v w : ℕ} {s : System} → valid v w ≡ true → Reach valid (init v w) s → Inv s.mem s.pc
  Reach-Inv h start = record {
    busy = λ i q. absurd (cc);
    unique = λ i j q r. absurd (cc);
    free = λ q. h;
    fresh = λ i. tt;
  }
  Reach-Inv h (later r (pick i mv)) = Move-Inv (Reach-Inv h r) i mv

  -- However the threads are interleaved, from the free lock and a first value that passes the test: two threads
  -- are never behind the lock together, and the copy that a thread has taken of the struct passes the test that
  -- every assigned value passes, whatever the test is. So no copy is torn between two assignments.
  pub spinlock_excludes :
      {v w : ℕ} {s : System}
      → valid v w ≡ true
      → Reach valid (init v w) s
      → ((i j : ℕ) → holds (s.pc i) ≡ true → holds (s.pc j) ≡ true → i ≡ j)
        × ((i a b : ℕ) → s.pc i ≡ returned a b → valid a b ≡ true)
  spinlock_excludes {s} h r =
      let inv = Reach-Inv h r in (inv.unique, λ i a b at. subst (IsFresh s.mem) at (inv.fresh i))
