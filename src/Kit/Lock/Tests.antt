-- ===== src/Kit/Lock/Tests.antt =====
-- A run of the spin lock, and the theorem at it.
use qcap_demos.Prelude.{ℕ, Bool, true, ◌≡◌, refl, ◌==◌}
use qcap_demos.Kit.Lock.{
  Shared, Pc, assign, copy, returned, test_and_set, clear, Move, System, pick, init, Reach, start,
  later, call_assign, call_copy, win, lose, still, store_first, store_second, load_first,
  load_second, unlock_stored, unlock_loaded, retry,
}
use qcap_demos.Kit.Lock.Exclusion.{holds, spinlock_excludes}

abbrev same : ℕ → ℕ → Bool
same a b = a == b

abbrev Run : Type 0
Run = (s : System) × Reach same (init 1 1) s

abbrev go : (r : Run) (i : ℕ) → {m : Shared} {p : Pc} → Move same r.0.mem (r.0.pc i) m p → Run
go (s, r) i {m} {p} mv = (_, later r (pick i mv))

-- The second thread comes while the first has stored one field, and waits.
abbrev blocked : Run
unfolding test_and_set
blocked =
    let r0 : Run = (init 1 1, start) in
    let r1 : Run = go r0 0 (call_assign {v = 2} {w = 2} refl) in
    let r2 : Run = go r1 0 (win {u = assign 2 2} refl) in
    let r3 : Run = go r2 0 store_first in
    let r4 : Run = go r3 1 call_copy in
    let r5 : Run = go r4 1 (lose {u = copy} refl) in go r5 1 (still refl)

abbrev copied : Run
unfolding test_and_set clear
copied =
    let r6 : Run = go blocked 0 store_second in
    let r7 : Run = go r6 0 unlock_stored in
    let r8 : Run = go r7 1 (retry refl) in
    let r9 : Run = go r8 1 (win {u = copy} refl) in
    let r10 : Run = go r9 1 load_first in
    let r11 : Run = go r10 1 load_second in go r11 1 unlock_loaded

copied_lem : copied.0.pc 1 ≡ returned 2 2
unfolding test_and_set clear
copied_lem = refl

spinlock_excludes_example :
    ((i j : ℕ) → holds (copied.0.pc i) ≡ true → holds (copied.0.pc j) ≡ true → i ≡ j)
    × ((i a b : ℕ) → copied.0.pc i ≡ returned a b → same a b ≡ true)
spinlock_excludes_example = spinlock_excludes same {v = 1} {w = 1} {s = copied.0} refl copied.1
