-- ===== src/Resync/Ring.antt =====
-- The three slots of `attempts_ms` as the latest three attempts.
use qcap_demos.Prelude.{
  ℕ, zero, suc, ◌+◌, ◌%◌, ◌^◌, ◌≤◌, ◌<◌, ◌≡◌, refl, List, [], ◌∷◌, set, take, arith,
}
use qcap_demos.Resync.{attempt_window_ms, recent_from}

-- The slots, latest first, where `r` is the slot that the next attempt takes.
abbrev pub newest_first : ℕ → ℕ → ℕ → ℕ → List ℕ
newest_first zero a b c = c ∷ b ∷ a ∷ []
newest_first (suc zero) a b c = a ∷ c ∷ b ∷ []
newest_first (suc (suc _)) a b c = b ∷ a ∷ c ∷ []

-- Writing the next slot puts the new time in front and lets the oldest go.
pub newest_first-set :
    (r r' a b c now : ℕ)
    → r < 3
    → r' ≡ (r + 1) % 3
    → let t = set (a ∷ b ∷ c ∷ []) r now in
      (x y z : ℕ) × (t ≡ x ∷ y ∷ z ∷ [])
      × (newest_first r' x y z ≡ now ∷ take 2 (newest_first r a b c))
newest_first-set zero r' a b c now h e = (now, b, c, refl, rw e)
newest_first-set (suc zero) r' a b c now h e = (a, now, c, refl, rw e)
newest_first-set (suc (suc zero)) r' a b c now h e = (a, b, now, refl, rw e)
newest_first-set (suc (suc (suc r))) r' a b c now h e = absurd (omega arith)

-- With all three slots in use and none later than `now`, fewer than three within the window means
-- that the oldest of them lies outside it.
pub recent-oldest :
    (r now n a b c x y z : ℕ)
    → now < 2 ^ 63
    → 3 ≤ n
    → newest_first r a b c ≡ x ∷ y ∷ z ∷ []
    → x ≤ now
    → y ≤ x
    → z ≤ y
    → recent_from now n 0 (a ∷ b ∷ c ∷ []) < 3
    → z + attempt_window_ms ≤ now
unfolding recent_from
recent-oldest zero now n a b c x y z h k e p q s l = ground arith
recent-oldest (suc zero) now n a b c x y z h k e p q s l = ground arith
recent-oldest (suc (suc r)) now n a b c x y z h k e p q s l = ground arith
