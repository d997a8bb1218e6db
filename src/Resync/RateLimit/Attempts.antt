-- ===== src/Resync/RateLimit/Attempts.antt =====
-- What one observation does to the attempts so far, against the policy that keeps the last three.
use qcap_demos.Prelude.{
  ℕ, ◌+◌, ◌*◌, ◌%◌, ◌^◌, ◌≤◌, ◌<◌, ◌≡◌, refl, Bool, true, false, List, [], ◌∷◌, ◌++◌, length, set,
  take, arith, add64, add32, subst,
}
use qcap_demos.Resync.{
  Policy, recent, recent_from, observe, max_attempts, attempt_window_ms, cooldown_ms,
}
use qcap_demos.Resync.Ring.{newest_first, recent-oldest}

-- Uptimes below 2 ^ 40 ms are 34 years; up to there no time and no counter wraps.
abbrev pub max_uptime : ℕ
max_uptime = 2 ^ 40

-- The cooldown after the attempt before `t`; attempts come latest first.
abbrev pub Cooled : ℕ → List ℕ → Type 0
Cooled t [] = Unit {0}
Cooled t (u ∷ _) = u + cooldown_ms ≤ t

-- The third attempt before `t` lies a whole window back.
abbrev pub Windowed : ℕ → List ℕ → Type 0
Windowed t (u ∷ v ∷ w ∷ _) = w + attempt_window_ms ≤ t
Windowed t _ = Unit {0}

abbrev pub Apart : ℕ → List ℕ → Type 0
Apart t h = Cooled t h × Windowed t h

abbrev pub AreApart : List ℕ → Type 0
AreApart [] = Unit {0}
AreApart (t ∷ h) = Apart t h × AreApart h

-- What a firing observation needs and does.
pub observe-fires :
    (p : Policy) (now status : ℕ) (eligible : Bool)
    → (observe p now status eligible).1 ≡ true
    → let q = (observe p now status eligible).0 in
      (p.cooldown_until_ms ≤ now)
      × (recent now p < 3)
      × (q.attempts_ms ≡ set p.attempts_ms (p.attempts % max_attempts) now)
      × (q.attempts ≡ add32 p.attempts 1)
      × (q.cooldown_until_ms ≡ add64 now cooldown_ms)
unfolding observe
observe-fires p now status eligible h = ground arith

pub observe-waits :
    (p : Policy) (now status : ℕ) (eligible : Bool)
    → (observe p now status eligible).1 ≡ false
    → let q = (observe p now status eligible).0 in
      (q.attempts_ms ≡ p.attempts_ms)
      × (q.attempts ≡ p.attempts)
      × (q.cooldown_until_ms ≡ p.cooldown_until_ms)
unfolding observe
observe-waits p now status eligible h = ground arith

-- The latest attempt, if there is one: it set the cooldown, and attempts are few for their time.
abbrev pub Latest : ℕ → ℕ → List ℕ → Type 0
Latest cooldown last [] = Unit {0}
Latest cooldown last (t ∷ h) =
    (cooldown ≡ t + cooldown_ms) × (t ≤ last) × (cooldown_ms * length (t ∷ h) ≤ t + cooldown_ms)

-- The policy's fields against all attempts so far, at a time when the latest event was at `last`.
pub record Tracks (p : Policy) (hist : List ℕ) (last : ℕ) : Type 0 where
  pub a : ℕ
  pub b : ℕ
  pub c : ℕ
  pub slots : p.attempts_ms ≡ a ∷ b ∷ c ∷ []
  pub shape : newest_first (p.attempts % 3) a b c ≡ take 3 (hist ++ 0 ∷ 0 ∷ 0 ∷ [])
  pub count : p.attempts ≡ length hist
  pub latest : Latest p.cooldown_until_ms last hist
  pub apart : AreApart hist

pub take-take :
    (hist : List ℕ) → take 2 (take 3 (hist ++ 0 ∷ 0 ∷ 0 ∷ [])) ≡ take 2 (hist ++ 0 ∷ 0 ∷ 0 ∷ [])
take-take [] = refl
take-take (x ∷ []) = refl
take-take (x ∷ y ∷ []) = refl
take-take (x ∷ y ∷ z ∷ h) = refl

pub few :
    (p : Policy) (hist : List ℕ) (last : ℕ)
    → Tracks p hist last
    → last < max_uptime
    → p.attempts + 1 < 2 ^ 32
few p [] last t h = omega (arith, t.count)
few p (x ∷ hist) last t h = omega (arith, t.count, t.latest)

pub fire-Apart :
    (p : Policy) (hist : List ℕ) (last now : ℕ)
    → Tracks p hist last
    → last ≤ now
    → now < max_uptime
    → p.cooldown_until_ms ≤ now
    → recent now p < 3
    → Apart now hist
unfolding recent
fire-Apart p [] last now t h u c r = omega arith
fire-Apart p (x ∷ []) last now t h u c r = omega (arith, t.latest)
fire-Apart p (x ∷ y ∷ []) last now t h u c r = omega (arith, t.latest)
fire-Apart p (x ∷ y ∷ z ∷ hist) last now t h u c r = (
  omega (arith, t.latest),
  recent-oldest (p.attempts % 3) now p.attempts t.a t.b t.c x y z (omega arith)
      (omega (arith, t.count)) t.shape (omega (arith, t.latest)) (omega (arith, t.apart.0.0))
      (omega (arith, t.apart.1.0.0)) (subst (λ s. recent_from now p.attempts 0 s < 3) t.slots r),
)

pub fire-Latest :
    (p : Policy) (hist : List ℕ) (last now cooldown : ℕ)
    → Tracks p hist last
    → last ≤ now
    → now < max_uptime
    → p.cooldown_until_ms ≤ now
    → cooldown ≡ add64 now cooldown_ms
    → Latest cooldown now (now ∷ hist)
fire-Latest p [] last now cd t h u c e = omega arith
fire-Latest p (x ∷ hist) last now cd t h u c e = omega (arith, t.latest)

pub wait-Latest :
    (hist : List ℕ) (cd last now : ℕ) → last ≤ now → Latest cd last hist → Latest cd now hist
wait-Latest [] cd last now h l = tt
wait-Latest (x ∷ hist) cd last now h l = omega arith
