-- ===== src/Zz/System/Flush.antt =====
-- src/zzlab/ZzUtils.cpp: `FreeStack::Flush`.
use qcap_demos.Prelude.{
  ℕ, zero, suc, ◌≤◌, ◌≡◌, refl, ap, ◌∙◌, List, [], ◌∷◌, none, some, length, arith,
}
use qcap_demos.Zz.System.{FreeStack, pop, flush}

module _ {W : Type 0} (call : ℕ → FreeStack W → FreeStack W) (effect : ℕ → W → W) where
  -- What the functions do, one after the other.
  abbrev pub run_all : List ℕ → W → W
  run_all [] w = w
  run_all (f ∷ fs) w = run_all fs (effect f w)

  -- When no function changes the stack: `Flush` ends, after at most as many rounds as there are functions, with an
  -- empty stack, and each function was run once, the last that was pushed first.
  pub flush_lem :
      ((f : ℕ) (fs : List ℕ) (w : W)
        → call f (record { stack = fs; world = w }) ≡ record { stack = fs; world = effect f w })
      → (fs : List ℕ) (fuel : ℕ) (w : W) → length fs ≤ fuel
      → flush call fuel (record { stack = fs; world = w })
        ≡ some (record { stack = []; world = run_all fs w })
  unfolding flush pop
  flush_lem h [] zero w hf = refl
  flush_lem h [] (suc fuel) w hf = refl
  flush_lem h (f ∷ fs) zero w hf = absurd (omega arith)
  flush_lem h (f ∷ fs) (suc fuel) w hf =
      ap (λ s. flush call fuel (pop s)) (h f (f ∷ fs) w)
      ∙ flush_lem h fs fuel (effect f w) (omega arith)

  -- But a function that pushes another each time it is called is itself called again, and the other never: `pop` takes
  -- what was pushed last.
  flush_pushed :
      (f g : ℕ)
      → ((w : W)
          → call f (record { stack = f ∷ []; world = w })
            ≡ record { stack = g ∷ f ∷ []; world = effect f w })
      → (fuel : ℕ) (w : W) → flush call fuel (record { stack = f ∷ []; world = w }) ≡ none
  unfolding flush pop
  flush_pushed f g h zero w = refl
  flush_pushed f g h (suc fuel) w =
      ap (λ s. flush call fuel (pop s)) (h w) ∙ flush_pushed f g h fuel (effect f w)
