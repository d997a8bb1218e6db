-- ===== src/Zz/Pace.antt =====
-- src/zzlab/ZzUtils.h, src/zzlab/ZzUtils.cpp: `FPSControl`, which picks frames, `SetNextTimer` and
-- `NextId`. The frame rates are whole numbers, which the doubles of the source hold exactly.
use qcap_demos.Prelude.{
  ℕ, zero, suc, ◌+◌, ◌-◌, ◌*◌, ◌/◌, ◌%◌, ◌^◌, ◌≤◌, ◌<◌, ◌≡◌, refl, subst, ◌∙◌, Bool, true, false,
  ltb, if◌then◌else◌, arith,
}

pub record FpsPicker : Type 0 where
  pub src_fps : ℕ
  pub dst_fps : ℕ
  pub state : ℕ

unfoldable pub reset : FpsPicker → FpsPicker
reset p = record p { state = 0 }

-- Whether the frame is taken.
unfoldable pub tick : FpsPicker → Bool × FpsPicker
tick p =
    let state = p.state + p.dst_fps in
    if ltb state p.src_fps
    then (false, record p { state = state })
    else (true, record p { state = state - p.src_fps })

-- The frames that are taken among `n`.
unfoldable pub taken : ℕ → FpsPicker → ℕ × FpsPicker
taken zero p = (0, p)
taken (suc n) p =
    let (is_taken, p') = tick p in
    let (more, p'') = taken n p' in (if is_taken then suc more else more, p'')

abbrev pub IsPicked : ℕ → FpsPicker → ℕ × FpsPicker → Type 0
IsPicked n p (k, p') =
    (k * p.src_fps + p'.state ≡ n * p.dst_fps + p.state)
    × (p'.state < p.src_fps)
    × (p'.src_fps ≡ p.src_fps)
    × (p'.dst_fps ≡ p.dst_fps)

tick_lem :
    (p : FpsPicker)
    → p.dst_fps ≤ p.src_fps
    → p.state < p.src_fps
    → ((if (tick p).0 then p.src_fps else 0) + (tick p).1.state ≡ p.state + p.dst_fps)
      × ((tick p).1.state < p.src_fps)
      × ((tick p).1.src_fps ≡ p.src_fps)
      × ((tick p).1.dst_fps ≡ p.dst_fps)
unfolding tick
tick_lem p h hs = ground arith

one_more :
    (b : Bool) (k n src dst s t u : ℕ)
    → (if b then src else 0) + t ≡ s + dst
    → k * src + u ≡ n * dst + t
    → (if b then suc k else k) * src + u ≡ suc n * dst + s
one_more true k n src dst s t u h g = grind arith
one_more false k n src dst s t u h g = grind arith

-- From a rate to one that is not higher, after any number of ticks: the frames that were taken times the old
-- rate and what is kept make up the ticks times the new rate and what was kept before, and what is kept stays
-- below the old rate, so the frames that are taken never stray from the new rate by a whole frame.
pub taken-IsPicked :
    (n : ℕ) (p : FpsPicker) → p.dst_fps ≤ p.src_fps → p.state < p.src_fps → IsPicked n p (taken n p)
unfolding taken
taken-IsPicked zero p h hs = (omega arith, hs, refl, refl)
taken-IsPicked (suc n) p h hs =
    let (sum, below, src, dst) = tick_lem p h hs in
    let (a, b, c, d) = taken-IsPicked n (tick p).1 (omega arith) (omega arith) in
    let a' =
      subst
        (λ s.
          (taken n (tick p).1).0 * s + (taken n (tick p).1).1.state
          ≡ n * p.dst_fps + (tick p).1.state)
        src
        (subst
          (λ d.
            (taken n (tick p).1).0 * (tick p).1.src_fps + (taken n (tick p).1).1.state
            ≡ n * d + (tick p).1.state)
          dst a) in
    (
      one_more (tick p).0 (taken n (tick p).1).0 n p.src_fps p.dst_fps p.state (tick p).1.state
          (taken n (tick p).1).1.state sum a',
      omega arith,
      c ∙ src,
      d ∙ dst,
    )

-- The seconds and nanoseconds of a timer, from microseconds.
unfoldable pub timer_spec : ℕ → ℕ × ℕ
timer_spec duration = (duration / 1000000, duration % 1000000 * 1000)

-- The id after `id`, an int; the first is 1.
unfoldable pub next_id : ℕ → ℕ
next_id id = (id + 1) % 2 ^ 32

-- src/zzlab/ZzClock.cpp: the microseconds of the monotonic clock.
unfoldable pub get_time : ℕ → ℕ → ℕ
get_time sec nsec = sec * 1000000 + nsec / 1000
