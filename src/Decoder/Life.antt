-- ===== src/Decoder/Life.antt =====
-- src/tests/sc6f0-dante-rx.cpp: the objects of the decoder, over the calls of a start.
pub mod Stop
pub mod Start
use qcap_demos.Prelude.{
  ℕ, ◌+◌, ◌≡◌, refl, Bool, true, false, ◌||◌, not, List, [], ◌∷◌, ◌++◌, if◌then◌else◌, arith,
  Bool-cases, inl, inr, ◌⊎◌,
}
use qcap_demos.Decoder.{
  Object, event, handlers, pool, decoder, Call, create, start, stop, delete, Session, Answers, Step,
  stopped, stop_async_calls, without_async, gives_up, setup_async, init_vdec_decoder, after_setup,
}

abbrev pub idle : Session
idle = record {
  has_handlers = false;
  has_pool = false;
  has_event = false;
  has_decoder = false;
  vdec_started = false;
  vdec_init_done = false;
}

abbrev pub running : Session
running = record {
  has_handlers = true;
  has_pool = true;
  has_event = true;
  has_decoder = true;
  vdec_started = true;
  vdec_init_done = true;
}

-- The calls of each kind, by a weight of the objects.
module _ (weight : Object → ℕ) where
  abbrev pub created : List Call → ℕ
  created [] = 0
  created (create o ∷ cs) = weight o + created cs
  created (start o ∷ cs) = created cs
  created (stop o ∷ cs) = created cs
  created (delete o ∷ cs) = created cs

  abbrev pub deleted : List Call → ℕ
  deleted [] = 0
  deleted (create o ∷ cs) = deleted cs
  deleted (start o ∷ cs) = deleted cs
  deleted (stop o ∷ cs) = deleted cs
  deleted (delete o ∷ cs) = weight o + deleted cs

  abbrev pub held : Session → ℕ
  held s =
      (if s.has_handlers then weight handlers else 0)
      + (if s.has_pool then weight pool else 0)
      + (if s.has_event then weight event else 0)
      + (if s.has_decoder then weight decoder else 0)

  abbrev prepared : Session
  prepared = record idle {
    has_handlers = true;
    has_pool = true;
    has_event = true;
    vdec_init_done = true;
  }

  -- Either all is there, or nothing of the decoder is left.
  abbrev pub Clean : Session → Step → Type 0
  Clean target done =
      ((done.ok ≡ true)
        × (done.session ≡ target)
        × (created done.calls ≡ held target)
        × (deleted done.calls ≡ 0))
      ⊎ ((done.ok ≡ false) × (done.session ≡ idle) × (created done.calls ≡ deleted done.calls))

  Clean-if :
      (target : Session) (b : Bool) (x y : Step)
      → Clean target x
      → Clean target y
      → Clean target (if b then x else y)
  Clean-if target true x y cx cy = cx
  Clean-if target false x y cx cy = cy

  pub created-append : (a b : List Call) → created (a ++ b) ≡ created a + created b
  created-append [] b = omega arith
  created-append (create o ∷ a) b = omega (arith, created-append a b)
  created-append (start o ∷ a) b = created-append a b
  created-append (stop o ∷ a) b = created-append a b
  created-append (delete o ∷ a) b = created-append a b

  pub deleted-append : (a b : List Call) → deleted (a ++ b) ≡ deleted a + deleted b
  deleted-append [] b = omega arith
  deleted-append (create o ∷ a) b = deleted-append a b
  deleted-append (start o ∷ a) b = deleted-append a b
  deleted-append (stop o ∷ a) b = deleted-append a b
  deleted-append (delete o ∷ a) b = omega (arith, deleted-append a b)

  setup_async-Clean : (a : Answers) → Clean prepared (setup_async a idle)
  unfolding setup_async gives_up stop_async_calls
  setup_async-Clean a = Clean-if prepared (not a.event_new) _ _ (inr (refl, refl, refl)) (
      Clean-if prepared (not a.event_start) _ _ (inr (refl, refl, omega arith)) (
        Clean-if prepared (not a.handlers_new) _ _ (inr (refl, refl, omega arith)) (
          Clean-if prepared (not a.handlers_start) _ _ (inr (refl, refl, omega arith)) (
            Clean-if prepared (not a.native_handle || not a.add_handler) _ _
              (inr (refl, refl, omega arith))
              (Clean-if prepared (not a.pool_new) _ _ (inr (refl, refl, omega arith)) (
                Clean-if prepared (not a.pool_start) _ _ (inr (refl, refl, omega arith))
                  (inl (refl, refl, omega arith, omega arith))))))))

  -- After a setup that succeeded, the decoder is made or nothing more is there than before.
  init-cases :
      (a : Answers)
      → let made = init_vdec_decoder a prepared in
        ((made.ok ≡ true)
          × (made.session ≡ running)
          × (created made.calls ≡ weight decoder)
          × (deleted made.calls ≡ 0))
        ⊎ ((made.ok ≡ false)
            × (made.session ≡ prepared)
            × (created made.calls ≡ deleted made.calls))
  unfolding init_vdec_decoder
  init-cases a = elim (Bool-cases a.decoder_new) [
    | inl new ↦ elim (Bool-cases a.decoder_start) [
      | inl up ↦ rw (new, up) (inl (refl, refl, omega arith, omega arith))
      | inr down ↦ rw (new, down) (inr (refl, refl, omega arith))
    ]
    | inr none' ↦ rw none' (inr (refl, refl, refl))
  ]

  after_setup-Clean : (a : Answers) (u : Step) → Clean prepared u → Clean running (after_setup a u)
  unfolding after_setup stop_async_calls
  after_setup-Clean a u (inr f) =
      rw (f.0, f.1)
        (inr (refl, refl, omega (arith, f.2, created-append u.calls [], deleted-append u.calls [])))
  after_setup-Clean a u (inl s) = elim (init-cases a) [
    | inl made ↦
        let calls = (init_vdec_decoder a prepared).calls in
        rw (s.0, s.1, made.0)
          (inl (
            refl,
            made.1,
            omega (arith, s.2, s.3, made.2, created-append u.calls calls),
            omega (arith, s.3, made.3, deleted-append u.calls calls),
          ))
    | inr lost ↦
        let calls = (init_vdec_decoder a prepared).calls in
        let freed = stop_async_calls prepared in
        rw (s.0, s.1, lost.0, lost.1)
          (inr (
            refl,
            refl,
            omega (
              arith,
              s.2,
              s.3,
              lost.2,
              created-append u.calls calls,
              deleted-append u.calls calls,
              created-append (u.calls ++ calls) freed,
              deleted-append (u.calls ++ calls) freed,
            ),
          ))
  ]

  -- The decoder's part of a start, from nothing.
  pub after_setup-idle : (a : Answers) → Clean running (after_setup a (setup_async a idle))
  after_setup-idle a = after_setup-Clean a (setup_async a idle) (setup_async-Clean a)
