-- ===== src/Decoder/Life/Start.antt =====
-- src/tests/sc6f0-dante-rx.cpp: what the thread of `start_vdec_decoder_async` leaves, of the decoder and of the display.
use qcap_demos.Prelude.{
  ℕ, ◌+◌, ◌≡◌, refl, Bool, true, false, not, [], Option, none, some, if◌then◌else◌, arith, either,
  inl, inr, ◌⊎◌,
}
use qcap_demos.Modeset.{Rect}
use qcap_demos.Decoder.Sink.{SinkState, Size, Answered, place_sink, start_vdec_sink, drm_rect}
use qcap_demos.Decoder.Sink.Held.{made, deleted, held, IsKept, start-cases, start-counts}
use qcap_demos.Decoder.{
  Object, Answers, Step, Started, after_setup, setup_async, start_drm_output, start_display,
  start_vdec,
}
use qcap_demos.Decoder.Life.{idle, running, Clean, after_setup-idle}

start_drm_output-active :
    (starts : Bool) (o : SinkState)
    → (start_drm_output starts o).0 ≡ true
    → (start_drm_output starts o).1.drm_active ≡ true
unfolding start_drm_output
start_drm_output-active starts o = ground arith

start_drm_output-IsKept :
    (starts : Bool) (o : SinkState) → IsKept o → IsKept (start_drm_output starts o).1
unfolding start_drm_output
start_drm_output-IsKept starts o h = ground (arith, h)

start_drm_output-held :
    (starts : Bool) (o : SinkState) → held (start_drm_output starts o).1 ≡ held o
unfolding start_drm_output
start_drm_output-held starts o = ground arith

-- The output and its sink are on.
abbrev pub IsLit : SinkState → Type 0
IsLit o = (o.drm_active ≡ true) × (o.sink_started ≡ true)

abbrev LitIfOk : Answered → Type 0
LitIfOk r = (r.ok ≡ false) ⊎ ((r.ok ≡ true) × IsLit r.output)

place_sink-LitIfOk :
    (starts : Bool) (z : Size) (o : SinkState) (r : Option Rect)
    → o.drm_active ≡ true
    → LitIfOk (place_sink starts z o r)
unfolding place_sink
place_sink-LitIfOk starts z o none h = inl refl
place_sink-LitIfOk true z o (some r) h = inr (refl, (h, refl))
place_sink-LitIfOk false z o (some r) h = inl refl

start_vdec_sink-LitIfOk :
    (given starts : Bool) (z : Size) (o : SinkState)
    → o.drm_active ≡ true
    → LitIfOk (start_vdec_sink given starts z o)
start_vdec_sink-LitIfOk given starts z o h =
    start-cases LitIfOk given starts z o (λ (on : o.sink_started ≡ true). inr (refl, (h, on)))
      (λ (_ : o.sink_started ≡ false). place_sink-LitIfOk starts z o (drm_rect z) h) (inl refl)

-- What the start of the display comes to: it fails; or it is disabled and nothing is changed, or all is on.
abbrev pub IsStarted : Answers → SinkState → Answered → Type 0
IsStarted a o r =
    (r.ok ≡ false)
    ⊎ ((r.ok ≡ true) × (((a.display_enabled ≡ false) × (r.output ≡ o)) ⊎ IsLit r.output))

abbrev pub IsBalanced : SinkState → Answered → Type 0
IsBalanced o r = held o + made r.calls ≡ held r.output + deleted r.calls

lit : (a : Answers) (o : SinkState) (r : Answered) → LitIfOk r → IsStarted a o r
lit a o r (inl failed) = inl failed
lit a o r (inr on) = inr (on.0, inr on.1)

-- The two outcomes of a test of three.
display-cases :
    (P : Answered → Type 0) (a : Answers) (o : SinkState)
    → (a.display_enabled ≡ false → P (record { ok = true; output = o; calls = [] }))
    → P (record { ok = false; output = (start_drm_output a.drm_starts o).1; calls = [] })
    → ((start_drm_output a.drm_starts o).0 ≡ true
        → P (start_vdec_sink a.sink_made a.sink_starts a.size (start_drm_output a.drm_starts o).1))
    → P (start_display a o)
unfolding start_display
display-cases P a o disabled dark shown =
    either P (not a.display_enabled)
      (λ (h : not a.display_enabled ≡ true). disabled (ground (arith, h)))
      (λ (_ : not a.display_enabled ≡ false).
        either P (start_drm_output a.drm_starts o).0 shown
          (λ (_ : (start_drm_output a.drm_starts o).0 ≡ false). dark))

start_display-IsStarted : (a : Answers) (o : SinkState) → IsStarted a o (start_display a o)
start_display-IsStarted a o =
    display-cases (IsStarted a o) a o
      (λ (off : a.display_enabled ≡ false). inr (refl, inl (off, refl))) (inl refl)
      (λ (up : (start_drm_output a.drm_starts o).0 ≡ true).
        lit a o
          (start_vdec_sink a.sink_made a.sink_starts a.size (start_drm_output a.drm_starts o).1)
          (start_vdec_sink-LitIfOk a.sink_made a.sink_starts a.size
            (start_drm_output a.drm_starts o).1 (start_drm_output-active a.drm_starts o up)))

balance_dark : (x y : ℕ) → y ≡ x → x + 0 ≡ y + 0
balance_dark x y e = omega (arith, e)

balance_on : (x y m r : ℕ) → y ≡ x → y + m ≡ r → x + m ≡ r
balance_on x y m r e h = omega (arith, e, h)

start_display-IsBalanced :
    (a : Answers) (o : SinkState) → IsKept o → IsBalanced o (start_display a o)
unfolding made deleted
start_display-IsBalanced a o h =
    let o' : SinkState = (start_drm_output a.drm_starts o).1 in
    let same : held o' ≡ held o = start_drm_output-held a.drm_starts o in
    let counts =
      start-counts a.sink_made a.sink_starts a.size o' (start_drm_output-IsKept a.drm_starts o h) in
    display-cases (IsBalanced o) a o (λ (_ : a.display_enabled ≡ false). refl)
      (balance_dark (held o) (held o') same)
      (λ (_ : (start_drm_output a.drm_starts o).0 ≡ true).
        balance_on (held o) (held o') _ _ same counts)

module _ (weight : Object → ℕ) where
  -- What the start of the decoder comes to: the display fails and the decoder is not begun; or the display is as its
  -- start left it, and the decoder runs with all its objects, or nothing of it is left.
  abbrev pub Ends : Answers → SinkState → Started → Type 0
  Ends a o r =
      ((r.display.ok ≡ false)
        × (r.decoder.ok ≡ false)
        × (r.decoder.session ≡ idle)
        × (r.decoder.calls ≡ []))
      ⊎ ((((a.display_enabled ≡ false) × (r.display.output ≡ o)) ⊎ IsLit r.display.output)
          × Clean weight running r.decoder)

  ended :
      (a : Answers) (o : SinkState) (d : Answered) (made : Step)
      → IsStarted a o d
      → Clean weight running made
      → Ends a o (record {
        decoder = if d.ok then made else record { ok = false; session = idle; calls = [] };
        display = d;
      })
  ended a o d made (inl failed) c = rw failed (inl (refl, refl, refl, refl))
  ended a o d made (inr on) c = rw on.0 (inr (on.1, c))

  -- From no decoder, where a sink that the receiver has is one that is started, and whatever the calls answer. A display
  -- that does not start leaves the decoder untouched. Otherwise the display is as it was if it is disabled, or its
  -- output and its sink are on, and stay so, even if the decoder fails; and the decoder either runs with all its objects,
  -- none of them deleted, or each of its objects was deleted as often as it was made. In each case the sinks that were
  -- made are those deleted and the one that is held.
  pub start_vdec_lem :
      (a : Answers) (o : SinkState)
      → IsKept o
      → let done = start_vdec a idle o in Ends a o done × IsBalanced o done.display
  unfolding start_vdec
  start_vdec_lem a o h = (
    ended a o (start_display a o) (after_setup a (setup_async a idle)) (start_display-IsStarted a o)
        (after_setup-idle weight a),
    start_display-IsBalanced a o h,
  )
