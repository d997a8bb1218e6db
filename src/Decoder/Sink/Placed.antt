-- ===== src/Decoder/Sink/Placed.antt =====
-- src/tests/sc6f0-dante-rx.cpp: where a sink that `start_vdec_sink` starts shows its picture.
use qcap_demos.Prelude.{
  ◌≡◌, refl, Bool, true, false, ◌||◌, [], Option, none, some, ◌==◌, if◌then◌else◌, arith, ◌⊎◌, inl,
  inr,
}
use qcap_demos.Modeset.{Rect, fit_rect}
use qcap_demos.Modeset.Fit.{IsFit, fit_rect-IsFit}
use qcap_demos.Decoder.Sink.{
  SinkState, Size, Answered, drm_rect, showing, place_sink, start_vdec_sink,
}
use qcap_demos.Decoder.Sink.Held.{made, deleted, start-cases}

passed :
    {A : Type 0} (b : Bool) (o : Option A) (a : A)
    → (if b then none else o) ≡ some a
    → (b ≡ false) × (o ≡ some a)
passed true o a e = absurd (ground arith)
passed false o a e = (refl, e)

drm_rect-IsFit :
    (z : Size) (r : Rect) → drm_rect z ≡ some r → IsFit z.dec_width z.dec_height z.out_w z.out_h r
unfolding drm_rect
drm_rect-IsFit z r e =
    let through =
      passed (z.dec_width == 0 || z.dec_height == 0 || z.out_w == 0 || z.out_h == 0)
        (fit_rect z.dec_width z.dec_height z.out_w z.out_h) r e in
    fit_rect-IsFit z.dec_width z.dec_height z.out_w z.out_h r (ground (arith, through.0))
      (ground (arith, through.0)) through.1

-- What a start comes to.
abbrev pub Outcome : Size → SinkState → Answered → Type 0
Outcome z o a =
    ((a.ok ≡ false) × (a.output ≡ o) × (made a.calls ≡ deleted a.calls))
    ⊎ (((o.sink_started ≡ true) × (a.ok ≡ true) × (a.output ≡ o) × (a.calls ≡ []))
        ⊎ ((r : Rect) × IsFit z.dec_width z.dec_height z.out_w z.out_h r
            × (a.calls ≡ showing z r)
            × (a.ok ≡ true)
            × (a.output.sink_started ≡ true)))

placed :
    (starts : Bool) (z : Size) (o : SinkState) (r : Option Rect)
    → ((r' : Rect) → r ≡ some r' → IsFit z.dec_width z.dec_height z.out_w z.out_h r')
    → Outcome z o (place_sink starts z o r)
unfolding place_sink made deleted
placed starts z o none h = inl (refl, refl, refl)
placed true z o (some r) h = inr (inr (r, h r refl, refl, refl, refl))
placed false z o (some r) h = inl (refl, refl, refl)

-- Whatever qcap2 answers, a start of the sink fails, changes nothing and deletes what it makes; or finds a sink that is started and does nothing;
-- or starts a new sink on the decoder's plane, in a rectangle inside the output, even, in the middle, and with the
-- proportions of the decoded picture up to the rounding.
pub start_vdec_sink_lem :
    (given starts : Bool) (z : Size) (o : SinkState)
    → Outcome z o (start_vdec_sink given starts z o)
unfolding made deleted
start_vdec_sink_lem given starts z o =
    start-cases (Outcome z o) given starts z o
      (λ (running : o.sink_started ≡ true). inr (inl (running, refl, refl, refl)))
      (λ (_ : o.sink_started ≡ false). placed starts z o (drm_rect z) (drm_rect-IsFit z))
      (inl (refl, refl, refl))
