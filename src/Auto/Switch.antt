-- ===== src/Auto/Switch.antt =====
-- src/tests/sc6f0-dante-rx.cpp: what the switch to the decoder has reached, whether it succeeds or not.
use qcap_demos.Prelude.{either, ℕ, ◌≡◌, Bool, true, false, ◌==◌, if◌then◌else◌, arith}
use qcap_demos.Auto.{
  Mixer, State, Round, start_audio, stop_drm_output, start_drm_output, select, switch_over,
}

module _ {D A : Type 0} (mixer : Mixer D A) (is_sdi : Bool) (fixed_w fixed_h : ℕ) where
  -- What an attempt has reached: as `IsExclusive`, where the display and, on an SDI output, the audio may still be on.
  pub record IsTried (s : State D) : Type 0 where
    pub shows : s.display_enabled ≡ s.avh_active
    pub sink : s.sink_started ≡ s.avh_active
    pub drm : s.avh_active ≡ true → s.drm_active ≡ true
    pub hidden : s.avh_active ≡ true → mixer.is_shown s.display ≡ false
    pub silent : s.avh_active ≡ false → is_sdi ≡ false → s.audio_started ≡ false

  start_drm_output-started :
      (r : Round A) (s : State D)
      → (start_drm_output is_sdi r s).0 ≡ true
      → (start_drm_output is_sdi r s).1.drm_active ≡ true
  unfolding start_drm_output start_audio
  start_drm_output-started r s = ground arith

  start_drm_output-silent :
      (r : Round A) (s : State D)
      → is_sdi ≡ false
      → s.audio_started ≡ false
      → (start_drm_output is_sdi r s).1.audio_started ≡ false
  unfolding start_drm_output stop_drm_output
  start_drm_output-silent r s = ground arith

  start_drm_output-display :
      (r : Round A) (s : State D) → (start_drm_output is_sdi r s).1.display ≡ s.display
  unfolding start_drm_output start_audio stop_drm_output
  start_drm_output-display r s = ground arith

  start_drm_output-active :
      (r : Round A) (s : State D) → (start_drm_output is_sdi r s).1.avh_active ≡ s.avh_active
  unfolding start_drm_output start_audio stop_drm_output
  start_drm_output-active r s = ground arith

  start_drm_output-shows :
      (r : Round A) (s : State D)
      → (start_drm_output is_sdi r s).1.display_enabled ≡ s.display_enabled
  unfolding start_drm_output start_audio stop_drm_output
  start_drm_output-shows r s = ground arith

  start_drm_output-sink :
      (r : Round A) (s : State D) → (start_drm_output is_sdi r s).1.sink_started ≡ s.sink_started
  unfolding start_drm_output start_audio stop_drm_output
  start_drm_output-sink r s = ground arith

  select-IsTried :
      (r : Round A) (s : State D)
      → IsTried s
      → s.drm_active ≡ true
      → mixer.is_shown s.display ≡ false
      → IsTried (select mixer is_sdi fixed_w fixed_h r s)
  unfolding select
  select-IsTried r s h hd hs = record {
    shows = ground (arith, h.shows);
    sink = ground (arith, h.sink);
    drm = ground (arith, h.drm);
    hidden = ground (arith, h.hidden);
    silent = ground (arith, h.silent);
  }

  start_drm_output-IsTried :
      (r : Round A) (s : State D)
      → IsTried s
      → s.avh_active ≡ false
      → IsTried (start_drm_output is_sdi r s).1
  start_drm_output-IsTried r s h ha = record {
    shows = ground (arith, h.shows, start_drm_output-shows r s, start_drm_output-active r s);
    sink = ground (arith, h.sink, start_drm_output-sink r s, start_drm_output-active r s);
    drm = ground (arith, ha, start_drm_output-active r s);
    hidden = ground (arith, ha, start_drm_output-active r s);
    silent = λ (_ : (start_drm_output is_sdi r s).1.avh_active ≡ false) (hi : is_sdi ≡ false).
        start_drm_output-silent r s hi (h.silent ha hi);
  }

  switched :
      (r : Round A) (s : State D)
      → IsTried s
      → s.avh_active ≡ false
      → mixer.is_shown s.display ≡ false
      → IsTried (
          if (start_drm_output is_sdi r s).0
          then select mixer is_sdi fixed_w fixed_h r (start_drm_output is_sdi r s).1
          else (start_drm_output is_sdi r s).1)
  switched r s h ha hs =
      let ht : IsTried (start_drm_output is_sdi r s).1 = start_drm_output-IsTried r s h ha in
      either IsTried (start_drm_output is_sdi r s).0
        (λ (hd : (start_drm_output is_sdi r s).0 ≡ true).
          select-IsTried r (start_drm_output is_sdi r s).1 ht (start_drm_output-started r s hd)
            (rw (start_drm_output-display r s) hs))
        (λ (_ : (start_drm_output is_sdi r s).0 ≡ false). ht)

  -- The display does not matter while the decoder is not selected.
  display-IsTried :
      (s : State D) (d : D) → IsTried s → s.avh_active ≡ false → IsTried (record s { display = d })
  display-IsTried s d h ha = record {
    shows = h.shows;
    sink = h.sink;
    drm = h.drm;
    hidden = ground (arith, ha);
    silent = h.silent;
  }

  pub switch_over-IsTried :
      (r : Round A) (s : State D)
      → IsTried s
      → s.avh_active ≡ false
      → IsTried (switch_over mixer is_sdi fixed_w fixed_h r s)
  unfolding switch_over
  switch_over-IsTried r s h ha =
      let w : ℕ = (mixer.size s.display).0 in
      let w' : ℕ = if w == 0 then fixed_w else w in
      let height : ℕ = (mixer.size s.display).1 in
      let height' : ℕ = if height == 0 then fixed_h else height in
      let d : D = (mixer.turn_off r.off w' height' s.display).1 in
      let hd : IsTried (record s { display = d }) = display-IsTried s d h ha in
      either IsTried (mixer.turn_off r.off w' height' s.display).0
        (λ (ho : (mixer.turn_off r.off w' height' s.display).0 ≡ true).
          switched r (record s { display = d }) hd ha
            (mixer.turn_off-hides r.off w' height' s.display ho))
        (λ (_ : (mixer.turn_off r.off w' height' s.display).0 ≡ false). hd)
