-- ===== src/Auto/Exclusive.antt =====
-- src/tests/sc6f0-dante-rx.cpp: the decoder and the overlay of Ultra are never shown together.
use qcap_demos.Prelude.{
  either, ℕ, ◌≡◌, refl, Bool, true, false, ◌&&◌, not, List, [], ◌∷◌, if◌then◌else◌, arith,
}
use qcap_demos.Auto.{
  Mixer, State, Round, notice, is_ready, start_audio, stop_drm_output, switch_over, fall_back,
  attempt, leave, round, Event, rounds, notified, handle, run,
}
use qcap_demos.Auto.Switch.{IsTried, switch_over-IsTried}

module _ {D A : Type 0} (mixer : Mixer D A) where
  -- While the decoder is selected its frames are shown, its sink and its display are started and the overlay is hidden;
  -- otherwise its frames are not shown, and its sink, its display and its audio are stopped.
  pub record IsExclusive (s : State D) : Type 0 where
    pub shows : s.display_enabled ≡ s.avh_active
    pub sink : s.sink_started ≡ s.avh_active
    pub drm : s.drm_active ≡ s.avh_active
    pub hidden : s.avh_active ≡ true → mixer.is_shown s.display ≡ false
    pub silent : s.avh_active ≡ false → s.audio_started ≡ false

module _ {D A : Type 0} (mixer : Mixer D A) (is_sdi : Bool) (fixed_w fixed_h : ℕ) where
  notice-IsExclusive :
      (r : Round A) (s : State D) → IsExclusive mixer s → IsExclusive mixer (notice r s)
  unfolding notice
  notice-IsExclusive r s h = record {
    shows = ground (arith, h.shows);
    sink = ground (arith, h.sink);
    drm = ground (arith, h.drm);
    hidden = ground (arith, h.hidden);
    silent = ground (arith, h.silent);
  }

  fallen :
      (r : Round A) (s : State D)
      → IsTried mixer is_sdi fixed_w fixed_h s
      → s.avh_active ≡ false
      → IsExclusive mixer (fall_back mixer is_sdi fixed_w fixed_h r s)
  unfolding fall_back stop_drm_output
  fallen r s h ha = record {
    shows = h.shows;
    sink = h.sink;
    drm = ground (arith, ha);
    hidden = ground (arith, ha);
    silent = ground (arith, ha, h.silent);
  }

  succeeded :
      (r : Round A) (s : State D)
      → IsTried mixer is_sdi fixed_w fixed_h s
      → s.avh_active ≡ true
      → IsExclusive mixer (start_audio is_sdi r.audio_starts_then s)
  unfolding start_audio
  succeeded r s h ha = record {
    shows = ground (arith, h.shows);
    sink = ground (arith, h.sink);
    drm = ground (arith, h.drm, ha);
    hidden = ground (arith, h.hidden);
    silent = ground (arith, ha);
  }

  IsExclusive-IsTried :
      (s : State D)
      → IsExclusive mixer s
      → s.avh_active ≡ false
      → IsTried mixer is_sdi fixed_w fixed_h s
  IsExclusive-IsTried s h ha = record {
    shows = h.shows;
    sink = h.sink;
    drm = ground (arith, h.drm);
    hidden = h.hidden;
    silent = λ (hf : s.avh_active ≡ false) (_ : is_sdi ≡ false). h.silent hf;
  }

  attempt-IsExclusive :
      (r : Round A) (s : State D)
      → IsExclusive mixer s
      → s.avh_active ≡ false
      → IsExclusive mixer (attempt mixer is_sdi fixed_w fixed_h r s)
  unfolding attempt
  attempt-IsExclusive r s h ha =
      let tried : State D = switch_over mixer is_sdi fixed_w fixed_h r s in
      let ht : IsTried mixer is_sdi fixed_w fixed_h tried =
        switch_over-IsTried mixer is_sdi fixed_w fixed_h r s (IsExclusive-IsTried s h ha) ha in
      either (IsExclusive mixer) tried.avh_active (succeeded r tried ht) (fallen r tried ht)

  leave-IsExclusive :
      (r : Round A) (s : State D) → IsExclusive mixer (leave mixer is_sdi fixed_w fixed_h r s)
  unfolding leave
  leave-IsExclusive r s = record {
    shows = refl;
    sink = refl;
    drm = refl;
    hidden = ground arith;
    silent = λ (_ : false ≡ false). refl;
  }

  is_ready-inactive : (r : Round A) (s : State D) → is_ready r s ≡ true → s.avh_active ≡ false
  unfolding is_ready
  is_ready-inactive r s = ground arith

  round-IsExclusive :
      (r : Round A) (s : State D)
      → IsExclusive mixer s
      → IsExclusive mixer (round mixer is_sdi fixed_w fixed_h r s)
  unfolding round
  round-IsExclusive r s h =
      let noticed : State D = notice r s in
      let hn : IsExclusive mixer noticed = notice-IsExclusive r s h in
      let s' : State D =
        if is_ready r noticed then attempt mixer is_sdi fixed_w fixed_h r noticed else noticed in
      either (IsExclusive mixer) (not r.flow && s'.avh_active)
        (λ (_ : (not r.flow && s'.avh_active) ≡ true). leave-IsExclusive r s')
        (λ (_ : (not r.flow && s'.avh_active) ≡ false).
          either (IsExclusive mixer) (is_ready r noticed)
            (λ (hr : is_ready r noticed ≡ true).
              attempt-IsExclusive r noticed hn (is_ready-inactive r noticed hr))
            (λ (_ : is_ready r noticed ≡ false). hn))

  notified-hidden :
      (active : Bool) (a : A) (d : D)
      → (active ≡ true → mixer.is_shown d ≡ false)
      → active ≡ true
      → mixer.is_shown (mixer.notify active a d) ≡ false
  notified-hidden true a d h e = mixer.notify-hidden a d (h refl)
  notified-hidden false a d h e = ground (arith, e)

  handle-IsExclusive :
      (e : Event A) (s : State D)
      → IsExclusive mixer s
      → IsExclusive mixer (handle mixer is_sdi fixed_w fixed_h e s)
  unfolding handle
  handle-IsExclusive (rounds r) s h = round-IsExclusive r s h
  handle-IsExclusive (notified a) s h = record {
    shows = h.shows;
    sink = h.sink;
    drm = h.drm;
    hidden = notified-hidden s.avh_active a s.display h.hidden;
    silent = h.silent;
  }

  -- Over any rounds and notifications of the automatic mode, the decoder's frames, its sink and its display are on
  -- exactly while the decoder is selected, and then the mixer does not show the overlay of Ultra; while it is not
  -- selected its audio is stopped too.
  pub run-IsExclusive :
      (es : List (Event A)) (s : State D)
      → IsExclusive mixer s
      → IsExclusive mixer (run mixer is_sdi fixed_w fixed_h es s)
  unfolding run
  run-IsExclusive [] s h = h
  run-IsExclusive (e ∷ es) s h =
      run-IsExclusive es (handle mixer is_sdi fixed_w fixed_h e s) (handle-IsExclusive e s h)
