-- ===== src/Dau/Audio.antt =====
-- What is known of the audio after a notification.
use qcap_demos.Prelude.{◌≡◌, refl, true, false, ◌||◌, not, some, arith, Bool-cases, inl, inr}
use qcap_demos.Dau.{AudioInfo, differs, Known, dau_set_audio_info}

same-fields : (info previous : AudioInfo) → differs info previous ≡ false → previous ≡ info
unfolding differs
same-fields info previous h =
    let e0 : previous.channel_count ≡ info.channel_count = ground arith in
    let e1 : previous.speaker_map ≡ info.speaker_map = ground arith in
    let e2 : previous.level_shift_value ≡ info.level_shift_value = ground arith in
    let e3 : previous.downmix_inhibit ≡ info.downmix_inhibit = ground arith in
    let e4 : previous.lfe_playback_level ≡ info.lfe_playback_level = ground arith in
    let e5 : previous.sample_rate ≡ info.sample_rate = ground arith in
    let e6 : previous.encoding ≡ info.encoding = ground arith in
    let e7 : previous.sample_bits ≡ info.sample_bits = ground arith in
    λ i. record {
      channel_count = e0 i;
      speaker_map = e1 i;
      level_shift_value = e2 i;
      downmix_inhibit = e3 i;
      lfe_playback_level = e4 i;
      sample_rate = e5 i;
      encoding = e6 i;
      sample_bits = e7 i;
    }

-- After a notification of audio, it is what is known, whether it was a change or not.
pub dau_set_audio_info_lem :
    (known : Known) (info : AudioInfo)
    → dau_set_audio_info known (some info)
      ≡ record { last_audio_info = info; have_last_audio_info = true }
unfolding dau_set_audio_info
dau_set_audio_info_lem known info =
    elim (Bool-cases (not known.have_last_audio_info || differs info known.last_audio_info)) [
      | inl new ↦ rw new refl
      | inr same ↦
          let have : known.have_last_audio_info ≡ true = ground arith in
          let equal = same-fields info known.last_audio_info (ground arith) in
          rw same (λ i. record { last_audio_info = equal i; have_last_audio_info = have i })
    ]
