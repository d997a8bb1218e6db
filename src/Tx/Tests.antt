-- ===== src/Tx/Tests.antt =====
-- Runs of the transmitter, and the theorems at them.
use qcap_demos.Prelude.{◌≡◌, refl, true, false, List, [], ◌∷◌}
use qcap_demos.Tx.{
  Codes, Found, initial, on_dmx, new_video, new_audio, publish_video, publish_audio, video_change,
  cable_change, audio_change,
}
use qcap_demos.Tx.Clients.{IsCurrent, serve, new_client, serve-IsCurrent}

abbrev codes : Codes
codes = record { yuv444 = 3; fr_fl = 1; lpcm = 1 }

abbrev linked : Found
linked = record {
  is_updated = true;
  color_space = 5;
  video_width = 1920;
  video_height = 1080;
  is_interleaved = false;
  frame_rate = 60;
  vsrc_starts = true;
  venc_starts = true;
  audio_channels = 2;
  audio_bits = 16;
  audio_rate = 48000;
  asrc_starts = true;
  aenc_starts = true;
}

-- The video goes on, the audio changes; then the link is lost.
abbrev changes : List Found
changes =
    linked
    ∷ record linked { audio_rate = 44100 }
    ∷ record linked { color_space = 0; audio_channels = 0 }
    ∷ []

serve-IsCurrent_example :
    IsCurrent (serve codes changes initial new_client).0 (serve codes changes initial new_client).1
serve-IsCurrent_example = serve-IsCurrent codes changes

first_signals :
    (on_dmx codes true linked initial).1 ≡ cable_change ∷ video_change ∷ audio_change ∷ []
unfolding on_dmx new_video new_audio publish_video publish_audio
first_signals = refl

-- The sources were stopped, but the format of the link that was lost is still published.
stale_after_failure :
    (on_dmx codes true
      (record linked { vsrc_starts = false })
      (on_dmx codes true linked initial).0).0.video.locked
    ≡ true
unfolding on_dmx new_video new_audio publish_video publish_audio
stale_after_failure = refl
