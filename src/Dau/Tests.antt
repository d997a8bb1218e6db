-- ===== src/Dau/Tests.antt =====
-- Answers to the DAU service, and the theorems at them.
use qcap_demos.Prelude.{◌≡◌, refl, true, false, none, some, replicate}
use qcap_demos.RxOutput.{is_valid_edid}
use qcap_demos.Text.{starts_with}
use qcap_demos.Dau.{
  read_connector_edid, no_hdcp, hdcp_22, dau_get_hdcp, dau_set_hdcp, dau_get_cable_status,
  AudioInfo, Known,
}

no_hdcp_on_sdi :
    ((dau_get_hdcp true).current ≡ no_hdcp)
    × (dau_set_hdcp true hdcp_22 ≡ false)
    × (dau_set_hdcp false hdcp_22 ≡ true)
    × (dau_get_cable_status none ≡ false)
unfolding dau_get_hdcp dau_set_hdcp dau_get_cable_status
no_hdcp_on_sdi = (refl, refl, refl, refl)

-- A blob of zeros is not taken for an EDID.
zeros_refused : read_connector_edid (some (replicate 128 0)) ≡ none
unfolding read_connector_edid is_valid_edid starts_with
zeros_refused = refl

abbrev stereo : AudioInfo
stereo = record {
  channel_count = 2;
  speaker_map = 3;
  level_shift_value = 0;
  downmix_inhibit = 0;
  lfe_playback_level = 0;
  sample_rate = 48000;
  encoding = 1;
  sample_bits = 24;
}

abbrev nothing_yet : Known
nothing_yet = record { last_audio_info = stereo; have_last_audio_info = false }
