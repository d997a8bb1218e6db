-- ===== src/Dau.antt =====
-- src/tests/sc6f0-dante-rx.cpp: what the receiver answers to the DAU service about EDID, HDCP and
-- audio (`read_connector_edid`, `dau_get_edid`, `dau_get_hdcp`, `dau_set_hdcp`,
-- `dau_get_cable_status` and `dau_set_audio_info`).
pub mod Edid
pub mod Audio
mod Tests
use qcap_demos.Prelude.{
  ℕ, ◌-◌, Bool, true, false, ◌&&◌, ◌||◌, not, List, [], ◌∷◌, ◌++◌, Option, none, some, min, length,
  take, replicate, ltb, ◌==◌, if◌then◌else◌,
}
use qcap_demos.RxOutput.{is_valid_edid, sdi_capabilities}

abbrev pub edid_len : ℕ
edid_len = 256

unfoldable pub g_fallback_edid : List ℕ
g_fallback_edid =
    0x00 ∷ 0xff ∷ 0xff ∷ 0xff ∷ 0xff ∷ 0xff ∷ 0xff ∷ 0x00 ∷ 0x61 ∷ 0x98 ∷ 0x34 ∷ 0x12 ∷ 0x78 ∷ 0x56
    ∷ 0x34 ∷ 0x12 ∷ 0x03 ∷ 0x1c ∷ 0x01 ∷ 0x03 ∷ 0x80 ∷ 0x59 ∷ 0x32 ∷ 0x78 ∷ 0x0a ∷ 0xee ∷ 0x91
    ∷ 0xa3 ∷ 0x54 ∷ 0x4c ∷ 0x99 ∷ 0x26 ∷ 0x0f ∷ 0x50 ∷ 0x54 ∷ 0x21 ∷ 0x08 ∷ 0x00 ∷ 0x71 ∷ 0x4f
    ∷ 0x81 ∷ 0xc0 ∷ 0x81 ∷ 0x00 ∷ 0x81 ∷ 0x80 ∷ 0x95 ∷ 0x00 ∷ 0xa9 ∷ 0xc0 ∷ 0xb3 ∷ 0x00 ∷ 0x01
    ∷ 0x01 ∷ 0x02 ∷ 0x3a ∷ 0x80 ∷ 0x18 ∷ 0x71 ∷ 0x38 ∷ 0x2d ∷ 0x40 ∷ 0x58 ∷ 0x2c ∷ 0x45 ∷ 0x00
    ∷ 0x20 ∷ 0xc2 ∷ 0x31 ∷ 0x00 ∷ 0x00 ∷ 0x1e ∷ 0x00 ∷ 0x00 ∷ 0x00 ∷ 0xfc ∷ 0x00 ∷ 0x58 ∷ 0x49
    ∷ 0x4c ∷ 0x49 ∷ 0x4e ∷ 0x58 ∷ 0x20 ∷ 0x48 ∷ 0x44 ∷ 0x4d ∷ 0x49 ∷ 0x0a ∷ 0x20 ∷ 0x00 ∷ 0x00
    ∷ 0x00 ∷ 0xfd ∷ 0x00 ∷ 0x18 ∷ 0x4b ∷ 0x0f ∷ 0x8c ∷ 0x3c ∷ 0x00 ∷ 0x0a ∷ 0x20 ∷ 0x20 ∷ 0x20
    ∷ 0x20 ∷ 0x20 ∷ 0x20 ∷ 0x00 ∷ 0x00 ∷ 0x00 ∷ 0x10 ∷ 0x00 ∷ 0x00 ∷ 0x00 ∷ 0x00 ∷ 0x00 ∷ 0x00
    ∷ 0x00 ∷ 0x00 ∷ 0x00 ∷ 0x00 ∷ 0x00 ∷ 0x00 ∷ 0x00 ∷ 0x00 ∷ 0x01 ∷ 0x36 ∷ 0x02 ∷ 0x03 ∷ 0x3d
    ∷ 0x70 ∷ 0x5c ∷ 0x61 ∷ 0x10 ∷ 0x1f ∷ 0x21 ∷ 0x20 ∷ 0x5d ∷ 0x5e ∷ 0x5f ∷ 0x60 ∷ 0x65 ∷ 0x66
    ∷ 0x62 ∷ 0x63 ∷ 0x64 ∷ 0x48 ∷ 0x67 ∷ 0x68 ∷ 0x69 ∷ 0x6b ∷ 0x6a ∷ 0x22 ∷ 0x3e ∷ 0x04 ∷ 0x3e
    ∷ 0x3d ∷ 0x41 ∷ 0x43 ∷ 0x45 ∷ 0x23 ∷ 0x09 ∷ 0x07 ∷ 0x07 ∷ 0x6d ∷ 0x03 ∷ 0x0c ∷ 0x00 ∷ 0x10
    ∷ 0x00 ∷ 0x78 ∷ 0x3c ∷ 0x20 ∷ 0x00 ∷ 0x60 ∷ 0x01 ∷ 0x02 ∷ 0x03 ∷ 0x67 ∷ 0xd8 ∷ 0x5d ∷ 0xc4
    ∷ 0x01 ∷ 0x78 ∷ 0x80 ∷ 0x07 ∷ 0xe1 ∷ 0x0f ∷ 0x02 ∷ 0x3a ∷ 0x80 ∷ 0x18 ∷ 0x71 ∷ 0x38 ∷ 0x2d
    ∷ 0x40 ∷ 0x58 ∷ 0x2c ∷ 0x45 ∷ 0x00 ∷ 0x20 ∷ 0xc2 ∷ 0x31 ∷ 0x00 ∷ 0x00 ∷ 0x1e ∷ 0x08 ∷ 0xe8
    ∷ 0x00 ∷ 0x30 ∷ 0xf2 ∷ 0x70 ∷ 0x5a ∷ 0x80 ∷ 0xb0 ∷ 0x58 ∷ 0x8a ∷ 0x00 ∷ 0x20 ∷ 0xc2 ∷ 0x31
    ∷ 0x00 ∷ 0x00 ∷ 0x1e ∷ 0x04 ∷ 0x74 ∷ 0x00 ∷ 0x30 ∷ 0xf2 ∷ 0x70 ∷ 0x5a ∷ 0x80 ∷ 0xb0 ∷ 0x58
    ∷ 0x8a ∷ 0x00 ∷ 0x20 ∷ 0x52 ∷ 0x31 ∷ 0x00 ∷ 0x00 ∷ 0x1e ∷ 0x00 ∷ 0x00 ∷ 0x00 ∷ 0x00 ∷ 0x00
    ∷ 0x00 ∷ 0x00 ∷ 0x00 ∷ 0x00 ∷ 0x00 ∷ 0x00 ∷ 0x00 ∷ 0x2c ∷ []

-- What is read of the connector: nothing without an open device, a connector or its property; else
-- the blob, if the property names one that can be read.
unfoldable pub read_connector_edid : Option (List ℕ) → Option (List ℕ)
read_connector_edid none = none
read_connector_edid (some blob) =
    let copy_len = min (length blob) edid_len in
    let copied = take copy_len blob in
    if ltb (length blob) 128
    then none
    else if is_valid_edid copied
    then some (copied ++ replicate (edid_len - copy_len) 0)
    else none

-- The fixed mode of the command line, if there is one: width, height and frames a second.
pub record Fixed : Type 0 where
  pub width : ℕ
  pub height : ℕ
  pub fps : ℕ

unfoldable pub sdi_edid : Option Fixed → Option (List ℕ)
sdi_edid none = none
sdi_edid (some f) = sdi_capabilities f.width f.height f.fps

unfoldable pub or_fallback : Option (List ℕ) → List ℕ
or_fallback none = g_fallback_edid
or_fallback (some edid) = edid

-- `none` is an error reply.
unfoldable pub dau_get_edid : Bool → Option Fixed → Option (List ℕ) → Option (List ℕ)
unfolding sdi_edid or_fallback
dau_get_edid is_sdi fixed blob =
    if is_sdi then sdi_edid fixed else some (or_fallback (read_connector_edid blob))

-- `HDCP_VERSION_NONE`, 1.4 and 2.2.
pub data Hdcp : Type 0 where
  no_hdcp hdcp_14 hdcp_22 : Hdcp

pub record HdcpStatus : Type 0 where
  pub current : Hdcp
  pub hdcp14_supported : Bool
  pub hdcp22_supported : Bool

unfoldable pub dau_get_hdcp : Bool → HdcpStatus
dau_get_hdcp is_sdi = record {
  current = if is_sdi then no_hdcp else hdcp_22;
  hdcp14_supported = false;
  hdcp22_supported = not is_sdi;
}

unfoldable pub is_some_hdcp : Hdcp → Bool
is_some_hdcp no_hdcp = false
is_some_hdcp hdcp_14 = true
is_some_hdcp hdcp_22 = true

-- Whether the reply is success.
unfoldable pub dau_set_hdcp : Bool → Hdcp → Bool
unfolding is_some_hdcp
dau_set_hdcp is_sdi version = not (is_sdi && is_some_hdcp version)

-- `connected` is the connector's state, if the connector can be read.
unfoldable pub dau_get_cable_status : Option Bool → Bool
dau_get_cable_status none = false
dau_get_cable_status (some connected) = connected

pub record AudioInfo : Type 0 where
  pub channel_count : ℕ
  pub speaker_map : ℕ
  pub level_shift_value : ℕ
  pub downmix_inhibit : ℕ
  pub lfe_playback_level : ℕ
  pub sample_rate : ℕ
  pub encoding : ℕ
  pub sample_bits : ℕ

unfoldable pub differs : AudioInfo → AudioInfo → Bool
differs info previous =
    not (info.channel_count == previous.channel_count)
    || not (info.speaker_map == previous.speaker_map)
    || not (info.level_shift_value == previous.level_shift_value)
    || not (info.downmix_inhibit == previous.downmix_inhibit)
    || not (info.lfe_playback_level == previous.lfe_playback_level)
    || not (info.sample_rate == previous.sample_rate)
    || not (info.encoding == previous.encoding)
    || not (info.sample_bits == previous.sample_bits)

-- The last audio information and whether there is one.
pub record Known : Type 0 where
  pub last_audio_info : AudioInfo
  pub have_last_audio_info : Bool

unfoldable pub dau_set_audio_info : Known → Option AudioInfo → Known
unfolding differs
dau_set_audio_info known none = known
dau_set_audio_info known (some info) =
    if not known.have_last_audio_info || differs info known.last_audio_info
    then record { last_audio_info = info; have_last_audio_info = true }
    else known
