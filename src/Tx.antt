-- ===== src/Tx.antt =====
-- src/tests/sc6f0-dante-tx.cpp: what the transmitter tells the clients of the DAU service about its input (`OnDmx` and
-- the callbacks that answer). Whether a source, an encoder or a server starts is an input; `frame_rate` is the
-- rate as the cast to unsigned int gives it.
pub mod Clients
mod Tests
use qcap_demos.Prelude.{
  ℕ, ◌%◌, ◌^◌, Bool, true, false, ◌&&◌, ◌||◌, not, List, [], ◌∷◌, ◌++◌, Option, none, some, ltb,
  ◌==◌, if◌then◌else◌,
}

-- `struct video_format` and `struct audio_info`.
pub record VideoFormat : Type 0 where
  pub width : ℕ
  pub height : ℕ
  pub framerate : ℕ
  pub colorformat : ℕ
  pub bpp : ℕ
  pub interlaced : Bool
  pub locked : Bool

pub record AudioInfo : Type 0 where
  pub channel_count : ℕ
  pub speaker_map : ℕ
  pub level_shift_value : ℕ
  pub downmix_inhibit : Bool
  pub lfe_playback_level : ℕ
  pub sample_rate : ℕ
  pub encoding : ℕ
  pub sample_bits : ℕ

abbrev pub same : Bool → Bool → Bool
same true b = b
same false b = not b

unfoldable pub video_format_equal : VideoFormat → VideoFormat → Bool
video_format_equal lhs rhs =
    lhs.width == rhs.width
    && (lhs.height == rhs.height
        && (lhs.framerate == rhs.framerate
            && (lhs.colorformat == rhs.colorformat
                && (lhs.bpp == rhs.bpp
                    && (same lhs.interlaced rhs.interlaced && same lhs.locked rhs.locked)))))

unfoldable pub audio_info_equal : AudioInfo → AudioInfo → Bool
audio_info_equal lhs rhs =
    lhs.channel_count == rhs.channel_count
    && (lhs.speaker_map == rhs.speaker_map
        && (lhs.level_shift_value == rhs.level_shift_value
            && (same lhs.downmix_inhibit rhs.downmix_inhibit
                && (lhs.lfe_playback_level == rhs.lfe_playback_level
                    && (lhs.sample_rate == rhs.sample_rate
                        && (lhs.encoding == rhs.encoding && lhs.sample_bits == rhs.sample_bits))))))

-- All zero, as `memset` leaves them.
abbrev pub no_video : VideoFormat
no_video = record {
  width = 0;
  height = 0;
  framerate = 0;
  colorformat = 0;
  bpp = 0;
  interlaced = false;
  locked = false;
}

abbrev pub no_audio : AudioInfo
no_audio = record {
  channel_count = 0;
  speaker_map = 0;
  level_shift_value = 0;
  downmix_inhibit = false;
  lfe_playback_level = 0;
  sample_rate = 0;
  encoding = 0;
  sample_bits = 0;
}

-- The constants VIDEO_COLORFORMAT_YUV444, AUDIO_SM_FR_FL and AUDIO_EN_LPCM of the DAU service.
pub record Codes : Type 0 where
  pub yuv444 : ℕ
  pub fr_fl : ℕ
  pub lpcm : ℕ

-- What the sources report, and what of it can be started. Color space 0 is undefined.
pub record Found : Type 0 where
  pub is_updated : Bool
  pub color_space : ℕ
  pub video_width : ℕ
  pub video_height : ℕ
  pub is_interleaved : Bool
  pub frame_rate : ℕ
  pub vsrc_starts : Bool
  pub venc_starts : Bool
  pub audio_channels : ℕ
  pub audio_bits : ℕ
  pub audio_rate : ℕ
  pub asrc_starts : Bool
  pub aenc_starts : Bool

pub data Signal : Type 0 where
  cable_change video_change audio_change : Signal

pub record Tx : Type 0 where
  pub video : VideoFormat
  pub audio : AudioInfo
  pub has_published_video : Bool
  pub has_published_audio : Bool

abbrev pub initial : Tx
initial = record {
  video = no_video;
  audio = no_audio;
  has_published_video = false;
  has_published_audio = false;
}

-- The format is stored, and its signals are sent if there is a service.
unfoldable pub publish_video : Bool → VideoFormat → Tx → Tx × List Signal
publish_video service v t =
    let cable = not t.has_published_video || not (same t.video.locked v.locked) in
    let change = not t.has_published_video || not (video_format_equal t.video v) in
    let cable_signal = if service && cable then cable_change ∷ [] else [] in
    let change_signal = if service && change then video_change ∷ [] else [] in
    (record t { video = v; has_published_video = true }, cable_signal ++ change_signal)

unfoldable pub publish_audio : Bool → AudioInfo → Tx → Tx × List Signal
publish_audio service a t =
    let change = not t.has_published_audio || not (audio_info_equal t.audio a) in
    (
      record t { audio = a; has_published_audio = true },
      if service && change then audio_change ∷ [] else [],
    )

module _ (codes : Codes) where
  -- `none` is the `break` of a source or an encoder that does not start.
  unfoldable pub new_video : Found → Option VideoFormat
  new_video f =
      if f.color_space == 0 || (f.video_width == 0 || f.video_height == 0)
      then some no_video
      else (if f.vsrc_starts && f.venc_starts
          then some (record {
            width = f.video_width % 2 ^ 32;
            height = f.video_height % 2 ^ 32;
            framerate = f.frame_rate % 2 ^ 32;
            colorformat = codes.yuv444;
            bpp = 8;
            interlaced = f.is_interleaved;
            locked = true;
          })
          else none)

  unfoldable pub new_audio : Found → Option AudioInfo
  new_audio f =
      if f.audio_channels == 0 || (f.audio_bits == 0 || f.audio_rate == 0)
      then some no_audio
      else (if f.asrc_starts && f.aenc_starts
          then some (record {
            channel_count = f.audio_channels % 2 ^ 32;
            speaker_map = codes.fr_fl;
            level_shift_value = 0;
            downmix_inhibit = false;
            lfe_playback_level = 0;
            sample_rate = f.audio_rate % 2 ^ 32;
            encoding = codes.lpcm;
            sample_bits = f.audio_bits % 2 ^ 32;
          })
          else none)

  -- `OnDmx` up to the start of the servers.
  unfoldable pub on_dmx : Bool → Found → Tx → Tx × List Signal
  on_dmx service f t =
      let stays : Tx × List Signal = (t, []) in
      if f.is_updated
      then elim (new_video f) [
        | none ↦ stays
        | some v ↦
            let (t', signals) = publish_video service v t in
            elim (new_audio f) [
              | none ↦ (t', signals)
              | some a ↦ let (t'', more) = publish_audio service a t' in (t'', signals ++ more)
            ]
      ]
      else stays

-- What the callbacks of the service answer.
unfoldable pub get_cable_status : Tx → Bool
get_cable_status t = t.video.locked

unfoldable pub get_video_format : Tx → VideoFormat
get_video_format t = t.video

unfoldable pub get_audio_info : Tx → AudioInfo
get_audio_info t = t.audio
