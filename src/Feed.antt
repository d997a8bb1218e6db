-- ===== src/Feed.antt =====
-- src/tests/sc6f0-dante-rx.cpp: the decoder input of the receiver, `rx_h264_apply_caps`,
-- `submit_vdec_packet`, `start_qcap_decoder_from_format` and `rx_video_feed_decoder`. What the
-- qcap2, zstreamer and C libraries answer to the calls of one access unit is a record of answers.
pub mod Gate
pub mod Params
pub mod Counts
mod Tests
use qcap_demos.Prelude.{
  ℕ, zero, suc, ◌+◌, ◌/◌, ◌%◌, ◌<◌, Bool, true, false, ◌&&◌, ◌||◌, not, List, [], ◌∷◌, ◌++◌, Option,
  none, some, ltb, leb, ◌==◌, if◌then◌else◌, length, add64,
}
use qcap_demos.Nal.{has_idr}

-- An access unit as it reaches the decoder: the bytes, the key flag and the time in microseconds.
pub record Packet : Type 0 where
  pub bytes : List ℕ
  pub is_keyframe : Bool
  pub time : ℕ

-- The frame rate is a double; `F` stands for it.
-- The part of `zst_dante_rx_t` that the decoder input uses. `submitted` lists the packets that
-- `submit_vdec_packet` was called for and `sent` those that reached `qcap2_video_decoder_push`, in
-- order; `notified` counts the discontinuities told to it.
pub record Receiver (F : Type 0) : Type 0 where
  pub decoder_initializing : Bool
  pub decode_enabled : Bool
  pub h264_input_parsed : Bool
  pub vdec_started : Bool
  pub wait_for_idr : Bool
  pub extra_data : Option (List ℕ)
  pub dec_width : ℕ
  pub dec_height : ℕ
  pub dec_fps : F
  pub file_open : Bool
  pub input_packets : ℕ
  pub pushed_packets : ℕ
  pub dropped_packets : ℕ
  pub pool_dropped : ℕ
  pub push_failed : ℕ
  pub decoded_errors : ℕ
  pub no_sps_count : ℕ
  pub init_scheduled : ℕ
  pub notified : ℕ
  pub parser_fed : ℕ
  pub submitted : List Packet
  pub sent : List Packet

-- The caps that the parser publishes: whether they are `video/x-h264`, and the fields that are
-- there. `copied` says whether `malloc` gave memory for the copy.
pub record Caps (F : Type 0) : Type 0 where
  pub is_h264 : Bool
  pub avcc : Option (List ℕ)
  pub width : Option ℕ
  pub height : Option ℕ
  pub framerate : Option F
  pub copied : Bool

pub data Outcome : Type 0 where
  ok error : Outcome

-- `in_range` is `1.0 <= fps && fps <= 240.0`, and `sixty` is 60.0.
module _ {F : Type 0} (in_range : F → Bool) (sixty : F) where
  unfoldable pub rate_of : Option F → F
  rate_of none = sixty
  rate_of (some f) = if in_range f then f else sixty

  -- The caps that are complete: avcC of 11 bytes to INT_MAX, and a size that is not 0.
  unfoldable pub usable : Caps F → Option (List ℕ × ℕ × ℕ)
  usable c = elim (c.avcc) [
    | none ↦ none
    | some a ↦ elim (c.width) [
      | none ↦ none
      | some w ↦ elim (c.height) [
        | none ↦ none
        | some h ↦
            if c.is_h264
              && (leb 11 (length a)
                  && (leb (length a) 0x7fffffff && (not (w == 0) && not (h == 0))))
            then some (a, w, h)
            else none
      ]
    ]
  ]

  -- `rx_h264_apply_caps`. Parameters of a decoder that runs or starts are kept.
  unfoldable pub apply_caps : Receiver F → Caps F → Receiver F × Outcome
  unfolding usable rate_of
  apply_caps rx c = elim (usable c) [
    | none ↦ (rx, ok)
    | some (a, w, h) ↦
        if not c.copied
        then (rx, error)
        else if rx.vdec_started || rx.decoder_initializing
        then (rx, ok)
        else (
          record rx {
            extra_data = some a;
            dec_width = w;
            dec_height = h;
            dec_fps = rate_of c.framerate;
          },
          ok,
        )
  ]

  -- `start_qcap_decoder_from_format`: the size from the connection, if the caps gave none.
  unfoldable pub start_from_format : Receiver F → ℕ → ℕ → F → Receiver F × Outcome
  start_from_format rx width height fps =
      if width == 0 || height == 0 then (rx, error) else if rx.vdec_started then (rx, ok) else (
        record rx {
          dec_width = if rx.dec_width == 0 then width else rx.dec_width;
          dec_height = if rx.dec_height == 0 then height else rx.dec_height;
          dec_fps = if in_range fps then fps else rx.dec_fps;
        },
        ok,
      )

-- What the libraries answer while one unit is fed: whether the pool gave a buffer, the size of the
-- packet's memory (`none` for no packet or no memory), whether the decoder took the packet, and
-- whether the file took the bytes.
pub record Answers : Type 0 where
  pub pool : Bool
  pub packet : Option ℕ
  pub push : Bool
  pub file : Bool

-- `zst_buffer_t` as it is fed.
pub record AccessUnit : Type 0 where
  pub bytes : List ℕ
  pub flag_drop : Bool
  pub flag_keyframe : Bool
  pub pts : ℕ

-- The packet's memory is there and large enough.
unfoldable pub fits : Option ℕ → ℕ → Bool
fits none n = false
fits (some size) n = leb n size

unfoldable pub is_nonempty : Option (List ℕ) → Bool
is_nonempty none = false
is_nonempty (some a) = not (length a == 0)

module _ {F : Type 0} where
  -- `submit_vdec_packet`.
  unfoldable pub submit : Receiver F → Answers → Packet → Receiver F
  unfolding fits
  submit rx a p =
      let pool_failed = record rx {
        dropped_packets = add64 rx.dropped_packets 1;
        pool_dropped = add64 rx.pool_dropped 1;
      } in
      let invalid = record rx {
        dropped_packets = add64 rx.dropped_packets 1;
        decoded_errors = add64 rx.decoded_errors 1;
      } in
      let sent = record rx { sent = rx.sent ++ p ∷ [] } in
      if not a.pool
      then pool_failed
      else if not (fits a.packet (length p.bytes))
      then invalid
      else if a.push
      then (record sent { pushed_packets = add64 rx.pushed_packets 1 })
      else (record sent {
        dropped_packets = add64 rx.dropped_packets 1;
        push_failed = add64 rx.push_failed 1;
      })

  -- The caps are there for a decoder to be started from.
  unfoldable pub is_configured : Receiver F → Bool
  unfolding is_nonempty
  is_configured rx =
      is_nonempty rx.extra_data && (not (rx.dec_width == 0) && not (rx.dec_height == 0))

  -- `start_vdec_decoder_async` up to the thread that it starts.
  unfoldable pub schedule_init : Receiver F → Receiver F
  schedule_init rx = record rx {
    decoder_initializing = true;
    wait_for_idr = true;
    init_scheduled = rx.init_scheduled + 1;
  }

  -- The thread's ends: the decoder runs (`init_vdec_decoder`), then the flag is cleared; or nothing
  -- runs, and both flags are cleared. These are two stores, in this order; between them every unit is
  -- still dropped, and only a decoder that runs reads the first flag, so they are one step here.
  unfoldable pub decoder_runs : Receiver F → Receiver F
  decoder_runs rx = record rx { vdec_started = true }

  unfoldable pub init_ends : Receiver F → Receiver F
  init_ends rx = record rx { decoder_initializing = false }

  unfoldable pub init_fails : Receiver F → Receiver F
  init_fails rx = record rx { wait_for_idr = false; decoder_initializing = false }

  -- A decoder that runs: before the first keyframe everything is dropped.
  unfoldable pub feed_started : Receiver F → Answers → AccessUnit → Bool → Receiver F
  feed_started rx a u is_keyframe =
      let packet : Packet = record {
        bytes = u.bytes;
        is_keyframe = is_keyframe;
        time = u.pts / 1000;
      } in
      if rx.wait_for_idr && not is_keyframe
      then (record rx { dropped_packets = add64 rx.dropped_packets 1 })
      else submit (record rx { wait_for_idr = false; submitted = rx.submitted ++ packet ∷ [] }) a
          packet

  -- No decoder yet: one is scheduled at the first keyframe with complete caps.
  unfoldable pub feed_waiting : Receiver F → Bool → Receiver F
  unfolding is_configured schedule_init
  feed_waiting rx is_keyframe =
      if not (is_configured rx && is_keyframe)
      then (record rx { no_sps_count = add64 rx.no_sps_count 1 })
      else schedule_init (record rx { no_sps_count = 0 })

  -- The part of `rx_video_feed_decoder` that runs under the decoder lock.
  unfoldable pub feed_locked : Receiver F → Answers → AccessUnit → Receiver F
  feed_locked rx a u =
      let written = record rx { file_open = rx.file_open && a.file } in
      let counted = record written { input_packets = add64 rx.input_packets 1 } in
      let is_keyframe = has_idr u.bytes || u.flag_keyframe in
      if rx.decoder_initializing
      then (record rx { dropped_packets = add64 rx.dropped_packets 1 })
      else if not rx.decode_enabled
      then written
      else if rx.vdec_started
      then feed_started counted a u is_keyframe
      else feed_waiting counted is_keyframe

  -- A unit that arrives flagged as dropped, under the lock.
  unfoldable pub note_drop : Receiver F → Receiver F
  note_drop rx = record rx {
    dropped_packets = add64 rx.dropped_packets 1;
    notified = if rx.vdec_started then rx.notified + 1 else rx.notified;
  }

  -- The parser sees each unit before the lock is taken.
  unfoldable pub enter : Receiver F → Receiver F
  enter rx = record rx {
    parser_fed =
        if rx.decode_enabled && not rx.h264_input_parsed then rx.parser_fed + 1 else rx.parser_fed;
  }

  -- `rx_video_feed_decoder`. `between` is what other threads do to the receiver while the lock is
  -- awaited.
  unfoldable pub feed : (Receiver F → Receiver F) → Receiver F → Answers → AccessUnit → Receiver F
  unfolding note_drop enter
  feed between rx a u =
      let dropped = record rx { dropped_packets = add64 rx.dropped_packets 1 } in
      if ltb (length u.bytes) 4
      then rx
      else if rx.decoder_initializing
      then dropped
      else if u.flag_drop
      then (if rx.decode_enabled then note_drop (between rx) else rx)
      else feed_locked (between (enter rx)) a u
