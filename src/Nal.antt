-- ===== src/Nal.antt =====
-- src/tests/sc6f0-dante-rx.cpp: the search for NAL units in an access unit, as the video sink does it
-- for its statistics and as the decoder feed does it to find an IDR.
pub mod Search
pub mod Counts
mod Tests
use qcap_demos.Prelude.{
  ℕ, zero, suc, ◌+◌, ◌-◌, ◌%◌, ◌<◌, min, Bool, true, false, ◌&&◌, ◌||◌, not, List, Option, none,
  some, ltb, leb, ◌==◌, if◌then◌else◌, length, get_or, add64,
}

-- `data[i]`; every read of the loops is in range.
abbrev pub byte : List ℕ → ℕ → ℕ
byte xs i = get_or xs i 0

-- The type of the NAL unit whose start code, of three bytes or of four, stands at `i`. The low five
-- bits are the remainder by 32.
unfoldable pub nal_at : List ℕ → ℕ → Option ℕ
nal_at xs i =
    let off = if byte xs (i + 2) == 1 then i + 3 else i + 4 in
    if byte xs i == 0
      && (byte xs (i + 1) == 0
          && (byte xs (i + 2) == 1
              || (leb (i + 4) (length xs) && (byte xs (i + 2) == 0 && byte xs (i + 3) == 1))))
    then (if ltb off (length xs) then some (byte xs off % 32) else none)
    else none

-- What the video sink notes of an access unit.
pub record Found : Type 0 where
  pub any : Bool
  pub sps_pps : Bool
  pub idr : Bool
  pub non_idr : Bool

abbrev pub nothing_found : Found
nothing_found = record { any = false; sps_pps = false; idr = false; non_idr = false }

unfoldable pub note_nal : Option ℕ → Found → Found
note_nal none f = f
note_nal (some t) f = record {
  any = true;
  sps_pps = t == 7 || (t == 8 || f.sps_pps);
  idr = (not (t == 7 || t == 8) && t == 5) || f.idr;
  non_idr = (not (t == 7 || t == 8) && (not (t == 5) && t == 1)) || f.non_idr;
}

-- The loop from index `i` with `n` rounds left.
unfoldable pub classify_from : List ℕ → ℕ → ℕ → Found → Found
classify_from xs i zero f = f
classify_from xs i (suc n) f = classify_from xs (i + 1) n (note_nal (nal_at xs i) f)

-- `i + 3 < max_scan`, where at most 4096 bytes are scanned.
unfoldable pub classify : List ℕ → Found
unfolding classify_from
classify xs = classify_from xs 0 (min (length xs) 4096 - 3) nothing_found

-- The same loop in `rx_video_feed_decoder`, over the whole unit and for IDR slices alone.
unfoldable pub has_idr_from : List ℕ → ℕ → ℕ → Bool → Bool
has_idr_from xs i zero found = found
has_idr_from xs i (suc n) found =
    has_idr_from xs (i + 1) n (elim (nal_at xs i) [ none ↦ found | some t ↦ t == 5 || found ])

unfoldable pub has_idr : List ℕ → Bool
unfolding has_idr_from
has_idr xs = has_idr_from xs 0 (length xs - 3) false

-- `rx_video_stats_t`, the counters of the sink.
pub record VideoStats : Type 0 where
  pub total_packets : ℕ
  pub total_bytes : ℕ
  pub keyframes : ℕ
  pub sps_pps : ℕ
  pub idr_slices : ℕ
  pub non_idr_slices : ℕ
  pub no_sps_count : ℕ
  pub no_sc : ℕ
  pub nal_other : ℕ
  pub last_pts : ℕ
  pub first_pts : ℕ

-- The counters that a classified unit advances.
unfoldable pub count_found : Found → Bool → VideoStats → VideoStats
count_found f keyframe_flag s = record s {
  no_sc = if not f.any then add64 s.no_sc 1 else s.no_sc;
  sps_pps = if f.any && f.sps_pps then add64 s.sps_pps 1 else s.sps_pps;
  idr_slices = if f.idr then add64 s.idr_slices 1 else s.idr_slices;
  keyframes = if f.idr || keyframe_flag then add64 s.keyframes 1 else s.keyframes;
  non_idr_slices = if f.non_idr then add64 s.non_idr_slices 1 else s.non_idr_slices;
  nal_other =
      if not f.non_idr && (not f.sps_pps && not f.idr) then add64 s.nal_other 1 else s.nal_other;
}

-- `rx_video_sink_push` up to the decoder: the data, `none` for a null pointer, its size as
-- `memory.size` says, the keyframe flag and the time stamp. The flag of the result says whether the
-- unit goes on to the decoder.
unfoldable pub sink_push : VideoStats → Option (List ℕ) → ℕ → Bool → ℕ → VideoStats × Bool
unfolding count_found classify
sink_push s payload size keyframe_flag pts =
    let seen = record s {
      total_packets = add64 s.total_packets 1;
      total_bytes = add64 s.total_bytes size;
      first_pts = if s.first_pts == 0 && ltb 0 pts then pts else s.first_pts;
      last_pts = pts;
    } in
    elim payload [
      | none ↦ (seen, false)
      | some xs ↦
          if ltb size 4 then (seen, false) else (count_found (classify xs) keyframe_flag seen, true)
    ]
