-- ===== src/Nal/Tests.antt =====
-- Runs of the searches, and the theorems at them.
use qcap_demos.Prelude.{ℕ, ◌≡◌, refl, true, false, List, [], ◌∷◌, some, ◌==◌, ◌||◌, ◌↔◌}
use qcap_demos.Nal.{classify, has_idr, VideoStats, sink_push, nal_at, note_nal}
use qcap_demos.Nal.Search.{HasNal, Reports, classify_lem, has_idr_iff}

-- An access unit delimiter, a sequence parameter set and an IDR slice.
abbrev key_unit : List ℕ
key_unit = 0 ∷ 0 ∷ 0 ∷ 1 ∷ 0x09 ∷ 0 ∷ 0 ∷ 1 ∷ 0x67 ∷ 0 ∷ 0 ∷ 1 ∷ 0x65 ∷ []

-- A start code with nothing behind it.
abbrev cut_unit : List ℕ
cut_unit = 9 ∷ 0 ∷ 0 ∷ 0 ∷ 1 ∷ []

abbrev no_counts : VideoStats
no_counts = record {
  total_packets = 0;
  total_bytes = 0;
  keyframes = 0;
  sps_pps = 0;
  idr_slices = 0;
  non_idr_slices = 0;
  no_sps_count = 0;
  no_sc = 0;
  nal_other = 0;
  last_pts = 0;
  first_pts = 0;
}

finds_idr : (has_idr key_unit ≡ true) × (has_idr cut_unit ≡ false)
unfolding has_idr nal_at
finds_idr = (refl, refl)

counts_unit :
    let (s, on) = sink_push no_counts (some key_unit) 13 false 40 in
    (s.sps_pps ≡ 1) × (s.idr_slices ≡ 1) × (s.keyframes ≡ 1) × (s.nal_other ≡ 0) × (on ≡ true)
unfolding sink_push nal_at note_nal
counts_unit = (refl, refl, refl, refl, refl)

classify_lem_example :
    let f = classify key_unit in
    Reports key_unit f.any (λ t. true)
    × Reports key_unit f.sps_pps (λ t. t == 7 || t == 8)
    × Reports key_unit f.idr (λ t. t == 5)
    × Reports key_unit f.non_idr (λ t. t == 1)
classify_lem_example = classify_lem key_unit

has_idr_iff_example : (has_idr key_unit ≡ true) ↔ HasNal key_unit 5
has_idr_iff_example = has_idr_iff key_unit
