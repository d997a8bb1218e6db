-- ===== src/Nal/Counts.antt =====
-- The sink's counters against what the access unit holds.
use qcap_demos.Prelude.{
  ℕ, ◌+◌, ◌≤◌, ◌≡◌, ◌≢◌, Bool, true, false, List, some, ◌==◌, ◌||◌, arith, ◌⊎◌, inl, inr,
  Bool-cases, subst, ==_iff,
}
use qcap_demos.Nal.{classify, VideoStats, count_found, sink_push}
use qcap_demos.Nal.Search.{NalAt, HasNal, classify_lem}

-- The types that have a counter of their own.
abbrev pub is_counted : ℕ → Bool
is_counted t = (t == 7 || t == 8) || (t == 5 || t == 1)

flags_from_counts :
    (s : VideoStats) (xs : List ℕ) (size pts : ℕ) (key : Bool)
    → 4 ≤ size
    → let s' = (sink_push s (some xs) size key pts).0 in
      let f = classify xs in
      (s'.idr_slices ≢ s.idr_slices → f.idr ≡ true)
      × (s'.non_idr_slices ≢ s.non_idr_slices → f.non_idr ≡ true)
      × (s'.sps_pps ≢ s.sps_pps → f.sps_pps ≡ true)
      × (s'.keyframes ≢ s.keyframes → (f.idr ≡ true) ⊎ (key ≡ true))
      × (s'.nal_other ≢ s.nal_other → (f.idr || (f.non_idr || f.sps_pps)) ≡ false)
unfolding sink_push count_found
flags_from_counts s xs size pts key h =
    (λ e. ground arith, λ e. ground arith, λ e. ground arith, λ e. ground arith, λ e. ground arith)

types_of_sps :
    (xs : List ℕ) (t : ℕ) → (t == 7 || t == 8) ≡ true → HasNal xs t → HasNal xs 7 ⊎ HasNal xs 8
types_of_sps xs t h a = elim (Bool-cases (t == 7)) [
  | inl e ↦ inl (subst (HasNal xs) ((==_iff t 7).0 e) a)
  | inr e ↦ inr (subst (HasNal xs) (ground arith) a)
]

type_of : (xs : List ℕ) (t k : ℕ) → (t == k) ≡ true → HasNal xs t → HasNal xs k
type_of xs t k e a = subst (HasNal xs) ((==_iff t k).0 e) a

unclassified :
    (xs : List ℕ)
    → let f = classify xs in
      (f.idr || (f.non_idr || f.sps_pps)) ≡ false
      → (t j : ℕ) → is_counted t ≡ true
      → NalAt xs t j
      → 4096 ≤ j + 3
unclassified xs e t j h a =
    let (_, sps, idr, non) = classify_lem xs in ground (arith, sps.1 t j, idr.1 t j, non.1 t j)

-- For an access unit of at least four bytes that the sink is pushed: the counters of IDR slices, of
-- other slices and of parameter sets move only if the unit holds such a NAL unit; the keyframe
-- counter only if it holds an IDR slice or is flagged; and the counter of other units only if no
-- such NAL unit has its start code end before byte 4096.
pub sink_push_counts :
    (s : VideoStats) (xs : List ℕ) (size pts : ℕ) (key : Bool)
    → 4 ≤ size
    → let s' = (sink_push s (some xs) size key pts).0 in
      (s'.idr_slices ≢ s.idr_slices → HasNal xs 5)
      × (s'.non_idr_slices ≢ s.non_idr_slices → HasNal xs 1)
      × (s'.sps_pps ≢ s.sps_pps → HasNal xs 7 ⊎ HasNal xs 8)
      × (s'.keyframes ≢ s.keyframes → HasNal xs 5 ⊎ (key ≡ true))
      × (s'.nal_other ≢ s.nal_other → (t j : ℕ) → is_counted t ≡ true → NalAt xs t j → 4096 ≤ j + 3)
sink_push_counts s xs size pts key h =
    let (idr, non, sps, keys, other) = flags_from_counts s xs size pts key h in
    let (_, r_sps, r_idr, r_non) = classify_lem xs in
    (
      λ e. five (r_idr.0 (idr e)),
      λ e. one (r_non.0 (non e)),
      λ e. sets (r_sps.0 (sps e)),
      λ e. elim (keys e) [ inl i ↦ inl (five (r_idr.0 i)) | inr k ↦ inr k ],
      λ e. unclassified xs (other e),
    )
  where
    five : (t : ℕ) × ((t == 5) ≡ true) × HasNal xs t → HasNal xs 5
    five (t, e, a) = type_of xs t 5 e a

    one : (t : ℕ) × ((t == 1) ≡ true) × HasNal xs t → HasNal xs 1
    one (t, e, a) = type_of xs t 1 e a

    sets : (t : ℕ) × ((t == 7 || t == 8) ≡ true) × HasNal xs t → HasNal xs 7 ⊎ HasNal xs 8
    sets (t, e, a) = types_of_sps xs t e a
