-- ===== src/Resync/Reset.antt =====
-- src/tests/sc6f0-dante-rx.cpp, `reinitialize_sdi_output`: the output is switched off and on in its own mode. The
-- kernel's output and its answers are arguments; `memcmp` of two modes, and `is_sdi_mode`, are too.
pub mod Outcome
use qcap_demos.Prelude.{
  ℕ, Bool, true, false, ◌&&◌, ◌||◌, not, List, [], ◌∷◌, ◌++◌, Option, none, some, ◌==◌,
  if◌then◌else◌,
}
use qcap_demos.Modeset.{Mode}

-- The properties that are read.
pub data Property : Type 0 where
  active mode_id is_frac primary_fb overlay_fb overlay_source : Property

-- The kernel's output: the CRTC with the mode of its blob, the connector, and the planes.
pub record Output : Type 0 where
  pub is_active : Bool
  pub mode_id : ℕ
  pub mode : Mode
  pub is_frac : ℕ
  pub primary_fb : ℕ
  pub overlay_fb : ℕ
  pub overlay_source : ℕ

-- What an atomic request sets.
pub record Request : Type 0 where
  pub is_active : Bool
  pub mode_id : Option ℕ
  pub is_frac : Option ℕ

pub data Call : Type 0 where
  create_blob destroy_blob : ℕ → Call
  test commit : Request → Call

-- What the receiver keeps of its own output.
pub record Known : Type 0 where
  pub primary_fb_id : ℕ
  pub overlay_fb_id : ℕ
  pub current_mode : Mode

-- Which properties can be read; the length of the blob if it is given; the new blob; whether both requests and
-- their five properties can be made; and which requests the kernel accepts.
pub record Answers : Type 0 where
  pub readable : Property → Bool
  pub blob_length : Option ℕ
  pub new_blob : Option ℕ
  pub prepared : Bool
  pub tests_on : Bool
  pub tests_off : Bool
  pub commits_off : Bool
  pub commits_on : Bool
  pub restores_mode : Bool
  pub commits_back : Bool

pub record Done : Type 0 where
  pub ok : Bool
  pub output : Output
  pub calls : List Call

-- A commit that is accepted sets what it asks for; `mode` is that of the blobs it may name.
unfoldable pub apply : Request → Mode → Output → Output
apply r mode o = record o {
  is_active = r.is_active;
  mode_id = elim r.mode_id [ none ↦ o.mode_id | some id ↦ id ];
  mode = elim r.mode_id [ none ↦ o.mode | some id ↦ mode ];
  is_frac = elim r.is_frac [ none ↦ o.is_frac | some frac ↦ frac ];
}

-- The size of drmModeModeInfo.
abbrev pub mode_size : ℕ
mode_size = 68

unfoldable pub as_expected : Known → Answers → Output → Bool
as_expected k a o =
    (a.readable active && o.is_active)
    && (a.readable mode_id
        && ((a.readable is_frac && o.is_frac == 0)
            && (a.readable primary_fb
                && (a.readable overlay_fb
                    && (a.readable overlay_source
                        && ((o.primary_fb == k.primary_fb_id && not (o.primary_fb == 0))
                            && ((o.overlay_fb == k.overlay_fb_id && not (o.overlay_fb == 0))
                                && o.overlay_source == 1)))))))

abbrev pub off_request : Request
off_request = record { is_active = false; mode_id = none; is_frac = none }

abbrev pub on_request : ℕ → ℕ → Request
on_request id frac = record { is_active = true; mode_id = some id; is_frac = some frac }

-- The original mode again, after a commit that failed.
unfoldable pub roll_back : Answers → ℕ → Mode → Output → Output × List Call
roll_back a original mode o =
    let back = on_request original o.is_frac in
    if a.restores_mode
    then (if a.commits_back then apply back mode o else o, commit back ∷ [])
    else (o, [])

-- The two commits, after both requests have passed their tests.
unfoldable pub off_and_on : Answers → ℕ → Output → Done
off_and_on a blob o =
    let on = on_request blob o.is_frac in
    let dark = apply off_request o.mode o in
    let (kept, tried) = roll_back a o.mode_id o.mode o in
    let (restored, retried) = roll_back a o.mode_id o.mode dark in
    if a.commits_off
    then (if a.commits_on
        then record {
          ok = true;
          output = apply on o.mode dark;
          calls = commit off_request ∷ commit on ∷ [];
        }
        else record {
          ok = false;
          output = restored;
          calls = commit off_request ∷ commit on ∷ retried;
        })
    else record { ok = false; output = kept; calls = commit off_request ∷ tried }

-- With a blob of the mode, which is destroyed in the end.
unfoldable pub with_blob : Answers → ℕ → Output → Done
with_blob a blob o =
    let on = on_request blob o.is_frac in
    let switched = off_and_on a blob o in
    let tested = if a.tests_on then test on ∷ test off_request ∷ [] else test on ∷ [] in
    if a.prepared
    then (if a.tests_on && a.tests_off
        then record switched {
          calls = create_blob blob ∷ (tested ++ (switched.calls ++ (destroy_blob blob ∷ [])));
        }
        else record {
          ok = false;
          output = o;
          calls = create_blob blob ∷ (tested ++ (destroy_blob blob ∷ []));
        })
    else record { ok = false; output = o; calls = create_blob blob ∷ destroy_blob blob ∷ [] }

module _ (same_mode : Mode → Mode → Bool) (is_sdi_mode : Mode → Bool) where
  unfoldable pub has_own_mode : Known → Answers → Output → Bool
  has_own_mode k a o =
      elim a.blob_length [ none ↦ false | some length ↦ length == mode_size ]
      && (same_mode o.mode k.current_mode && is_sdi_mode k.current_mode)

  unfoldable pub reinitialize_sdi_output : Known → Answers → Output → Done
  reinitialize_sdi_output k a o =
      let untouched : Done = record { ok = false; output = o; calls = [] } in
      if as_expected k a o && has_own_mode k a o
      then elim a.new_blob [ none ↦ untouched | some blob ↦ with_blob a blob o ]
      else untouched
