-- ===== src/Zz/Tests.antt =====
-- Runs of the helpers, and the theorems at them.
use qcap_demos.Prelude.{
  ℕ, ◌+◌, ◌*◌, ◌-◌, ◌%◌, ◌≡◌, refl, true, false, List, [], ◌∷◌, ◌++◌, take, min, ◌<◌, none, some,
  length, arith,
}
use qcap_demos.Zz.Cache.{Cache, find, erase_at, make_room, get, new_counted, add_ref, release}
use qcap_demos.Zz.Cache.Transparent.{Creator, AreServed, look, serve, serve-AreServed}
use qcap_demos.Zz.Cache.References.{live, adds, releases, act}
use qcap_demos.Zz.FourCc.{fourcc, fourcc_name, fourcc_char}
use qcap_demos.Zz.Pace.{FpsPicker, tick, taken, timer_spec}
use qcap_demos.Zz.Log.{ending, format_log, log_line, clock_fields}
use qcap_demos.Zz.Log.Line.{format_log_lem}
use qcap_demos.Zz.Pages.{mapped_size}
use qcap_demos.Zz.Planes.{Plane}
use qcap_demos.Zz.Stats.{BitRate, null, log_bits}
use qcap_demos.Zz.Stats.Conserved.{IsConserved, log_all, log_all-IsConserved}

abbrev one_second : BitRate
one_second = record {
  stats_duration = 1000000;
  cur_ts = 0;
  last_ts = 0;
  acc_ticks = 0;
  acc_bits = 0;
  max_bits = 0;
  sh_mempos = 0;
  shm_id = none;
  shm_ptr = null;
}

abbrev three_calls : List (ℕ × ℕ)
three_calls = (800, 10) ∷ (1600, 1000001) ∷ (400, 1000002) ∷ []

log_all-IsConserved_example :
    IsConserved one_second three_calls (log_all false three_calls one_second)
log_all-IsConserved_example =
    log_all-IsConserved false three_calls one_second (omega arith) (omega arith)

held_back : (log_all false three_calls one_second).1.acc_bits ≡ 400
unfolding log_all log_bits
held_back = refl

abbrev full : Cache
full = record { entries = (5, 50) ∷ (6, 60) ∷ (7, 70) ∷ []; deleted = [] }

first_deleted : (get (λ es. 0) 2 9 90 full).1.deleted ≡ 50 ∷ []
unfolding get make_room erase_at find
first_deleted = refl

abbrev half : FpsPicker
half = record { src_fps = 60; dst_fps = 25; state = 0 }

picked : (taken 60 half).0 ≡ 25
unfolding taken tick
picked = refl

abbrev small : Plane
small = record { dst = 100; step = 8; value = 7 }

colour_code : fourcc_name (fourcc 89 85 89 50) ≡ 89 ∷ 85 ∷ 89 ∷ 50 ∷ []
unfolding fourcc_name fourcc fourcc_char
colour_code = refl

-- Two references: the second release deletes.
counted :
    ((release (add_ref new_counted)).is_deleted ≡ false)
    × ((release (release (add_ref new_counted))).is_deleted ≡ true)
unfolding release add_ref new_counted
counted = (refl, refl)

pages : (mapped_size 4096 4000 8191 ≡ 8192) × (timer_spec 1500000 ≡ (1, 500000000))
unfolding mapped_size timer_spec
pages = (refl, refl)

-- A message that does not fit, and one that does.
format_log_lem_example :
    ((format_log 12 (91 ∷ 93 ∷ []) (97 ∷ 98 ∷ 99 ∷ 100 ∷ 101 ∷ 102 ∷ [])).0
      ≡ take (min (12 - 6) (2 + 6)) (91 ∷ 93 ∷ 97 ∷ 98 ∷ 99 ∷ 100 ∷ 101 ∷ 102 ∷ []) ++ ending)
    × (length (format_log 12 (91 ∷ 93 ∷ []) (97 ∷ 98 ∷ 99 ∷ 100 ∷ 101 ∷ 102 ∷ [])).0
        ≡ (format_log 12 (91 ∷ 93 ∷ []) (97 ∷ 98 ∷ 99 ∷ 100 ∷ 101 ∷ 102 ∷ [])).1)
    × ((format_log 12 (91 ∷ 93 ∷ []) (97 ∷ 98 ∷ 99 ∷ 100 ∷ 101 ∷ 102 ∷ [])).1 < 12)
format_log_lem_example =
    format_log_lem 12 (91 ∷ 93 ∷ []) (97 ∷ 98 ∷ 99 ∷ 100 ∷ 101 ∷ 102 ∷ []) (omega arith)
      (omega arith)

lines :
    (log_line 4 3 (91 ∷ []) (97 ∷ []) ≡ none)
    × (log_line 4 6 (91 ∷ []) (97 ∷ []) ≡ some (91 ∷ 97 ∷ ending))
    × (clock_fields 3725 12000000 ≡ (1, 2, 5, 12))
unfolding log_line format_log clock_fields
lines = (refl, refl, refl)

-- The first entry is evicted, and asked for again.
-- Three hashes in turn.
abbrev three : ℕ → Creator
three n = record { hash = n % 3; content = 10 * n }

serve-AreServed_example :
    AreServed three 0 (serve (λ es. 0) 1 three 5 0 (record { entries = []; deleted = [] })).0
serve-AreServed_example = serve-AreServed three (λ es. 0) 1 5

-- A cache of three.
sees_kept :
    (serve (λ es. 0) 3 three 5 0 (record { entries = []; deleted = [] })).0
    ≡ some 0 ∷ some 10 ∷ some 20 ∷ some 0 ∷ some 10 ∷ []
unfolding serve get make_room erase_at find look
sees_kept = refl

-- Two references are given back, and the object with the second.
two_given_back : (live (adds ∷ releases ∷ releases ∷ []) new_counted).is_deleted ≡ true
unfolding live act new_counted add_ref release
two_given_back = refl
