-- ===== src/Button/Monitor.antt =====
-- tools/sc6f0_button_demo.c: the loop that prints how long a button was held.
use qcap_demos.Prelude.{
  ℕ, zero, suc, ◌-◌, ◌^◌, ◌≤◌, ◌<◌, ◌≡◌, refl, sym, ap, ◌∙◌, append-nil, append_assoc, false, ◌&&◌,
  List, [], ◌∷◌, ◌++◌, length, get_or, set, ltb, ◌==◌, if◌then◌else◌, sub64, arith,
}
use qcap_demos.Button.{ButtonEvent, Answer, event, no_event, error}

-- A line: a press of a button, or a release with the microseconds that it was held.
pub data Line : Type 0 where
  pressed : ℕ → Line
  released : ℕ → ℕ → Line

-- The line for an event, if it has one, and the times of the presses.
unfoldable pub handle : ButtonEvent → List ℕ → List Line × List ℕ
handle ev times =
    let since = get_or times ev.id 0 in
    if ev.action == 1
    then (pressed ev.id ∷ [], set times ev.id ev.timestamp_us)
    else (if ev.action == 0
        then (if ltb 0 since
            then (released ev.id (sub64 ev.timestamp_us since) ∷ [], set times ev.id 0)
            else (released ev.id 0 ∷ [], times))
        else ([], times))

-- The loop over the answers of `sc6f0_button_read_event` until one is an error.
unfoldable pub monitor : List Answer → List ℕ → List Line × List ℕ
monitor [] times = ([], times)
monitor (error e ∷ rest) times = ([], times)
monitor (no_event ∷ rest) times = monitor rest times
monitor (event ev ∷ rest) times =
    let (lines, times') = handle ev times in
    let (more, times'') = monitor rest times' in (lines ++ more, times'')

-- Answers without an error in which button `id` is neither pressed nor released.
abbrev pub Spares : ℕ → List Answer → Type 0
Spares id [] = Unit {0}
Spares id (error e ∷ rest) = ⊥
Spares id (no_event ∷ rest) = Spares id rest
Spares id (event ev ∷ rest) = ((ev.id == id && ltb ev.action 2) ≡ false) × Spares id rest

get_or-set :
    (times : List ℕ) (i j v : ℕ) → (i == j) ≡ false → get_or (set times i v) j 0 ≡ get_or times j 0
get_or-set [] i j v h = refl
get_or-set (t ∷ ts) zero zero v h = absurd (ground arith)
get_or-set (t ∷ ts) zero (suc j) v h = refl
get_or-set (t ∷ ts) (suc i) zero v h = refl
get_or-set (t ∷ ts) (suc i) (suc j) v h = get_or-set ts i j v (ground arith)

get_or-set_same : (times : List ℕ) (i v : ℕ) → i < length times → get_or (set times i v) i 0 ≡ v
get_or-set_same [] i v h = absurd (omega arith)
get_or-set_same (t ∷ ts) zero v h = refl
get_or-set_same (t ∷ ts) (suc i) v h = get_or-set_same ts i v (omega arith)

handle-spares :
    (ev : ButtonEvent) (times : List ℕ) (id : ℕ)
    → (ev.id == id && ltb ev.action 2) ≡ false
    → get_or (handle ev times).1 id 0 ≡ get_or times id 0
unfolding handle
handle-spares ev times id h =
    let pressed_other = get_or-set times ev.id id ev.timestamp_us in
    let released_other = get_or-set times ev.id id 0 in ground arith

handle-press :
    (ev : ButtonEvent) (times : List ℕ)
    → ev.id < length times
    → ev.action ≡ 1
    → get_or (handle ev times).1 ev.id 0 ≡ ev.timestamp_us
unfolding handle
handle-press ev times h ha =
    let same = get_or-set_same times ev.id ev.timestamp_us h in ground arith

handle-release :
    (id since now : ℕ) (ev : ButtonEvent) (times : List ℕ)
    → ev.id ≡ id
    → ev.action ≡ 0
    → ev.timestamp_us ≡ now
    → get_or times id 0 ≡ since
    → 0 < since
    → since ≤ now
    → now < 2 ^ 64
    → (handle ev times).0 ≡ released id (now - since) ∷ []
unfolding handle
handle-release id since now ev times hi ha ht hg hs hle hw = ground arith

monitor-release :
    (id since now : ℕ) (ev : ButtonEvent) (between : List Answer) (times : List ℕ)
    → ev.id ≡ id
    → ev.action ≡ 0
    → ev.timestamp_us ≡ now
    → get_or times id 0 ≡ since
    → 0 < since
    → since ≤ now
    → now < 2 ^ 64
    → Spares id between
    → (monitor (between ++ (event ev ∷ [])) times).0
      ≡ (monitor between times).0 ++ (released id (now - since) ∷ [])
unfolding monitor
monitor-release id since now ev [] times hi ha ht hg hs hle hw hb =
    append-nil _ ∙ handle-release id since now ev times hi ha ht hg hs hle hw
monitor-release id since now ev (error e ∷ rest) times hi ha ht hg hs hle hw hb = absurd hb
monitor-release id since now ev (no_event ∷ rest) times hi ha ht hg hs hle hw hb =
    monitor-release id since now ev rest times hi ha ht hg hs hle hw hb
monitor-release id since now ev (event other ∷ rest) times hi ha ht hg hs hle hw (h, hb) =
    ap (λ more. (handle other times).0 ++ more)
      (monitor-release id since now ev rest (handle other times).1 hi ha ht
        (handle-spares other times id h ∙ hg) hs hle hw hb)
    ∙ sym (
        append_assoc (handle other times).0 (monitor rest (handle other times).1).0
          (released id (now - since) ∷ []))

-- A button that is pressed at a time that is not 0 and later released, with any answers between that are no
-- errors and concern other buttons or repeats: the last line gives the time between the two events as
-- the time that it was held.
pub held_lem :
    (times : List ℕ) (press release : ButtonEvent) (between : List Answer)
    → press.id < length times
    → press.action ≡ 1
    → release.id ≡ press.id
    → release.action ≡ 0
    → 0 < press.timestamp_us
    → press.timestamp_us ≤ release.timestamp_us
    → release.timestamp_us < 2 ^ 64
    → Spares press.id between
    → (monitor (event press ∷ (between ++ (event release ∷ []))) times).0
      ≡ (monitor (event press ∷ between) times).0
        ++ (released press.id (release.timestamp_us - press.timestamp_us) ∷ [])
unfolding monitor
held_lem times press release between hn hp hi hr hs hle hw hb =
    let times' = (handle press times).1 in
    ap (λ more. (handle press times).0 ++ more)
      (monitor-release press.id press.timestamp_us release.timestamp_us release between times' hi hr
        refl (handle-press press times hn hp) hs hle hw hb)
    ∙ sym (
        append_assoc (handle press times).0 (monitor between times').0
          (released press.id (release.timestamp_us - press.timestamp_us) ∷ []))
