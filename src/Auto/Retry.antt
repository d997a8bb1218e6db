-- ===== src/Auto/Retry.antt =====
-- src/tests/sc6f0-dante-rx.cpp: `avh_retry_blocked`, which keeps the main loop from setting the display again and again.
use qcap_demos.Prelude.{
  ℕ, ◌+◌, ◌≤◌, ◌≡◌, refl, Bool, true, false, ◌&&◌, ◌||◌, not, List, [], ◌∷◌, if◌then◌else◌, arith,
  inl, inr, Bool-cases, ◌∙◌, sym, subst,
}
use qcap_demos.Auto.{
  Mixer, State, Round, notice, is_ready, start_audio, switch_over, fall_back, attempt, leave, round,
  Event, rounds, notified, handle,
}
use qcap_demos.Auto.Block.{switch_over-blocked}

module _ {D A : Type 0} (mixer : Mixer D A) (is_sdi : Bool) (fixed_w fixed_h : ℕ) where
  -- The attempts to switch to the decoder.
  unfoldable pub attempts : List (Event A) → State D → ℕ
  attempts [] s = 0
  attempts (notified a ∷ es) s = attempts es (handle mixer is_sdi fixed_w fixed_h (notified a) s)
  attempts (rounds r ∷ es) s =
      (if is_ready r (notice r s) then 1 else 0)
      + attempts es (handle mixer is_sdi fixed_w fixed_h (rounds r) s)

  -- The rounds without a flow.
  unfoldable pub losses : List (Event A) → ℕ
  losses [] = 0
  losses (notified a ∷ es) = losses es
  losses (rounds r ∷ es) = (if r.flow then 0 else 1) + losses es

  abbrev pub left : State D → ℕ
  left s = if s.avh_retry_blocked || s.avh_active then 0 else 1

  abbrev pub IsWaiting : State D → Type 0
  IsWaiting s = s.avh_retry_blocked ≡ true → s.avh_pending ≡ false

  -- A test whose outcome is known.
  taken : {T : Type 0} (b : Bool) (x y : T) → b ≡ true → (if b then x else y) ≡ x
  taken b x y e = rw e refl

  skipped : {T : Type 0} (b : Bool) (x y : T) → b ≡ false → (if b then x else y) ≡ y
  skipped b x y e = rw e refl

  abbrev ended : Round A → State D → State D
  ended r t =
      if t.avh_active
      then start_audio is_sdi r.audio_starts_then t
      else fall_back mixer is_sdi fixed_w fixed_h r t

  ended-left : (r : Round A) (t : State D) → left (ended r t) ≡ 0
  unfolding fall_back start_audio
  ended-left r t = elim (Bool-cases t.avh_active) [
    | inl selected ↦ ground (arith, selected)
    | inr refused ↦ rw refused refl
  ]

  ended-IsWaiting :
      (r : Round A) (t : State D) → t.avh_retry_blocked ≡ false → IsWaiting (ended r t)
  unfolding fall_back start_audio
  ended-IsWaiting r t free = ground (arith, free)

  -- An attempt ends with the decoder selected, or with the next one blocked.
  attempt-left : (r : Round A) (s : State D) → left (attempt mixer is_sdi fixed_w fixed_h r s) ≡ 0
  unfolding attempt
  attempt-left r s = ended-left r (switch_over mixer is_sdi fixed_w fixed_h r s)

  attempt-IsWaiting :
      (r : Round A) (s : State D)
      → s.avh_retry_blocked ≡ false
      → IsWaiting (attempt mixer is_sdi fixed_w fixed_h r s)
  unfolding attempt
  attempt-IsWaiting r s free =
      ended-IsWaiting r (switch_over mixer is_sdi fixed_w fixed_h r s)
        (rw (switch_over-blocked mixer is_sdi fixed_w fixed_h r s) free)

  notice-IsWaiting : (r : Round A) (s : State D) → IsWaiting s → IsWaiting (notice r s)
  unfolding notice
  notice-IsWaiting r s h = ground (arith, h)

  ready-flow : (r : Round A) (s : State D) → is_ready r s ≡ true → r.flow ≡ true
  unfolding is_ready
  ready-flow r s = ground arith

  ready-free :
      (r : Round A) (s : State D) → IsWaiting s → is_ready r s ≡ true → s.avh_retry_blocked ≡ false
  unfolding is_ready
  ready-free r s h ready = ground (arith, h)

  ready-left :
      (r : Round A) (s : State D) → IsWaiting s → is_ready r (notice r s) ≡ true → left s ≡ 1
  unfolding is_ready notice
  ready-left r s h ready = ground (arith, h)

  unready-left :
      (r : Round A) (s : State D)
      → left (
          if not r.flow && (notice r s).avh_active
          then leave mixer is_sdi fixed_w fixed_h r (notice r s)
          else notice r s)
        ≤ (if r.flow then 0 else 1) + left s
  unfolding notice leave
  unready-left r s = ground arith

  unready-IsWaiting :
      (r : Round A) (s : State D)
      → IsWaiting s
      → IsWaiting (
          if not r.flow && (notice r s).avh_active
          then leave mixer is_sdi fixed_w fixed_h r (notice r s)
          else notice r s)
  unfolding notice leave
  unready-IsWaiting r s h = ground (arith, h)

  no_leave : (flow active : Bool) → flow ≡ true → (not flow && active) ≡ false
  no_leave flow active e = ground (arith, e)

  -- An attempt uses up what is left.
  spend :
      (b : Bool) (after paid before : ℕ)
      → after ≡ 0
      → before ≡ 1
      → (if b then 1 else 0) + after ≤ paid + before
  spend b after paid before none_left one_left = ground (arith, none_left, one_left)

  keep :
      (b : Bool) (after bound : ℕ)
      → b ≡ false
      → after ≤ bound
      → (if b then 1 else 0) + after ≤ bound
  keep b after bound e le = ground (arith, e, le)

  round-ready :
      (r : Round A) (s : State D)
      → is_ready r (notice r s) ≡ true
      → round mixer is_sdi fixed_w fixed_h r s ≡ attempt mixer is_sdi fixed_w fixed_h r (notice r s)
  unfolding round
  round-ready r s ready =
      let tried : State D = attempt mixer is_sdi fixed_w fixed_h r (notice r s) in
      let s' : State D = if is_ready r (notice r s) then tried else notice r s in
      let stays : (not r.flow && s'.avh_active) ≡ false =
        no_leave r.flow s'.avh_active (ready-flow r (notice r s) ready) in
      skipped (not r.flow && s'.avh_active) (leave mixer is_sdi fixed_w fixed_h r s') s' stays
      ∙ taken (is_ready r (notice r s)) tried (notice r s) ready

  round-unready :
      (r : Round A) (s : State D)
      → is_ready r (notice r s) ≡ false
      → round mixer is_sdi fixed_w fixed_h r s ≡ (
          if not r.flow && (notice r s).avh_active
          then leave mixer is_sdi fixed_w fixed_h r (notice r s)
          else notice r s)
  unfolding round
  round-unready r s unready = rw unready refl

  round-left :
      (r : Round A) (s : State D)
      → IsWaiting s
      → (if is_ready r (notice r s) then 1 else 0) + left (round mixer is_sdi fixed_w fixed_h r s)
        ≤ (if r.flow then 0 else 1) + left s
  round-left r s h = elim (Bool-cases (is_ready r (notice r s))) [
    | inl ready ↦
        spend (is_ready r (notice r s)) (left (round mixer is_sdi fixed_w fixed_h r s))
          (if r.flow then 0 else 1) (left s)
          (subst (λ (t : State D). left t ≡ 0) (sym (round-ready r s ready))
            (attempt-left r (notice r s)))
          (ready-left r s h ready)
    | inr unready ↦
        keep (is_ready r (notice r s)) (left (round mixer is_sdi fixed_w fixed_h r s)) _ unready (
          subst (λ (t : State D). left t ≤ (if r.flow then 0 else 1) + left s)
            (sym (round-unready r s unready)) (unready-left r s))
  ]

  round-IsWaiting :
      (r : Round A) (s : State D) → IsWaiting s → IsWaiting (round mixer is_sdi fixed_w fixed_h r s)
  round-IsWaiting r s h = elim (Bool-cases (is_ready r (notice r s))) [
    | inl ready ↦ subst IsWaiting (sym (round-ready r s ready)) (
        attempt-IsWaiting r (notice r s) (ready-free r (notice r s) (notice-IsWaiting r s h) ready))
    | inr unready ↦ subst IsWaiting (sym (round-unready r s unready)) (unready-IsWaiting r s h)
  ]

  -- Over any rounds and notifications, there is at most one attempt to switch to the decoder between two rounds that
  -- find no flow: with a state where a blocked retry is not pending, the attempts are at most the rounds without a flow,
  -- and one more if the decoder is not selected and a retry is not blocked at the start.
  pub attempts-losses :
      (es : List (Event A)) (s : State D) → IsWaiting s → attempts es s ≤ losses es + left s
  unfolding attempts losses handle
  attempts-losses [] s h = ground arith
  attempts-losses (notified a ∷ es) s h = attempts-losses es _ h
  attempts-losses (rounds r ∷ es) s h =
      let rest =
        attempts-losses es (round mixer is_sdi fixed_w fixed_h r s) (round-IsWaiting r s h) in
      let now = round-left r s h in omega (arith, rest, now)
