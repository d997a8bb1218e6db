-- ===== src/Feed/Gate.antt =====
-- The decoder under every interleaving of the threads that touch it.
use qcap_demos.Prelude.{
  ℕ, ◌/◌, ◌≡◌, refl, Bool, true, false, ◌&&◌, ◌||◌, List, [], ◌∷◌, ◌++◌, arith, if◌then◌else◌,
  add64,
}
use qcap_demos.Nal.{has_idr}
use qcap_demos.Feed.{
  Packet, Receiver, Caps, Answers, AccessUnit, apply_caps, start_from_format, submit, is_configured,
  decoder_runs, init_ends, init_fails, feed_started, feed_waiting, feed_locked, feed, enter,
}

-- The receiver that a unit leaves while it waits for the lock.
abbrev pub before_lock : {F : Type 0} → Receiver F → AccessUnit → Receiver F
before_lock rx u = if u.flag_drop then rx else enter rx

module _ {F : Type 0} (in_range : F → Bool) (sixty : F) where
  -- What can happen to the receiver. A unit that is fed waits for the lock, and anything may happen
  -- while it does; the thread of an initialisation ends with a decoder that runs or without one.
  pub data Reach : Receiver F → Receiver F → Type 0 where
    here : {s : Receiver F} → Reach s s
    caps : {s t : Receiver F} → Reach s t → (c : Caps F) → Reach s (apply_caps in_range sixty t c).0
    format :
        {s t : Receiver F}
        → Reach s t
        → (w h : ℕ) (fps : F) → Reach s (start_from_format in_range sixty t w h fps).0
    runs :
        {s t : Receiver F}
        → Reach s t
        → t.decoder_initializing ≡ true
        → t.vdec_started ≡ false
        → Reach s (decoder_runs t)
    ends :
        {s t : Receiver F}
        → Reach s t
        → t.decoder_initializing ≡ true
        → t.vdec_started ≡ true
        → Reach s (init_ends t)
    fails :
        {s t : Receiver F}
        → Reach s t
        → t.decoder_initializing ≡ true
        → t.vdec_started ≡ false
        → Reach s (init_fails t)
    fed :
        {s t m : Receiver F} (a : Answers) (u : AccessUnit)
        → Reach s t
        → Reach (before_lock t u) m
        → Reach s (feed (λ _. m) t a u)

abbrev pub StartsWithKey : List Packet → Type 0
StartsWithKey [] = Unit {0}
StartsWithKey (p ∷ _) = p.is_keyframe ≡ true

pub record IsGated {F : Type 0} (rx : Receiver F) : Type 0 where
  pub idle : rx.vdec_started ≡ false → rx.submitted ≡ []
  pub gated : rx.submitted ≡ [] → rx.vdec_started ≡ true → rx.wait_for_idr ≡ true
  pub starting : rx.decoder_initializing ≡ true → rx.wait_for_idr ≡ true
  pub first_key : StartsWithKey rx.submitted
  pub configured : (rx.vdec_started || rx.decoder_initializing) ≡ true → is_configured rx ≡ true

append-StartsWithKey :
    (ps : List Packet) (p : Packet)
    → StartsWithKey ps
    → (ps ≡ [] → p.is_keyframe ≡ true)
    → StartsWithKey (ps ++ p ∷ [])
append-StartsWithKey [] p h k = k refl
append-StartsWithKey (q ∷ ps) p h k = h

append-ne-nil : (ps : List Packet) (p : Packet) → ps ++ p ∷ [] ≡ [] → ⊥
append-ne-nil [] p e = cc
append-ne-nil (q ∷ ps) p e = cc

module _ {F : Type 0} (in_range : F → Bool) (sixty : F) where
  caps-IsGated :
      (rx : Receiver F) (c : Caps F) → IsGated rx → IsGated (apply_caps in_range sixty rx c).0
  unfolding apply_caps is_configured
  caps-IsGated rx c g = ground arith

  format-IsGated :
      (rx : Receiver F) (w h : ℕ) (fps : F)
      → IsGated rx
      → IsGated (start_from_format in_range sixty rx w h fps).0
  unfolding start_from_format is_configured
  format-IsGated rx w h fps g = ground arith

module _ {F : Type 0} where
  -- What submitting leaves alone.
  submit-frame :
      (rx : Receiver F) (a : Answers) (p : Packet)
      → let rx' = submit rx a p in
        (rx'.submitted ≡ rx.submitted)
        × (rx'.wait_for_idr ≡ rx.wait_for_idr)
        × (rx'.vdec_started ≡ rx.vdec_started)
        × (rx'.decoder_initializing ≡ rx.decoder_initializing)
        × (is_configured rx' ≡ is_configured rx)
  unfolding submit is_configured
  submit-frame rx a p = ground arith

  started-IsGated :
      (rx : Receiver F) (a : Answers) (u : AccessUnit) (key : Bool)
      → IsGated rx
      → rx.vdec_started ≡ true
      → rx.decoder_initializing ≡ false
      → IsGated (feed_started rx a u key)
  unfolding feed_started is_configured
  started-IsGated rx a u key g s i =
      let p : Packet = record { bytes = u.bytes; is_keyframe = key; time = u.pts / 1000 } in
      let r : Receiver F = record rx { wait_for_idr = false; submitted = rx.submitted ++ p ∷ [] } in
      ground (
        arith,
        submit-frame r a p,
        append-StartsWithKey rx.submitted p,
        append-ne-nil rx.submitted p,
      )

  waiting-IsGated :
      (rx : Receiver F) (key : Bool)
      → IsGated rx
      → rx.vdec_started ≡ false
      → IsGated (feed_waiting rx key)
  unfolding feed_waiting is_configured
  waiting-IsGated rx key g s = ground arith

  counted-IsGated :
      (rx : Receiver F) (b : Bool) (n : ℕ)
      → IsGated rx
      → IsGated (record rx { file_open = b; input_packets = n })
  unfolding is_configured
  counted-IsGated rx b n g = ground arith

  locked-IsGated :
      (rx : Receiver F) (a : Answers) (u : AccessUnit) → IsGated rx → IsGated (feed_locked rx a u)
  unfolding feed_locked is_configured
  locked-IsGated rx a u g =
      let counted : Receiver F = record rx {
        file_open = rx.file_open && a.file;
        input_packets = add64 rx.input_packets 1;
      } in
      let c : IsGated counted =
        counted-IsGated rx (rx.file_open && a.file) (add64 rx.input_packets 1) g in
      let key = has_idr u.bytes || u.flag_keyframe in
      ground (arith, started-IsGated counted a u key c, waiting-IsGated counted key c)

  feed-IsGated :
      (m rx : Receiver F) (a : Answers) (u : AccessUnit)
      → IsGated rx
      → IsGated m
      → IsGated (feed (λ _. m) rx a u)
  unfolding feed is_configured
  feed-IsGated m rx a u g e = ground (arith, locked-IsGated m a u e)

  before_lock-IsGated : (rx : Receiver F) (u : AccessUnit) → IsGated rx → IsGated (before_lock rx u)
  unfolding enter is_configured
  before_lock-IsGated rx u g = ground arith

  -- The thread's ends.
  runs-IsGated :
      (rx : Receiver F)
      → rx.decoder_initializing ≡ true
      → rx.vdec_started ≡ false
      → IsGated rx
      → IsGated (decoder_runs rx)
  unfolding decoder_runs is_configured
  runs-IsGated rx i s g = ground arith

  ends-IsGated : (rx : Receiver F) → rx.vdec_started ≡ true → IsGated rx → IsGated (init_ends rx)
  unfolding init_ends is_configured
  ends-IsGated rx s g = ground arith

  fails-IsGated : (rx : Receiver F) → rx.vdec_started ≡ false → IsGated rx → IsGated (init_fails rx)
  unfolding init_fails is_configured
  fails-IsGated rx s g = ground arith

-- A receiver before its first decoder.
abbrev pub IsFresh : {F : Type 0} → Receiver F → Type 0
IsFresh rx = (rx.decoder_initializing ≡ false) × (rx.vdec_started ≡ false) × (rx.submitted ≡ [])

fresh-IsGated : {F : Type 0} (rx : Receiver F) → IsFresh rx → IsGated rx
fresh-IsGated rx f = ground arith

module _ {F : Type 0} (in_range : F → Bool) (sixty : F) where
  Reach-IsGated : {s t : Receiver F} → Reach in_range sixty s t → IsGated s → IsGated t
  Reach-IsGated (Reach.here) g = g
  Reach-IsGated (Reach.caps r c) g = caps-IsGated in_range sixty _ c (Reach-IsGated r g)
  Reach-IsGated (Reach.format r w h fps) g =
      format-IsGated in_range sixty _ w h fps (Reach-IsGated r g)
  Reach-IsGated (Reach.runs r i s) g = runs-IsGated _ i s (Reach-IsGated r g)
  Reach-IsGated (Reach.ends r i s) g = ends-IsGated _ s (Reach-IsGated r g)
  Reach-IsGated (Reach.fails r i s) g = fails-IsGated _ s (Reach-IsGated r g)
  Reach-IsGated (Reach.fed a u r m) g =
      let before = Reach-IsGated r g in
      feed-IsGated _ _ a u before (Reach-IsGated m (before_lock-IsGated _ u before))

  -- Under every interleaving of fed units, parser caps, format notices and initialisation threads
  -- from a fresh receiver: no packet is submitted before a decoder runs, the first packet submitted
  -- is a keyframe, a running decoder that was submitted nothing waits for one, and a decoder runs or
  -- is being started only with non-empty avcC and a size that is not 0.
  pub reachable-IsGated : {s t : Receiver F} → IsFresh s → Reach in_range sixty s t → IsGated t
  reachable-IsGated {s} f r = Reach-IsGated r (fresh-IsGated s f)
