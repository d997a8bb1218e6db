-- ===== src/Feed/Params.antt =====
-- The decoder's parameters: what the parser publishes is taken whole, and only before a decoder runs.
use qcap_demos.Prelude.{ℕ, ◌<◌, ◌≡◌, Bool, true, false, some, arith, ◌⊎◌}
use qcap_demos.Feed.{
  Receiver, Caps, ok, Answers, AccessUnit, apply_caps, start_from_format, submit, init_ends,
  feed_started, feed_waiting, feed_locked, feed, enter,
}
use qcap_demos.Feed.Gate.{Reach, before_lock}

-- The parameters that a decoder was configured with, and that it runs.
pub record Frozen {F : Type 0} (s t : Receiver F) : Type 0 where
  pub running : t.vdec_started ≡ true
  pub extra : t.extra_data ≡ s.extra_data
  pub width : t.dec_width ≡ s.dec_width
  pub height : t.dec_height ≡ s.dec_height
  pub fps : t.dec_fps ≡ s.dec_fps

module _ {F : Type 0} (in_range : F → Bool) (sixty : F) where
  caps-Frozen :
      (s t : Receiver F) (c : Caps F) → Frozen s t → Frozen s (apply_caps in_range sixty t c).0
  unfolding apply_caps
  caps-Frozen s t c f = ground arith

  format-Frozen :
      (s t : Receiver F) (w h : ℕ) (fps : F)
      → Frozen s t
      → Frozen s (start_from_format in_range sixty t w h fps).0
  unfolding start_from_format
  format-Frozen s t w h fps f = ground arith

  fed-Frozen :
      (s t m : Receiver F) (a : Answers) (u : AccessUnit)
      → Frozen s t
      → Frozen s m
      → Frozen s (feed (λ _. m) t a u)
  unfolding feed feed_locked feed_started feed_waiting submit
  fed-Frozen s t m a u f g = ground arith

  before-Frozen : (s t : Receiver F) (u : AccessUnit) → Frozen s t → Frozen s (before_lock t u)
  unfolding enter
  before-Frozen s t u f = ground arith

  ends-Frozen : (s t : Receiver F) → Frozen s t → Frozen s (init_ends t)
  unfolding init_ends
  ends-Frozen s t f = ground arith

  -- Once a decoder runs, no interleaving of fed units, caps, format notices and initialisation
  -- threads changes the parameters that it was configured with, or stops it.
  pub Reach-Frozen : {r s t : Receiver F} → Frozen r s → Reach in_range sixty s t → Frozen r t
  Reach-Frozen f (Reach.here) = f
  Reach-Frozen f (Reach.caps r c) = caps-Frozen _ _ c (Reach-Frozen f r)
  Reach-Frozen f (Reach.format r w h fps) = format-Frozen _ _ w h fps (Reach-Frozen f r)
  Reach-Frozen f (Reach.runs r i s) = let g = Reach-Frozen f r in ground arith
  Reach-Frozen f (Reach.ends r i s) = ends-Frozen _ _ (Reach-Frozen f r)
  Reach-Frozen f (Reach.fails r i s) = let g = Reach-Frozen f r in ground arith
  Reach-Frozen f (Reach.fed a u r m) =
      let g = Reach-Frozen f r in fed-Frozen _ _ _ a u g (Reach-Frozen (before-Frozen _ _ u g) m)

  -- Caps are applied as a whole or not at all. The receiver changes only if no decoder runs or
  -- starts, and then the caps were H.264 with at least 11 bytes of avcC and a size that is not 0, and
  -- these are what the receiver holds, with a rate in range or the default.
  pub apply_caps_lem :
      (rx : Receiver F) (c : Caps F)
      → let (rx', o) = apply_caps in_range sixty rx c in
        (rx' ≡ rx)
        ⊎ ((o ≡ ok)
            × (rx.vdec_started ≡ false)
            × (rx.decoder_initializing ≡ false)
            × (c.is_h264 ≡ true)
            × (rx'.extra_data ≡ c.avcc)
            × (some rx'.dec_width ≡ c.width)
            × (some rx'.dec_height ≡ c.height)
            × (0 < rx'.dec_width)
            × (0 < rx'.dec_height)
            × ((in_range rx'.dec_fps ≡ true) ⊎ (rx'.dec_fps ≡ sixty)))
  unfolding apply_caps
  apply_caps_lem rx c = ground arith
