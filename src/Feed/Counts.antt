-- ===== src/Feed/Counts.antt =====
-- The accounts of the decoder input.
use qcap_demos.Prelude.{◌/◌, ◌≡◌, Bool, true, false, ◌||◌, [], ◌∷◌, ◌++◌, arith, length, add64, ◌⊎◌}
use qcap_demos.Nal.{has_idr}
use qcap_demos.Feed.{Receiver, Answers, AccessUnit, fits, submit, feed_started, feed_locked}

-- The unit counts as a keyframe by its content or by its flag.
abbrev pub is_key : AccessUnit → Bool
is_key u = has_idr u.bytes || u.flag_keyframe

module _ {F : Type 0} (rx : Receiver F) (a : Answers) (u : AccessUnit)
    (ready : rx.decoder_initializing ≡ false) (enabled : rx.decode_enabled ≡ true)
    (running : rx.vdec_started ≡ true) where
  -- A unit that reaches a running decoder is counted as input once, and exactly once as pushed or as
  -- dropped, whatever the pool, the packet and the decoder answer.
  pub feed_locked_accounts :
      let rx' = feed_locked rx a u in
      (rx'.input_packets ≡ add64 rx.input_packets 1)
      × (((rx'.pushed_packets ≡ add64 rx.pushed_packets 1)
            × (rx'.dropped_packets ≡ rx.dropped_packets))
          ⊎ ((rx'.pushed_packets ≡ rx.pushed_packets)
              × (rx'.dropped_packets ≡ add64 rx.dropped_packets 1)))
  unfolding feed_locked feed_started submit
  feed_locked_accounts = ground arith

-- A keyframe opens the gate even if it is lost: if the pool has no buffer for it, the next unit is
-- handed to the decoder although it is no keyframe, also where the decoder has had none yet.
pub lost_keyframe_opens_gate :
    {F : Type 0} (rx : Receiver F) (a1 a2 : Answers) (u1 u2 : AccessUnit)
    → rx.decoder_initializing ≡ false
    → rx.decode_enabled ≡ true
    → rx.vdec_started ≡ true
    → is_key u1 ≡ true
    → a1.pool ≡ false
    → is_key u2 ≡ false
    → a2.pool ≡ true
    → fits a2.packet (length u2.bytes) ≡ true
    → (feed_locked (feed_locked rx a1 u1) a2 u2).sent
      ≡ rx.sent ++ record { bytes = u2.bytes; is_keyframe = false; time = u2.pts / 1000 } ∷ []
unfolding feed_locked feed_started submit
lost_keyframe_opens_gate rx a1 a2 u1 u2 i d s k p n q f = ground arith
