-- ===== src/Tx/Clients.antt =====
-- src/tests/sc6f0-dante-tx.cpp: a client that asks again after each signal knows the input.
use qcap_demos.Prelude.{
  ◌≡◌, refl, sym, ap, subst, ◌∙◌, Bool, true, false, List, [], ◌∷◌, ◌++◌, Option, none, some, arith,
}
use qcap_demos.Tx.{
  VideoFormat, AudioInfo, same, video_format_equal, audio_info_equal, Codes, Found, Signal,
  cable_change, video_change, audio_change, Tx, initial, new_video, new_audio, publish_video,
  publish_audio, on_dmx, get_cable_status, get_video_format, get_audio_info,
}

video_format_equal→≡ : (v w : VideoFormat) → video_format_equal v w ≡ true → v ≡ w
unfolding video_format_equal
video_format_equal→≡ v w h = ground arith

audio_info_equal→≡ : (a b : AudioInfo) → audio_info_equal a b ≡ true → a ≡ b
unfolding audio_info_equal
audio_info_equal→≡ a b h = ground arith

-- What a client knows: the last answers that it got.
pub record Client : Type 0 where
  pub is_locked : Option Bool
  pub video : Option VideoFormat
  pub audio : Option AudioInfo

abbrev pub new_client : Client
new_client = record { is_locked = none; video = none; audio = none }

-- It asks for what a signal is about; the answer is that of the state after the handler.
abbrev pub ask : Tx → Signal → Client → Client
ask t cable_change c = record c { is_locked = some (get_cable_status t) }
ask t video_change c = record c { video = some (get_video_format t) }
ask t audio_change c = record c { audio = some (get_audio_info t) }

abbrev pub ask_all : Tx → List Signal → Client → Client
ask_all t [] c = c
ask_all t (s ∷ ss) c = ask_all t ss (ask t s c)

-- What the client has been told about is what the transmitter has.
abbrev pub IsCurrent : Tx → Client → Type 0
IsCurrent t c =
    (t.has_published_video ≡ true → (c.is_locked ≡ some t.video.locked) × (c.video ≡ some t.video))
    × (t.has_published_audio ≡ true → c.audio ≡ some t.audio)

same→≡ : (a b : Bool) → same a b ≡ true → a ≡ b
same→≡ a b h = ground arith

ask_all-append :
    (t : Tx) (ss ss' : List Signal) (c : Client)
    → ask_all t (ss ++ ss') c ≡ ask_all t ss' (ask_all t ss c)
ask_all-append t [] ss' c = refl
ask_all-append t (s ∷ ss) ss' c = ask_all-append t ss ss' (ask t s c)

-- After the signals of a publication, asked in any state with what was published.
publish_video-told :
    (v : VideoFormat) (t u : Tx) (c : Client)
    → u.video ≡ v
    → (t.has_published_video ≡ true
        → (c.is_locked ≡ some t.video.locked) × (c.video ≡ some t.video))
    → let told = ask_all u (publish_video true v t).1 c in
      (told.is_locked ≡ some v.locked) × (told.video ≡ some v) × (told.audio ≡ c.audio)
unfolding publish_video get_cable_status get_video_format
publish_video-told v t u c hu h =
    let equal = video_format_equal→≡ t.video v in
    let locks = same→≡ t.video.locked v.locked in ground arith

publish_audio-told :
    (a : AudioInfo) (t u : Tx) (c : Client)
    → u.audio ≡ a
    → (t.has_published_audio ≡ true → c.audio ≡ some t.audio)
    → let told = ask_all u (publish_audio true a t).1 c in
      (told.is_locked ≡ c.is_locked) × (told.video ≡ c.video) × (told.audio ≡ some a)
unfolding publish_audio get_audio_info
publish_audio-told a t u c hu h = let equal = audio_info_equal→≡ t.audio a in ground arith

publish_video-state :
    (v : VideoFormat) (t : Tx)
    → ((publish_video true v t).0.video ≡ v)
      × (((publish_video true v t).0.has_published_video ≡ true)
          × (((publish_video true v t).0.audio ≡ t.audio)
              × ((publish_video true v t).0.has_published_audio ≡ t.has_published_audio)))
unfolding publish_video
publish_video-state v t = (refl, (refl, (refl, refl)))

publish_audio-state :
    (a : AudioInfo) (t : Tx)
    → ((publish_audio true a t).0.audio ≡ a)
      × (((publish_audio true a t).0.video ≡ t.video)
          × (((publish_audio true a t).0.has_published_audio ≡ true)
              × ((publish_audio true a t).0.has_published_video ≡ t.has_published_video)))
unfolding publish_audio
publish_audio-state a t = (refl, (refl, (refl, refl)))

-- `OnDmx` with what it computes of the sources.
abbrev step : Bool → Option VideoFormat → Option AudioInfo → Tx → Tx × List Signal
step false v a t = (t, [])
step true none a t = (t, [])
step true (some v) none t = publish_video true v t
step true (some v) (some a) t =
    let (t', signals) = publish_video true v t in
    let (t'', more) = publish_audio true a t' in (t'', signals ++ more)

step-IsCurrent :
    (is_updated : Bool) (v : Option VideoFormat) (a : Option AudioInfo) (t : Tx) (c : Client)
    → IsCurrent t c
    → let (t', signals) = step is_updated v a t in IsCurrent t' (ask_all t' signals c)
step-IsCurrent false v a t c h = h
step-IsCurrent true none a t c h = h
step-IsCurrent true (some v) none t c h =
    let state = publish_video-state v t in
    let told = publish_video-told v t (publish_video true v t).0 c state.0 h.0 in
    let kept = h.1 in ground arith
step-IsCurrent true (some v) (some a) t c h =
    let t' = (publish_video true v t).0 in
    let u = (publish_audio true a t').0 in
    let c' = ask_all u (publish_video true v t).1 c in
    let state = publish_video-state v t in
    let state' = publish_audio-state a t' in
    let told = publish_video-told v t u c (state'.1.0 ∙ state.0) h.0 in
    let told' = publish_audio-told a t' u c' state'.0 (ground arith) in
    let split = ask_all-append u (publish_video true v t).1 (publish_audio true a t').1 c in
    let kept = h.1 in ground arith

video_format_equal_self : (v : VideoFormat) → video_format_equal v v ≡ true
unfolding video_format_equal
video_format_equal_self v = ground arith

audio_info_equal_self : (a : AudioInfo) → audio_info_equal a a ≡ true
unfolding audio_info_equal
audio_info_equal_self a = ground arith

step_again :
    (is_updated : Bool) (v : Option VideoFormat) (a : Option AudioInfo) (t : Tx)
    → (step is_updated v a (step is_updated v a t).0).1 ≡ []
unfolding publish_video publish_audio
step_again false v a t = refl
step_again true none a t = refl
step_again true (some v) none t = let eq = video_format_equal_self v in ground arith
step_again true (some v) (some a) t =
    let eq = video_format_equal_self v in let eq' = audio_info_equal_self a in ground arith

module _ (codes : Codes) where
  -- The client over the changes of the input.
  abbrev pub serve : List Found → Tx → Client → Tx × Client
  serve [] t c = (t, c)
  serve (f ∷ fs) t c =
      let (t', signals) = on_dmx codes true f t in serve fs t' (ask_all t' signals c)

  on_dmx-step :
      (f : Found) (t : Tx)
      → on_dmx codes true f t ≡ step f.is_updated (new_video codes f) (new_audio codes f) t
  unfolding on_dmx
  on_dmx-step f t = ground arith

  on_dmx-IsCurrent :
      (f : Found) (t : Tx) (c : Client)
      → IsCurrent t c
      → let (t', signals) = on_dmx codes true f t in IsCurrent t' (ask_all t' signals c)
  on_dmx-IsCurrent f t c h =
      subst (λ p. IsCurrent p.0 (ask_all p.0 p.1 c)) (sym (on_dmx-step f t))
        (step-IsCurrent f.is_updated (new_video codes f) (new_audio codes f) t c h)

  serve_from :
      (fs : List Found) (t : Tx) (c : Client)
      → IsCurrent t c
      → let (t', c') = serve fs t c in IsCurrent t' c'
  serve_from [] t c h = h
  serve_from (f ∷ fs) t c h =
      let (t', signals) = on_dmx codes true f t in
      serve_from fs t' (ask_all t' signals c) (on_dmx-IsCurrent f t c h)

  -- A client that asks again after each signal knows, after any changes of the input and whatever starts or fails to,
  -- the lock and the video format of the transmitter, once these were published, and its audio information, once
  -- that was.
  pub serve-IsCurrent :
      (fs : List Found) → let (t, c) = serve fs initial new_client in IsCurrent t c
  serve-IsCurrent fs =
      serve_from fs initial new_client (λ h. absurd (ground arith), λ h. absurd (ground arith))

  -- No signal is sent when the sources report again what they reported before.
  pub on_dmx_again : (f : Found) (t : Tx) → (on_dmx codes true f (on_dmx codes true f t).0).1 ≡ []
  on_dmx_again f t =
      let once = on_dmx-step f t in
      let v = new_video codes f in
      let a = new_audio codes f in
      ap (λ p. p.1)
        (on_dmx-step f (on_dmx codes true f t).0 ∙ ap (λ p. step f.is_updated v a p.0) once)
      ∙ step_again f.is_updated v a t
