-- ===== src/Modeset/Harmless.antt =====
-- src/tests/sc6f0-dante-rx.cpp: what an `apply_drm_modeset` that fails does all the same.
use qcap_demos.Prelude.{
  ℕ, ◌≡◌, refl, Bool, true, false, ◌&&◌, not, List, [], ◌∷◌, ◌++◌, Option, none, some, arith,
  if◌then◌else◌, either, &&-elim,
}
use qcap_demos.Modeset.Kernel.{
  Kind, mode_blob, Call, create, destroy, commit, passthrough, configure_vtpg,
  set_vmix_layer1_opaque, Request, Display, Settings, Answers,
}
use qcap_demos.Modeset.Apply.{
  Buffers, Fresh, create_dumb_fb, destroy_dumb_fb, discard, overlay_buffers, wants_overlay,
}

-- What a modeset that fails may do: make and destroy objects, ask for a commit that is refused and, on an SDI output
-- only, switch the passthrough of the FPGA off.
unfoldable pub is_harmless : Settings → Answers → Call → Bool
is_harmless settings a (create kind id) = true
is_harmless settings a (destroy kind id) = true
is_harmless settings a (commit request) = not a.commits
is_harmless settings a (passthrough on) = settings.is_sdi && not on
is_harmless settings a (configure_vtpg w h) = false
is_harmless settings a set_vmix_layer1_opaque = false

unfoldable pub all_harmless : Settings → Answers → List Call → Bool
all_harmless settings a [] = true
all_harmless settings a (c ∷ cs) = is_harmless settings a c && all_harmless settings a cs

pub all_harmless-append :
    (settings : Settings) (a : Answers) (xs ys : List Call)
    → all_harmless settings a xs ≡ true
    → all_harmless settings a ys ≡ true
    → all_harmless settings a (xs ++ ys) ≡ true
unfolding all_harmless
all_harmless-append settings a [] ys hx hy = hy
all_harmless-append settings a (x ∷ xs) ys hx hy =
    let both = &&-elim (is_harmless settings a x) (all_harmless settings a xs) hx in
    let rest = all_harmless-append settings a xs ys both.1 hy in rw (both.0, rest) refl

pub create-harmless :
    (settings : Settings) (a : Answers) (kind : Kind) (id : ℕ) (cs : List Call)
    → all_harmless settings a cs ≡ true
    → all_harmless settings a (create kind id ∷ cs) ≡ true
unfolding all_harmless is_harmless
create-harmless settings a kind id cs h = h

pub create_dumb_fb-harmless :
    (settings : Settings) (a : Answers) (handle fb : Option ℕ)
    → all_harmless settings a (create_dumb_fb handle fb).1 ≡ true
unfolding create_dumb_fb all_harmless is_harmless
create_dumb_fb-harmless settings a none fb = refl
create_dumb_fb-harmless settings a (some bo) none = refl
create_dumb_fb-harmless settings a (some bo) (some fb) = refl

pub overlay_buffers-harmless :
    (settings : Settings) (a : Answers) (d : Display) (enable : Bool)
    → all_harmless settings a (overlay_buffers a d enable).1 ≡ true
unfolding all_harmless
overlay_buffers-harmless settings a d enable =
    either (λ (made : Option Buffers × List Call). all_harmless settings a made.1 ≡ true)
      (wants_overlay d enable)
      (λ (_ : wants_overlay d enable ≡ true).
        create_dumb_fb-harmless settings a a.overlay.handle a.overlay.fb)
      (λ (_ : wants_overlay d enable ≡ false). refl)

destroy_dumb_fb-harmless :
    (settings : Settings) (a : Answers) (fb bo : ℕ)
    → all_harmless settings a (destroy_dumb_fb fb bo) ≡ true
unfolding destroy_dumb_fb all_harmless is_harmless
destroy_dumb_fb-harmless settings a fb bo = ground arith

pub blob-harmless :
    (settings : Settings) (a : Answers) (id : ℕ)
    → all_harmless settings a (destroy mode_blob id ∷ []) ≡ true
unfolding all_harmless is_harmless
blob-harmless settings a id = refl

pub discard-harmless :
    (settings : Settings) (a : Answers) (f : Fresh) → all_harmless settings a (discard f) ≡ true
unfolding discard
discard-harmless settings a f =
    all_harmless-append settings a (destroy_dumb_fb f.primary.0 f.primary.1) _
      (destroy_dumb_fb-harmless settings a f.primary.0 f.primary.1)
      (all_harmless-append settings a (destroy_dumb_fb f.overlay.0 f.overlay.1) _
        (destroy_dumb_fb-harmless settings a f.overlay.0 f.overlay.1)
        (blob-harmless settings a f.blob))

-- After the objects were made: the commit is not reached, or refused.
pub refused-harmless :
    (settings : Settings) (a : Answers) (ready : Bool) (request : Request) (f : Fresh)
    → ready && a.commits ≡ false
    → all_harmless settings a (
        (if settings.is_sdi then passthrough false ∷ [] else [])
        ++ ((if ready then commit request ∷ [] else []) ++ discard f))
      ≡ true
unfolding all_harmless is_harmless
refused-harmless settings a ready request f h =
    all_harmless-append settings a (if settings.is_sdi then passthrough false ∷ [] else []) _
      (ground arith)
      (all_harmless-append settings a (if ready then commit request ∷ [] else []) (discard f)
        (ground (arith, h)) (discard-harmless settings a f))
