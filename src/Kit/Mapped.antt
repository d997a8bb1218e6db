-- ===== src/Kit/Mapped.antt =====
-- src/zzlab/testkit.h: mapping a DMA buffer, whose address is added to the offsets of the planes
-- (`map_video_qdmabuf`, `unmap_video_qdmabuf`).
use qcap_demos.Prelude.{
  ℕ, ◌<◌, ◌^◌, ◌≡◌, refl, sym, ap₂, Bool, true, false, List, [], ◌∷◌, map, add64, sub64, ◌==◌,
  if◌then◌else◌, arith,
}

-- A frame: where its planes begin, and whether its buffer is mapped.
pub record Frame : Type 0 where
  pub planes : List ℕ
  pub mapped : Bool

-- The codes of the calls that map the buffer and look it up, and the address that it has.
unfoldable pub map_video_qdmabuf : ℕ → ℕ → ℕ → Frame → ℕ × Frame
map_video_qdmabuf map_code get_code address frame =
    if map_code == 0
    then (if get_code == 0
        then (0, record { planes = map (λ p. add64 p address) frame.planes; mapped = true })
        else (get_code, record frame { mapped = true }))
    else (map_code, frame)

unfoldable pub unmap_video_qdmabuf : ℕ → ℕ → ℕ → Frame → ℕ × Frame
unmap_video_qdmabuf unmap_code get_code address frame =
    let moved = map (λ p. sub64 p address) frame.planes in
    if get_code == 0
    then (if unmap_code == 0
        then (0, record { planes = moved; mapped = false })
        else (unmap_code, record frame { planes = moved }))
    else (get_code, frame)

abbrev answer : ℕ → List ℕ → Bool → ℕ × Frame
answer code planes mapped = (code, record { planes = planes; mapped = mapped })

abbrev pub AreWords : List ℕ → Type 0
AreWords [] = Unit {0}
AreWords (p ∷ ps) = (p < 2 ^ 64) × AreWords ps

moved_back :
    (ps : List ℕ) (address : ℕ)
    → AreWords ps
    → address < 2 ^ 64
    → map (λ p. sub64 p address) (map (λ p. add64 p address) ps) ≡ ps
moved_back [] address h ha = refl
moved_back (p ∷ ps) address h ha = ap₂ ◌∷◌ (omega arith) (moved_back ps address h.1 ha)

-- A frame whose buffer was not mapped has its planes where they were after a mapping and an unmapping
-- that both succeed, at whatever address the buffer was; if the address is not found after the buffer
-- was mapped, the mapping fails but the buffer stays mapped, with the planes as they were.
pub map-unmap :
    (frame : Frame) (address code : ℕ)
    → AreWords frame.planes
    → address < 2 ^ 64
    → frame.mapped ≡ false
    → 0 < code
    → (unmap_video_qdmabuf 0 0 address (map_video_qdmabuf 0 0 address frame).1 ≡ (0, frame))
      × (map_video_qdmabuf 0 code address frame ≡ (code, record frame { mapped = true }))
unfolding map_video_qdmabuf unmap_video_qdmabuf
map-unmap frame address code h ha hm hc =
    let back = moved_back frame.planes address h ha in
    (ap₂ (λ ps m. answer 0 ps m) back (sym hm), ground arith)
