-- ===== src/Zz/Planes.antt =====
-- src/zzlab/ZzUtils.cpp, src/zzlab/ZzUtils_string.cpp: filling memory. The memory is a function from
-- addresses to what stands there.
use qcap_demos.Prelude.{
  ℕ, zero, suc, ◌+◌, ◌*◌, ◌≤◌, ◌<◌, ◌≡◌, ◌⊎◌, refl, ap, subst, ◌∙◌, ◌&&◌, List, [], ◌∷◌, ltb, leb,
  ◌==◌, if◌then◌else◌, arith,
}

abbrev pub Memory : Type 0
Memory = ℕ → ℕ

-- `memset`.
unfoldable pub memset : ℕ → ℕ → ℕ → Memory → Memory
memset dst value size mem a = if leb dst a && ltb a (dst + size) then value else mem a

-- The rows of one plane.
unfoldable pub fill_plane : ℕ → ℕ → ℕ → ℕ → ℕ → Memory → Memory
fill_plane dst step width zero value mem = mem
fill_plane dst step width (suc height) value mem =
    fill_plane (dst + step) step width height value (memset dst value width mem)

pub record Plane : Type 0 where
  pub dst : ℕ
  pub step : ℕ
  pub value : ℕ

-- `Set_8u_P4R`: the four planes, one after the other.
unfoldable pub fill_planes : ℕ → ℕ → List Plane → Memory → Memory
unfolding fill_plane
fill_planes width height [] mem = mem
fill_planes width height (p ∷ ps) mem =
    fill_planes width height ps (fill_plane p.dst p.step width height p.value mem)

-- `Fill_U32`, on a memory of 32-bit words.
unfoldable pub fill_u32 : ℕ → ℕ → ℕ → Memory → Memory
fill_u32 dst zero value mem = mem
fill_u32 dst (suc size) value mem =
    fill_u32 (dst + 1) size value (λ a. if a == dst then value else mem a)

fill_u32_at :
    (dst size value : ℕ) (mem : Memory) (a : ℕ)
    → fill_u32 dst size value mem a ≡ (if leb dst a && ltb a (dst + size) then value else mem a)
unfolding fill_u32
fill_u32_at dst zero value mem a = ground arith
fill_u32_at dst (suc size) value mem a =
    let next = fill_u32_at (dst + 1) size value (λ a. if a == dst then value else mem a) a in
    ground arith

memset_inside :
    (dst value size : ℕ) (mem : Memory) (a x : ℕ)
    → a ≡ dst + x
    → memset dst value size mem a ≡ (if ltb x size then value else mem a)
unfolding memset
memset_inside dst value size mem a x h = ground arith

memset_outside :
    (dst value size : ℕ) (mem : Memory) (a : ℕ)
    → dst + size ≤ a
    → memset dst value size mem a ≡ mem a
unfolding memset
memset_outside dst value size mem a h = ground arith

-- Outside the rows nothing changes.
fill_plane_outside :
    (dst step width height value : ℕ) (mem : Memory) (a : ℕ)
    → width ≤ step
    → (a < dst ⊎ dst + step * height ≤ a)
    → fill_plane dst step width height value mem a ≡ mem a
unfolding fill_plane memset
fill_plane_outside dst step width zero value mem a hw ho = refl
fill_plane_outside dst step width (suc height) value mem a hw ho =
    fill_plane_outside (dst + step) step width height value (memset dst value width mem) a hw
      (grind arith)
    ∙ grind arith

fill_plane_at :
    (dst step width height value : ℕ) (mem : Memory) (y x : ℕ)
    → width ≤ step
    → y < height
    → x < step
    → fill_plane dst step width height value mem (dst + step * y + x)
      ≡ (if ltb x width then value else mem (dst + step * y + x))
unfolding fill_plane
fill_plane_at dst step width zero value mem y x hw hy hx = absurd (omega arith)
fill_plane_at dst step width (suc height) value mem zero x hw hy hx =
    fill_plane_outside (dst + step) step width height value (memset dst value width mem)
      (dst + step * zero + x) hw (grind arith)
    ∙ memset_inside dst value width mem (dst + step * zero + x) x (grind arith)
fill_plane_at dst step width (suc height) value mem (suc y) x hw hy hx =
    let next =
      fill_plane_at (dst + step) step width height value (memset dst value width mem) y x hw
        (omega arith) hx in
    let same : dst + step + step * y + x ≡ dst + step * suc y + x = grind arith in
    let kept = memset_outside dst value width mem (dst + step + step * y + x) (omega arith) in
    subst
      (λ a.
        fill_plane (dst + step) step width height value (memset dst value width mem) a
        ≡ (if ltb x width then value else mem a))
      same (next ∙ ap (λ v. if ltb x width then value else v) kept)

-- With rows that do not overlap, a filled plane holds the value in the first `width` bytes of each of its rows,
-- and what was there before between them, before the first row and after the last.
pub fill_plane_lem :
    (p : Plane) (width height : ℕ) (mem : Memory) (y x a : ℕ)
    → width ≤ p.step
    → y < height
    → x < p.step
    → (a < p.dst ⊎ p.dst + p.step * height ≤ a)
    → (fill_plane p.dst p.step width height p.value mem (p.dst + p.step * y + x)
        ≡ (if ltb x width then p.value else mem (p.dst + p.step * y + x)))
      × (fill_plane p.dst p.step width height p.value mem a ≡ mem a)
fill_plane_lem p width height mem y x a hw hy hx ho = (
  fill_plane_at p.dst p.step width height p.value mem y x hw hy hx,
  fill_plane_outside p.dst p.step width height p.value mem a hw ho,
)
