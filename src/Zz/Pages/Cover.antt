-- ===== src/Zz/Pages/Cover.antt =====
-- src/zzlab/ZzUtils_memory.cpp: which addresses a mapping covers.
use qcap_demos.Prelude.{ℕ, ◌+◌, ◌-◌, ◌*◌, ◌/◌, ◌%◌, ◌≤◌, ◌<◌, ◌≡◌, ◌↔◌, refl, true, some, arith}
use qcap_demos.Zz.Pages.{Mapping, memory_map, mapped_size}
use native.Mathlib.Nat.{lt-div-mul-add, div-mul-le_self, mul-mod_left}

-- The system maps whole pages.
abbrev pub mapped_to : ℕ → Mapping → ℕ
mapped_to page m = m.physical + (m.length + (page - 1)) / page * page

-- For a range whose last address is not before its first: the size of the mapping is a multiple of the
-- page size, holds the range, and exceeds it by less than a page.
pub mapped_size_bounds :
    (page base high : ℕ)
    → 0 < page
    → base ≤ high
    → (high - base < mapped_size page base high)
      × (mapped_size page base high < high - base + 1 + page)
      × (mapped_size page base high % page ≡ 0)
unfolding mapped_size
mapped_size_bounds page base high hp h =
    let above = lt-div-mul-add {a = high - base + 1 + (page - 1)} {b = page} hp in
    let below = div-mul-le_self (high - base + 1 + (page - 1)) page in
    (omega arith, omega arith, mul-mod_left ((high - base + 1 + (page - 1)) / page) page)

-- The pointer stands for `base`; all of the `length` bytes from `base` on are mapped exactly if the
-- offset of `base` in its page and the length fit into the pages that the length alone needs.
pub memory_map_covers :
    (page base length address : ℕ)
    → 0 < page
    → (memory_map true (some address) page base length
        ≡ some (
          record { physical = base - base % page; length = length; map_base = address },
          address + base % page,
        ))
      × ((base + length
            ≤ mapped_to page
                (record { physical = base - base % page; length = length; map_base = address }))
          ↔ (base % page + length ≤ (length + (page - 1)) / page * page))
unfolding memory_map
memory_map_covers page base length address hp = (refl, ((λ h. omega arith), (λ h. omega arith)))
