-- ===== src/Zz/Pages.antt =====
-- src/zzlab/ZzUtils_memory.cpp: mapping of physical memory by whole pages. The results of `open` and `mmap`
-- are arguments, and the page size is a power of two.
pub mod Cover
use qcap_demos.Prelude.{
  ℕ, ◌+◌, ◌-◌, ◌*◌, ◌/◌, ◌%◌, ◌^◌, Bool, true, false, Option, none, some, if◌then◌else◌,
}

-- What is mapped: from which physical address, how many bytes were asked for, and where the mapping is.
pub record Mapping : Type 0 where
  pub physical : ℕ
  pub length : ℕ
  pub map_base : ℕ

-- `memory_map`: the mapping and the address that is returned; `none` is NULL. `mmap` gives an address or
-- fails, and the file is closed in both cases.
unfoldable pub memory_map : Bool → Option ℕ → ℕ → ℕ → ℕ → Option (Mapping × ℕ)
memory_map false mmap page base_addr length = none
memory_map true none page base_addr length = none
memory_map true (some map_base) page base_addr length =
    let offset_in_page = base_addr % page in
    some (
      record { physical = base_addr - base_addr % page; length = length; map_base = map_base },
      map_base + offset_in_page,
    )

-- `UserMM`: the size of the mapping of the addresses from `base_addr` to `high_addr`.
unfoldable pub mapped_size : ℕ → ℕ → ℕ → ℕ
mapped_size page base_addr high_addr =
    let size = high_addr - base_addr + 1 in let pages = (size + (page - 1)) / page in pages * page

pub record UserMm : Type 0 where
  pub size : ℕ
  pub base_addr : ℕ
  pub high_addr : ℕ
  pub is_open : Bool

-- The constructor; neither `open` nor `mmap`, which gives `address`, is tested.
unfoldable pub user_mm : ℕ → Bool → ℕ → ℕ → ℕ → UserMm
unfolding mapped_size
user_mm page opens address base_addr high_addr =
    let size = mapped_size page base_addr high_addr in
    record { size = size; base_addr = address; high_addr = address + (size - 1); is_open = opens }

-- The destructor: what is unmapped.
unfoldable pub unmapped : UserMm → Option (ℕ × ℕ)
unmapped m = if m.is_open then some (m.base_addr, m.size) else none

-- `UserMM::Read` and `Write` on a memory of words.
unfoldable pub read_word : (ℕ → ℕ) → UserMm → ℕ → ℕ
read_word memory m offset = memory (m.base_addr + offset)
