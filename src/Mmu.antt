-- ===== src/Mmu.antt =====
-- src/mmu.c: the mapping slots of a processor, through which root mode looks at physical pages,
-- and the walk of a guest's page tables. Masks are written as arithmetic on 64-bit values.
pub mod Slots
pub mod Walk
mod Tests
use deepshield.Prelude.{
  ℕ, zero, suc, ◌+◌, ◌-◌, ◌*◌, ◌/◌, ◌%◌, ◌^◌, Bool, true, false, not, ◌&&◌, ◌||◌, Option, none,
  some, List, [], ◌∷◌, ◌==◌, if◌then◌else◌, word,
}

-- MMU_MAPPING; `pte` is the entry that PointerPte leads to.
pub record MmuMapping : Type 0 where
  pub map_in_use : ℕ
  pub base_va : ℕ
  pub pte : ℕ

-- A loop over the mapping slots that stops at the first one with a property: the slot, as it was,
-- and the slots with it changed.
pub change_first :
    (MmuMapping → Bool)
    → (MmuMapping → MmuMapping)
    → List MmuMapping
    → Option (MmuMapping × List MmuMapping)
change_first p f [] = none
change_first p f (m ∷ ms) =
    let rest = change_first p f ms in
    if p m
    then some (m, f m ∷ ms)
    else elim rest [ none ↦ none | some (n, ms') ↦ some (n, m ∷ ms') ]

-- PTE64_PFN_MASK
abbrev pub frame : ℕ → ℕ
frame x = x / 4096 % 2 ^ 40 * 4096

-- The mask 0xFFFFFFFFFFFFF000
abbrev pub page_of : ℕ → ℕ
page_of x = x % word / 4096 * 4096

-- MmupCreatePte on x64; the flags are below the frame.
abbrev pub create_pte : ℕ → ℕ → ℕ
create_pte physical_address flags = frame physical_address + flags

-- DefaultPte, and PAGE_CACHE_UC.
abbrev pub default_pte : ℕ
default_pte = 0x63

abbrev pub page_cache_uc : ℕ
page_cache_uc = 0x18

-- The test and the exchange of MmuAcquireMapping.
abbrev pub is_free : MmuMapping → Bool
is_free m = m.map_in_use == 0

-- The test of MmuGetMappingForVa.
abbrev pub is_mapping_for : ℕ → MmuMapping → Bool
is_mapping_for va m = not (m.map_in_use == 0) && (m.base_va == va)

-- MmuMapIoPage, with MmuAcquireMapping: the address, and the slots.
pub map_io_page : List MmuMapping → ℕ → Bool → Option (ℕ × List MmuMapping)
map_io_page ms physical_page uncached =
    let flags = (if uncached then default_pte + page_cache_uc else default_pte) in
    let pte = create_pte physical_page flags in
    elim (change_first is_free (λ m. record m { map_in_use = 1; pte = pte }) ms) [
      | none ↦ none
      | some (m, ms') ↦ some (m.base_va, ms')
    ]

-- MmuUnmapIoPage, with MmuGetMappingForVa and MmuReleaseMapping.
pub unmap_io_page : List MmuMapping → ℕ → List MmuMapping
unmap_io_page ms va =
    elim (change_first (is_mapping_for va)
      (λ m. record m { pte = 0; map_in_use = if m.map_in_use == 1 then 0 else m.map_in_use }) ms) [
        | none ↦ ms
        | some (_, ms') ↦ ms'
      ]

-- The entry that a read through a slot gives: MmuGetPmlEntry at a mapped table. `physical` is the
-- memory by page and index of a 64-bit word.
pub get_pml_entry : (physical : ℕ → ℕ → ℕ) → List MmuMapping → ℕ → ℕ → ℕ
get_pml_entry physical ms table index = elim (change_first (is_mapping_for table) (λ m. m) ms) [
  | none ↦ 0
  | some (m, _) ↦ physical (frame m.pte) index
]

-- MmuAddressToPti
abbrev pub address_to_pti : ℕ → ℕ → ℕ
address_to_pti level va = va / 2 ^ (12 + 9 * (level - 1)) % 512

abbrev pub is_valid_entry : ℕ → Bool
is_valid_entry e = e % 2 == 1

-- The bit PDE_PSE, which is 0x80.
abbrev pub is_large_entry : ℕ → Bool
is_large_entry e = e / 0x80 % 2 == 1

module _ (physical : ℕ → ℕ → ℕ) where
  -- The loop of MmuGetPhysicalAddress, with the level counting down: the address or 0, and the
  -- slots.
  pub walk_levels : ℕ → List MmuMapping → ℕ → ℕ → ℕ × List MmuMapping
  walk_levels zero ms current va = (0, ms)
  walk_levels (suc below) ms current va = elim (map_io_page ms current true) [
    | none ↦ (0, ms)
    | some (table, ms1) ↦
        let entry = get_pml_entry physical ms1 table (address_to_pti (below + 1) va) in
        let ms2 = unmap_io_page ms1 table in
        let deeper = walk_levels below ms2 (page_of entry) va in
        if not (is_valid_entry entry)
        then (0, ms2)
        else (if not (below == 0) && is_large_entry entry
            then (0, ms2)
            else (if below == 0 then (page_of entry + va % 4096, ms2) else deeper))
  ]

  -- MmuGetPhysicalAddress on x64, with four levels; `get_physical_address` of the system is the
  -- argument `system`.
  pub get_physical_address :
      (system : ℕ → ℕ) → List MmuMapping → (current_cr3 target_cr3 va : ℕ) → ℕ × List MmuMapping
  get_physical_address system ms current_cr3 target_cr3 va =
      let target = page_of target_cr3 in
      if (target == 0) || (target == page_of current_cr3)
      then (system va, ms)
      else walk_levels 4 ms target va
