-- ===== src/Mmu/Tests.antt =====
-- src/mmu.c with two mapping slots and page tables for one page.
use deepshield.Prelude.{
  ℕ, ◌+◌, ◌/◌, ◌%◌, ◌^◌, ◌≡◌, ◌⊎◌, inl, inr, refl, true, false, ◌&&◌, none, some, List, [], ◌∷◌,
  ◌==◌, if◌then◌else◌, arith,
}
use deepshield.Mmu.{
  MmuMapping, frame, map_io_page, unmap_io_page, get_pml_entry, get_physical_address, walk_levels,
  change_first,
}
use deepshield.Mmu.Slots.{AreSlots, any_free, map_io_page_lem}
use deepshield.Mmu.Walk.{translate, indices, physical_page, Answers, get_physical_address_lem}

abbrev slots : List MmuMapping
slots =
    record { map_in_use = 1; base_va = 0x10000; pte = 0x5063 }
    ∷ record { map_in_use = 0; base_va = 0x11000; pte = 0 }
    ∷ []

slots-AreSlots : AreSlots slots
slots-AreSlots = (inr refl, (omega arith, tt), (inl (refl, refl), tt, tt))

-- Each table's first entry leads to the next page; the last one is the page at 0x5000.
abbrev physical : ℕ → ℕ → ℕ
physical page index =
    if (index == 0) && (page / 4096 == 4) then 0x5003 else (if index == 0 then page + 0x1003 else 0)

map_io_page_lem_example :
    ((any_free slots ≡ true)
      × ((va : ℕ) × (ms' : List MmuMapping) × (map_io_page slots 0x7123 false ≡ some (va, ms'))
          × (unmap_io_page ms' va ≡ slots)
          × ((index : ℕ) → get_pml_entry physical ms' va index ≡ physical (frame 0x7123) index)))
    ⊎ ((any_free slots ≡ false) × (map_io_page slots 0x7123 false ≡ none))
map_io_page_lem_example = map_io_page_lem physical slots 0x7123 false slots-AreSlots

get_physical_address_lem_example :
    let result = get_physical_address physical (λ a. a) slots 0x9000 0x1000 0x123 in
    Answers (translate physical (indices 0x123) (physical_page 0x1000) (0x123 % 2 ^ 12)) result.0
    × (result.1 ≡ slots)
get_physical_address_lem_example =
    get_physical_address_lem physical (λ a. a) slots 0x9000 0x1000 0x123 slots-AreSlots refl
      (omega arith) (omega arith)

walk_to_0x5123 : translate physical (indices 0x123) 0x1000 0x123 ≡ some 0x5123
unfolding translate
walk_to_0x5123 = refl

-- A page that may not be executed: its physical address comes back with bit 63.
abbrev no_execute : ℕ → ℕ → ℕ
no_execute page index = if page == 0x4000 then 0x5003 + 2 ^ 63 else physical page index

bit_63 :
    get_physical_address no_execute (λ a. a) slots 0x9000 0x1000 0x123 ≡ (0x5123 + 2 ^ 63, slots)
unfolding get_physical_address walk_levels map_io_page unmap_io_page get_pml_entry change_first
bit_63 = refl
