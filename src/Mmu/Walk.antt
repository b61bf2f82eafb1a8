-- ===== src/Mmu/Walk.antt =====
-- MmuGetPhysicalAddress of src/mmu.c against the translation that the processor makes.
use deepshield.Prelude.{
  ℕ, suc, ◌+◌, ◌-◌, ◌/◌, ◌%◌, ◌^◌, ◌≡◌, ◌≢◌, ◌∙◌, ap, inl, inr, refl, Bool, true, false, Bool-cases,
  not, ◌&&◌, ◌||◌, Option, none, some, List, [], ◌∷◌, length, ◌==◌, if◌then◌else◌, bit, arith,
}
use deepshield.Mmu.{
  MmuMapping, frame, page_of, address_to_pti, is_valid_entry, is_large_entry, walk_levels,
  get_physical_address,
}
use deepshield.Mmu.Slots.{AreSlots, any_free, map_io_page_lem}

-- The indices of an address into the four tables, from bit 47 down: 9 bits each.
abbrev pub indices : ℕ → List ℕ
indices va =
    va / 2 ^ 39 % 2 ^ 9 ∷ va / 2 ^ 30 % 2 ^ 9 ∷ va / 2 ^ 21 % 2 ^ 9 ∷ va / 2 ^ 12 % 2 ^ 9 ∷ []

-- The physical page of an entry or of CR3: bits 12 to 51.
abbrev pub physical_page : ℕ → ℕ
physical_page x = x % 2 ^ 52 - x % 2 ^ 12

abbrev is_last : List ℕ → Bool
is_last [] = true
is_last (_ ∷ _) = false

-- An answer for a translation: 0 for none, and otherwise the physical address, below bit 52.
pub data Answers : Option ℕ → ℕ → Type 0 where
  no_address : Answers none 0
  address :
      {result : ℕ} (physical_address : ℕ)
      → result % 2 ^ 52 ≡ physical_address
      → Answers (some physical_address) result

module _ (physical : ℕ → ℕ → ℕ) where
  -- The translation through page tables, from a table's page on and with an offset in the last page.
  -- Bit 0 of an entry says that it is present; bit 7 of an entry above the last level is a large
  -- page, of which no translation is asked for here.
  unfoldable pub translate : List ℕ → ℕ → ℕ → Option ℕ
  translate [] page offset = some (page + offset)
  translate (index ∷ rest) page offset =
      let entry = physical page index in
      let deeper = translate rest (physical_page entry) offset in
      if bit entry 0 == 0
      then none
      else (if not (is_last rest) && (bit entry 7 == 1) then none else deeper)

  -- The indices that the walk takes from an address are those of a list.
  abbrev AreIndices : List ℕ → ℕ → Type 0
  AreIndices [] va = Unit
  AreIndices (index ∷ rest) va = (address_to_pti (length rest + 1) va ≡ index) × AreIndices rest va

  frame-physical_page : (x : ℕ) → frame x ≡ physical_page x
  frame-physical_page x = omega arith

  physical_page-page_of : (x : ℕ) → physical_page (page_of x) ≡ physical_page x
  physical_page-page_of x = omega arith

  leaf_address : (x va : ℕ) → (page_of x + va % 4096) % 2 ^ 52 ≡ physical_page x + va % 4096
  leaf_address x va = omega arith

  valid_entry : (x : ℕ) → (bit x 0 == 0) ≡ false → is_valid_entry x ≡ true
  valid_entry x h = ground arith

  invalid_entry : (x : ℕ) → (bit x 0 == 0) ≡ true → is_valid_entry x ≡ false
  invalid_entry x h = ground arith

  large_entry : (x : ℕ) → (bit x 7 == 1) ≡ is_large_entry x
  large_entry x = let e : bit x 7 ≡ x / 0x80 % 2 = omega arith in ap (λ (k : ℕ). k == 1) e

  -- One round of the walk, with the entry that it reads.
  abbrev round : ℕ → List MmuMapping → ℕ → ℕ → ℕ × List MmuMapping
  round below ms entry va =
      if not (is_valid_entry entry)
      then (0, ms)
      else (if not (below == 0) && is_large_entry entry
          then (0, ms)
          else (if below == 0
              then (page_of entry + va % 4096, ms)
              else walk_levels physical below ms (page_of entry) va))

  walk_levels_step :
      (below : ℕ) (ms : List MmuMapping) (table va index : ℕ)
      → AreSlots ms
      → any_free ms ≡ true
      → address_to_pti (below + 1) va ≡ index
      → walk_levels physical (suc below) ms table va
        ≡ round below ms (physical (physical_page table) index) va
  unfolding walk_levels
  walk_levels_step below ms table va index v free i =
      elim (map_io_page_lem physical ms table true v) [
        | inr (n, _) ↦ absurd (ground (arith, free, n))
        | inl (_, (t, ms', mapped, back, read)) ↦
            let got = read index ∙ ap (λ (k : ℕ). physical k index) (frame-physical_page table) in
            rw (walk_levels, mapped, i, back, got) refl
      ]

  -- What a walk leaves: the answer, and the slots as they were.
  abbrev Walked : Option ℕ → List MmuMapping → ℕ × List MmuMapping → Type 0
  Walked o ms result = Answers o result.0 × (result.1 ≡ ms)

  walk_levels_lem :
      (index : ℕ) (rest : List ℕ) (ms : List MmuMapping) (table va : ℕ)
      → AreSlots ms
      → any_free ms ≡ true
      → AreIndices (index ∷ rest) va
      → Walked
          (translate (index ∷ rest) (physical_page table) (va % 4096))
          ms
          (walk_levels physical (suc (length rest)) ms table va)
  unfolding translate
  walk_levels_lem index [] ms table va v free (i, is) =
      let entry = physical (physical_page table) index in
      elim (Bool-cases (bit entry 0 == 0)) [
        | inl absent ↦
            rw (walk_levels_step 0 ms table va index v free i, absent, invalid_entry entry absent)
              (no_address, refl)
        | inr present ↦
            rw (walk_levels_step 0 ms table va index v free i, present, valid_entry entry present)
              (address _ (leaf_address entry va), refl)
      ]
  walk_levels_lem index (next ∷ others) ms table va v free (i, is) =
      let entry = physical (physical_page table) index in
      let step = walk_levels_step (length (next ∷ others)) ms table va index v free i in
      let more : (length (next ∷ others) == 0) ≡ false = ground arith in
      elim (Bool-cases (bit entry 0 == 0)) [
        | inl absent ↦ rw (step, absent, invalid_entry entry absent) (no_address, refl)
        | inr present ↦ elim (Bool-cases (is_large_entry entry)) [
          | inl large ↦
              rw (step, present, valid_entry entry present, large_entry entry, large, more)
                (no_address, refl)
          | inr small ↦
              rw (step, present, valid_entry entry present, large_entry entry, small, more)
                (rw (physical_page-page_of entry) at
                  (walk_levels_lem next others ms (page_of entry) va v free is))
        ]
      ]

  -- With a free mapping slot the walk of another address space answers 0 where the page tables of
  -- that space give no small page, and otherwise the physical address that they give, in bits 0 to
  -- 51; what bits 52 to 63 of the answer are is not said. It leaves the slots as they were on every
  -- path.
  pub get_physical_address_lem :
      (system : ℕ → ℕ) (ms : List MmuMapping) (current_cr3 target_cr3 va : ℕ)
      → AreSlots ms
      → any_free ms ≡ true
      → page_of target_cr3 ≢ 0
      → page_of target_cr3 ≢ page_of current_cr3
      → let result = get_physical_address physical system ms current_cr3 target_cr3 va in
        Answers (translate (indices va) (physical_page target_cr3) (va % 2 ^ 12)) result.0
        × (result.1 ≡ ms)
  unfolding get_physical_address
  get_physical_address_lem system ms current_cr3 target_cr3 va v free nz other =
      let guard : ((page_of target_cr3 == 0) || (page_of target_cr3 == page_of current_cr3))
          ≡ false =
        ground arith in
      let walked =
        walk_levels_lem (va / 2 ^ 39 % 2 ^ 9)
          (va / 2 ^ 30 % 2 ^ 9 ∷ va / 2 ^ 21 % 2 ^ 9 ∷ va / 2 ^ 12 % 2 ^ 9 ∷ []) ms
          (page_of target_cr3) va v free (refl, (refl, (refl, (refl, tt)))) in
      rw (get_physical_address, guard) (rw (physical_page-page_of target_cr3) at walked)
