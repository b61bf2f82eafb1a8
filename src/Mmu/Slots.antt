-- ===== src/Mmu/Slots.antt =====
-- The mapping slots of src/mmu.c.
use deepshield.Prelude.{
  ℕ, ◌+◌, ◌≡◌, ◌≢◌, ◌⊎◌, inl, inr, refl, sym, ap, Bool, true, false, Bool-cases, none, some, List,
  [], ◌∷◌, ◌==◌, if◌then◌else◌, arith,
}
use mathlib.Core.Path.{ap₂}
use deepshield.Mmu.{
  MmuMapping, change_first, frame, create_pte, default_pte, page_cache_uc, is_free, is_mapping_for,
  map_io_page, unmap_io_page, get_pml_entry,
}

-- The address belongs to no slot.
abbrev pub IsOther : ℕ → List MmuMapping → Type 0
IsOther va [] = Unit
IsOther va (m ∷ ms) = (m.base_va ≢ va) × IsOther va ms

-- Every slot has its own address, a free one has no entry, and the others are marked with 1.
abbrev pub AreSlots : List MmuMapping → Type 0
AreSlots [] = Unit
AreSlots (m ∷ ms) =
    (((m.map_in_use ≡ 0) × (m.pte ≡ 0)) ⊎ (m.map_in_use ≡ 1)) × IsOther m.base_va ms × AreSlots ms

-- Whether a slot is free.
abbrev pub any_free : List MmuMapping → Bool
any_free [] = false
any_free (m ∷ ms) = if is_free m then true else any_free ms

-- The slot as MmuMapIoPage leaves it, and as MmuUnmapIoPage does.
abbrev pub map_slot : ℕ → MmuMapping → MmuMapping
map_slot pte m = record m { map_in_use = 1; pte = pte }

abbrev pub unmap_slot : MmuMapping → MmuMapping
unmap_slot m = record m { pte = 0; map_in_use = if m.map_in_use == 1 then 0 else m.map_in_use }

unmap_slot-map_slot :
    (pte : ℕ) (m : MmuMapping) → m.map_in_use ≡ 0 → m.pte ≡ 0 → unmap_slot (map_slot pte m) ≡ m
unmap_slot-map_slot pte m used e =
    ap₂ (λ (u p : ℕ). record { map_in_use = u; base_va = m.base_va; pte = p }) (sym used) (sym e)

-- The first free slot: it is found again by its address once it is mapped, and unmapping it
-- restores all.
abbrev Acquires : ℕ → List MmuMapping → Type 0
Acquires pte ms =
    (m : MmuMapping) × (ms' : List MmuMapping) × (change_first is_free (map_slot pte) ms
      ≡ some (m, ms'))
    × (change_first (is_mapping_for m.base_va) unmap_slot ms' ≡ some (map_slot pte m, ms))
    × (change_first (is_mapping_for m.base_va) (λ n. n) ms' ≡ some (map_slot pte m, ms'))
    × ((va : ℕ) → IsOther va ms → m.base_va ≢ va)

acquires : (pte : ℕ) (ms : List MmuMapping) → AreSlots ms → any_free ms ≡ true → Acquires pte ms
unfolding change_first
acquires pte [] v h = ground arith
acquires pte (m ∷ ms) (state, other, v) h = elim (Bool-cases (is_free m)) [
  | inl y ↦
      let used : m.map_in_use ≡ 0 = ground arith in
      let empty : m.pte ≡ 0 = ground (arith, state) in
      let hit : is_mapping_for m.base_va (map_slot pte m) ≡ true = ground arith in
      (
        m,
        map_slot pte m ∷ ms,
        rw (change_first, y) refl,
        rw (change_first, hit)
            (ap (λ (k : MmuMapping). some (map_slot pte m, k ∷ ms))
              (unmap_slot-map_slot pte m used empty)),
        rw (change_first, hit) refl,
        λ va o e. o.0 e,
      )
  | inr z ↦
      let rest : any_free ms ≡ true = rw z at h in
      let (n, ms', got, back, found, apart) = acquires pte ms v rest in
      let miss : is_mapping_for n.base_va m ≡ false =
        let d = apart m.base_va other in ground arith in
      (
        n,
        m ∷ ms',
        rw (change_first, z, got) refl,
        rw (change_first, miss, back) refl,
        rw (change_first, miss, found) refl,
        λ va o. apart va o.1,
      )
]

-- No slot is free.
none_free :
    (f : MmuMapping → MmuMapping) (ms : List MmuMapping)
    → any_free ms ≡ false
    → change_first is_free f ms ≡ none
unfolding change_first
none_free f [] h = refl
none_free f (m ∷ ms) h = elim (Bool-cases (is_free m)) [
  | inl y ↦ let bad = rw y at h in ground arith
  | inr z ↦
      let rest : any_free ms ≡ false = rw z at h in rw (change_first, z, none_free f ms rest) refl
]

-- With a free slot MmuMapIoPage maps the page: entries read through its address are those of the
-- physical page, and MmuUnmapIoPage of the address leaves all the slots as they were before.
-- Without one it answers NULL.
pub map_io_page_lem :
    (physical : ℕ → ℕ → ℕ) (ms : List MmuMapping) (physical_page : ℕ) (uncached : Bool)
    → AreSlots ms
    → ((any_free ms ≡ true)
        × ((va : ℕ) × (ms' : List MmuMapping) × (map_io_page ms physical_page uncached
              ≡ some (va, ms'))
            × (unmap_io_page ms' va ≡ ms)
            × ((index : ℕ)
                → get_pml_entry physical ms' va index ≡ physical (frame physical_page) index)))
      ⊎ ((any_free ms ≡ false) × (map_io_page ms physical_page uncached ≡ none))
unfolding map_io_page unmap_io_page get_pml_entry
map_io_page_lem physical ms physical_page uncached v = elim (Bool-cases (any_free ms)) [
  | inl y ↦
      let flags = (if uncached then default_pte + page_cache_uc else default_pte) in
      let pte = create_pte physical_page flags in
      let (m, ms', got, back, found, _) = acquires pte ms v y in
      let same : frame pte ≡ frame physical_page = ground arith in
      inl (
        y,
        (
          m.base_va,
          ms',
          rw (map_io_page, got) refl,
          rw (unmap_io_page, back) refl,
          λ index. rw (get_pml_entry, found) (ap (λ (k : ℕ). physical k index) same),
        ),
      )
  | inr n ↦ inr (n, rw (map_io_page, none_free _ ms n) refl)
]
