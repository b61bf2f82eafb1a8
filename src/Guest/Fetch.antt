-- ===== src/Guest/Fetch.antt =====
-- VmReadGuestInstruction of src/exits.c against the bytes of the guest's memory.
use deepshield.Prelude.{
  ℕ, zero, suc, ◌+◌, ◌-◌, ◌%◌, ◌≤◌, ◌<◌, ◌≡◌, ◌∙◌, ◌⊎◌, inl, inr, refl, ap, false, Bool-cases,
  Option, Option-cases, none, some, List, [], ◌∷◌, ◌==◌, add64, word, arith,
}
use mathlib.Core.Path.{ap₂}
use deepshield.Tsc.Analysis.{Page, page_align, byte_offset, page_size}
use deepshield.Guest.{pages_spanned, read_guest_instruction}

-- Each page that can be mapped shows the guest's memory on its 4096 bytes; what lies behind them is
-- not known.
abbrev pub Maps : (ℕ → Option Page) → (ℕ → ℕ) → Type 0
Maps map_page memory =
    (page : ℕ) (code : Page)
    → map_page page ≡ some code
    → (o : ℕ) → o < page_size
    → code o ≡ memory (page + o)

-- The `n` bytes of the memory from an address on.
abbrev pub bytes_at : (ℕ → ℕ) → ℕ → ℕ → List ℕ
bytes_at memory a zero = []
bytes_at memory a (suc n) = memory a ∷ bytes_at memory (a + 1) n

same2 : {a b x y : ℕ} → a ≡ x → b ≡ y → some (a ∷ b ∷ []) ≡ some (x ∷ y ∷ [])
same2 p q = ap₂ (λ (a b : ℕ). some (a ∷ b ∷ [])) p q

same3 : {a b c x y z : ℕ} → a ≡ x → b ≡ y → c ≡ z → some (a ∷ b ∷ c ∷ []) ≡ some (x ∷ y ∷ z ∷ [])
same3 {c} {x} {y} p q r =
    ap₂ (λ (a b : ℕ). some (a ∷ b ∷ c ∷ [])) p q ∙ ap (λ (c : ℕ). some (x ∷ y ∷ c ∷ [])) r

-- The instruction begins on the last two bytes of a page.
two_pages :
    (memory : ℕ → ℕ) (map_page : ℕ → Option Page) (va : ℕ)
    → Maps map_page memory
    → va + 3 < word
    → (code : Page) → map_page (page_align va) ≡ some code
    → page_size - 2 ≤ byte_offset va
    → (read_guest_instruction map_page va ≡ some (bytes_at memory va 3))
      ⊎ ((map_page (page_align (va + 3)) ≡ none)
          × (byte_offset va ≡ page_size - 2)
          × (read_guest_instruction map_page va ≡ some (bytes_at memory va 2)))
      ⊎ (((map_page (page_align va) ≡ none)
            ⊎ ((map_page (page_align (va + 3)) ≡ none) × (byte_offset va ≡ page_size - 1)))
          × (read_guest_instruction map_page va ≡ none))
unfolding read_guest_instruction
two_pages memory map_page va maps fits code first high =
    let at : (o x : ℕ) → o < page_size → page_align va + o ≡ x → code o ≡ memory x =
      λ o x l e. maps (page_align va) code first o l ∙ ap memory e in
    let two : (pages_spanned va == 1) ≡ false = ground arith in
    let target : add64 va 3 ≡ va + 3 = omega arith in
    elim (Bool-cases (byte_offset va == page_size - 1)) [
      | inl last ↦ elim (Option-cases (map_page (page_align (va + 3)))) [
        | inl none_ ↦ inr (
            inr (
              inr (none_, ground arith),
              rw (read_guest_instruction, first, two, target, none_, last) refl,
            ))
        | inr (next, second) ↦
            let at' : (o x : ℕ) → o < page_size → page_align (va + 3) + o ≡ x → next o ≡ memory x =
              λ o x l e. maps (page_align (va + 3)) next second o l ∙ ap memory e in
            inl (
              rw (read_guest_instruction, first, two, target, second, last)
                (same3 (at (byte_offset va) va (ground arith) (omega arith))
                  (at' 0 (va + 1) (ground arith) (ground arith))
                  (at' ((byte_offset va + 2) % page_size) (va + 1 + 1) (ground arith)
                    (ground arith))))
      ]
      | inr other ↦ elim (Option-cases (map_page (page_align (va + 3)))) [
        | inl none_ ↦ inr (
            inl (
              none_,
              ground arith,
              rw (read_guest_instruction, first, two, target, none_, other)
                  (same2 (at (byte_offset va) va (ground arith) (omega arith))
                    (at (byte_offset va + 1) (va + 1) (ground arith) (omega arith))),
            ))
        | inr (next, second) ↦
            let at' : (o x : ℕ) → o < page_size → page_align (va + 3) + o ≡ x → next o ≡ memory x =
              λ o x l e. maps (page_align (va + 3)) next second o l ∙ ap memory e in
            inl (
              rw (read_guest_instruction, first, two, target, second, other)
                (same3 (at (byte_offset va) va (ground arith) (omega arith))
                  (at (byte_offset va + 1) (va + 1) (ground arith) (omega arith))
                  (at' ((byte_offset va + 2) % page_size) (va + 1 + 1) (ground arith)
                    (ground arith))))
      ]
    ]

-- The bytes that VmReadGuestInstruction hands over are those of the guest's memory from the
-- address on: three, when both pages that they may stand on can be mapped, or the two on the
-- first page. It fails when the first page cannot be mapped, or when the second cannot and only
-- one byte stands on the first. The conditions: a mapped page shows the guest's memory on its 4096
-- bytes, and the address is not among the last three.
pub read_guest_instruction_lem :
    (memory : ℕ → ℕ) (map_page : ℕ → Option Page) (va : ℕ)
    → Maps map_page memory
    → va + 3 < word
    → (read_guest_instruction map_page va ≡ some (bytes_at memory va 3))
      ⊎ ((map_page (page_align (va + 3)) ≡ none)
          × (byte_offset va ≡ page_size - 2)
          × (read_guest_instruction map_page va ≡ some (bytes_at memory va 2)))
      ⊎ (((map_page (page_align va) ≡ none)
            ⊎ ((map_page (page_align (va + 3)) ≡ none) × (byte_offset va ≡ page_size - 1)))
          × (read_guest_instruction map_page va ≡ none))
unfolding read_guest_instruction
read_guest_instruction_lem memory map_page va maps fits =
    elim (Option-cases (map_page (page_align va))) [
      | inl none_ ↦ inr (inr (inl none_, rw (read_guest_instruction, none_) refl))
      | inr (code, first) ↦
          let at : (o x : ℕ) → o < page_size → page_align va + o ≡ x → code o ≡ memory x =
            λ o x l e. maps (page_align va) code first o l ∙ ap memory e in
          elim (Bool-cases (pages_spanned va == 1)) [
            | inl one ↦ inl (
                rw (read_guest_instruction, first, one)
                  (same3 (at (byte_offset va) va (ground arith) (omega arith))
                    (at (byte_offset va + 1) (va + 1) (ground arith) (omega arith))
                    (at (byte_offset va + 2) (va + 1 + 1) (ground arith) (omega arith))))
            | inr two ↦ two_pages memory map_page va maps fits code first (ground arith)
          ]
    ]
