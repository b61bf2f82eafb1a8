-- ===== src/Tsc/Analysis/Copy.antt =====
-- The copy of the code between the addresses of a sibling: TdCopySiblingMemory in src/tsc.c.
use deepshield.Prelude.{
  ℕ, zero, suc, ◌+◌, ◌≤◌, ◌<◌, ◌≡◌, ◌≢◌, ◌⊎◌, ◌∙◌, inl, inr, refl, ap, true, false, Bool-cases,
  Option-cases, Option, some, List, ◌∷◌, ◌++◌, length, take, drop, length-append, length-drop,
  take-append_left, take_of_le, arith, ◌==◌, sub64, word, ◌^◌, ==_iff,
}
use deepshield.Tsc.{TscEntry, sibling_distance_limit}
use deepshield.Tsc.Inv.{IsPair}
use deepshield.Tsc.Analysis.{
  Page, page_bytes, page_align, byte_offset, copy_code, overflow, failed, copied,
  copy_sibling_memory,
}

length-page_bytes : (p : Page) (o n : ℕ) → length (page_bytes p o n) ≡ n
unfolding page_bytes
length-page_bytes p o zero = refl
length-page_bytes p o (suc n) = rw (length-page_bytes p (o + 1) n) refl

-- A copy within the buffer keeps its size and puts the bytes at its start.
copy_code_lem :
    (code : List ℕ) (p : Page) (o n : ℕ)
    → length code ≡ sibling_distance_limit
    → n ≤ sibling_distance_limit
    → (code' : List ℕ) × (copy_code code p o n ≡ some code')
      × (length code' ≡ sibling_distance_limit)
      × (take n code' ≡ page_bytes p o n)
unfolding copy_code
copy_code_lem code p o n len le = (
  page_bytes p o n ++ drop n code,
  ground arith,
  rw (length-append, length-page_bytes, length-drop, len) (omega arith),
  take-append_left n (page_bytes p o n) (drop n code) (omega (arith, length-page_bytes p o n))
      ∙ take_of_le n (page_bytes p o n) (omega (arith, length-page_bytes p o n)),
)

-- The distance between the addresses of a pair, and where a page boundary between them lies.
distance_lem :
    (e : TscEntry)
    → IsPair e
    → e.after.address ≢ 0
    → (sub64 e.after.address e.before.address < sibling_distance_limit)
      × ((page_align e.before.address == page_align e.after.address) ≡ false
          → byte_offset e.after.address ≤ sub64 e.after.address e.before.address)
distance_lem e pair nz = ground (arith, pair)

-- For a pair of addresses, TdCopySiblingMemory writes nothing past the end of Report->Code,
-- whichever pages can be mapped: it answers FALSE, or TRUE with the distance as the code size.
pub copy_sibling_memory-bounds :
    (map_page : ℕ → Option Page) (e : TscEntry) (code : List ℕ)
    → length code ≡ sibling_distance_limit
    → IsPair e
    → e.after.address ≢ 0
    → (copy_sibling_memory map_page e code ≡ failed)
      ⊎ ((code' : List ℕ) × (copy_sibling_memory map_page e code
            ≡ copied code' (sub64 e.after.address e.before.address))
          × (length code' ≡ sibling_distance_limit))
unfolding copy_sibling_memory
copy_sibling_memory-bounds map_page e code len pair nz =
    let (small, behind) = distance_lem e pair nz in
    let distance = sub64 e.after.address e.before.address in
    let offset = byte_offset e.after.address in
    elim (Option-cases (map_page (page_align e.before.address))) [
      | inl u ↦ inl (rw (copy_sibling_memory, u) refl)
      | inr (start, m) ↦
          elim (Bool-cases (page_align e.before.address == page_align e.after.address)) [
            | inl y ↦
                let (code', c, len', _) =
                  copy_code_lem code start (byte_offset e.before.address) distance len
                    (omega (arith, small)) in
                inr (code', rw (copy_sibling_memory, m, y, c) refl, len')
            | inr x ↦ elim (Option-cases (map_page (page_align e.after.address))) [
              | inl u ↦ inl (rw (copy_sibling_memory, m, x, u) refl)
              | inr (end_, m') ↦
                  let (code', c, len', _) =
                    copy_code_lem code start (byte_offset e.before.address) (sub64 distance offset)
                      len (omega (arith, small, behind x)) in
                  let (code'', c', len'', _) =
                    copy_code_lem code' end_ 0 offset len' (omega (arith, small, behind x)) in
                  inr (code'', rw (copy_sibling_memory, m, x, m', c, c') refl, len'')
            ]
          ]
    ]

-- A guest whose pages can all be mapped.
abbrev pub mapped : (ℕ → ℕ) → ℕ → Option Page
mapped memory page = some (λ o. memory (page + o))

page_bytes-mapped :
    (memory : ℕ → ℕ) (page o n : ℕ)
    → page_bytes (λ o. memory (page + o)) o n ≡ page_bytes memory (page + o) n
unfolding page_bytes
page_bytes-mapped memory page o zero = refl
page_bytes-mapped memory page o (suc n) =
    ap (λ (t : List ℕ). memory (page + o) ∷ t)
      (page_bytes-mapped memory page (o + 1) n
        ∙ ap (λ k. page_bytes memory k n) {x = page + (o + 1)} (omega arith))

-- The code of a pair on one page is copied: the buffer starts with the guest's bytes from the
-- Before address up to the After address.
pub copy_sibling_memory-same_page :
    (memory : ℕ → ℕ) (e : TscEntry) (code : List ℕ)
    → length code ≡ sibling_distance_limit
    → IsPair e
    → e.after.address ≢ 0
    → page_align e.before.address ≡ page_align e.after.address
    → (code' : List ℕ) × (n : ℕ) × (e.before.address + n ≡ e.after.address)
      × (copy_sibling_memory (mapped memory) e code ≡ copied code' n)
      × (take n code' ≡ page_bytes memory e.before.address n)
unfolding copy_sibling_memory
copy_sibling_memory-same_page memory e code len pair nz same =
    let (small, _) = distance_lem e pair nz in
    let y : (page_align e.before.address == page_align e.after.address) ≡ true =
      (==_iff (page_align e.before.address) (page_align e.after.address)).1 same in
    let n = sub64 e.after.address e.before.address in
    let (code', c, _, t) =
      copy_code_lem code (λ o. memory (page_align e.before.address + o))
        (byte_offset e.before.address) n len (omega (arith, small)) in
    (
      code',
      n,
      ground (arith, pair, same),
      rw (y, c) refl,
      t
          ∙ page_bytes-mapped memory (page_align e.before.address) (byte_offset e.before.address) n
          ∙ ap (λ k. page_bytes memory k n)
              {x = page_align e.before.address + byte_offset e.before.address} (omega arith),
    )

-- When the pair stands on two pages, the buffer starts with the bytes of the second page: they
-- overwrite those from the Before address on.
pub copy_sibling_memory-two_pages :
    (memory : ℕ → ℕ) (e : TscEntry) (code : List ℕ)
    → length code ≡ sibling_distance_limit
    → IsPair e
    → e.after.address ≢ 0
    → page_align e.before.address ≢ page_align e.after.address
    → (code' : List ℕ) × (n : ℕ) × (copy_sibling_memory (mapped memory) e code ≡ copied code' n)
      × (take (byte_offset e.after.address) code'
          ≡ page_bytes memory (page_align e.after.address) (byte_offset e.after.address))
unfolding copy_sibling_memory
copy_sibling_memory-two_pages memory e code len pair nz differ =
    let (small, behind) = distance_lem e pair nz in
    let x : (page_align e.before.address == page_align e.after.address) ≡ false = ground arith in
    let n = sub64 e.after.address e.before.address in
    let page = page_align e.after.address in
    let offset = byte_offset e.after.address in
    let (code', c, len', _) =
      copy_code_lem code (λ o. memory (page_align e.before.address + o))
        (byte_offset e.before.address) (sub64 n offset) len (omega (arith, small, behind x)) in
    let (code'', c', _, t) =
      copy_code_lem code' (λ o. memory (page + o)) 0 offset len' (omega (arith, small, behind x)) in
    (
      code'',
      n,
      rw (x, c, c') refl,
      t
          ∙ page_bytes-mapped memory page 0 offset
          ∙ ap (λ k. page_bytes memory k offset) {x = page + 0} (omega arith),
    )

-- In a guest whose pages can all be mapped, an entry whose After address lies 4 GB or more behind its
-- Before address makes TdCopySiblingMemory write past the end of Report->Code.
pub copy_sibling_memory-far :
    (memory : ℕ → ℕ) (e : TscEntry) (code : List ℕ)
    → e.before.address + 2 ^ 32 ≤ e.after.address
    → e.after.address < word
    → copy_sibling_memory (mapped memory) e code ≡ overflow
unfolding copy_sibling_memory copy_code
copy_sibling_memory-far memory e code far fits = ground arith
