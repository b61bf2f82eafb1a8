-- ===== src/Tsc/Table.antt =====
-- The searches of src/tsc.c in the table of hits: TdFindSibling and TdGetSiblingSlot.
use deepshield.Prelude.{
  ℕ, zero, suc, ◌+◌, ◌-◌, ◌%◌, ◌^◌, ◌≤◌, ◌<◌, ◌≡◌, ◌∙◌, ap, sym, ◌⊎◌, inl, inr, refl, Bool, true,
  false, not, ◌&&◌, Option, none, some, List, [], ◌∷◌, length, set, get_or, arith, Bool-cases,
}
use native.Mathlib.Decide.{dec_lt}
use deepshield.Tsc.{
  are_vas_within_sibling_range, TscEntry, cleared, is_sibling, find_sibling, is_free_slot,
  is_orphan_sibling, older, Slot, free, recycled, scan_slots, get_sibling_slot,
}

-- The entry at an index of the table.
abbrev pub entry : List TscEntry → ℕ → TscEntry
entry es k = get_or es k cleared

-- Two addresses less than 0xFF apart, in either order, or exactly 2 GB apart, all counted modulo
-- 4 GB.
abbrev pub IsNear : ℕ → ℕ → Type 0
IsNear a b =
    ((a + (2 ^ 32 - b % 2 ^ 32)) % 2 ^ 32 < 0xFF)
    ⊎ ((b + (2 ^ 32 - a % 2 ^ 32)) % 2 ^ 32 < 0xFF)
    ⊎ ((a + (2 ^ 32 - b % 2 ^ 32)) % 2 ^ 32 ≡ 2 ^ 31)

-- What makes an entry the sibling of an event: the same thread, a Before address near the event's,
-- and that one of the entry's addresses is the event's or its After address is not set.
pub record IsSiblingOf (hash address : ℕ) (e : TscEntry) : Type 0 where
  pub same_thread : e.tsc_hash ≡ hash
  pub near : IsNear e.before.address address
  pub place : (e.before.address ≡ address) ⊎ (e.after.address ≡ address) ⊎ (e.after.address ≡ 0)

are_vas_within_sibling_range-true : (a b : ℕ) → are_vas_within_sibling_range a b ≡ true → IsNear a b
unfolding are_vas_within_sibling_range
are_vas_within_sibling_range-true a b h = ground arith

are_vas_within_sibling_range-false :
    (a b : ℕ) → are_vas_within_sibling_range a b ≡ false → IsNear a b → ⊥
unfolding are_vas_within_sibling_range
are_vas_within_sibling_range-false a b h n = ground arith

-- A test that fails on a head and on the first entries of the tail fails on the first of both.
none_below-cons :
    (p : TscEntry → Bool) (e : TscEntry) (es : List TscEntry) (j : ℕ)
    → p e ≡ false
    → ((k : ℕ) → k < j → p (entry es k) ≡ false)
    → (k : ℕ) → k < suc j
    → p (entry (e ∷ es) k) ≡ false
none_below-cons p e es j h t zero lt = h
none_below-cons p e es j h t (suc k) lt = t k (omega arith)

-- What TdFindSibling finds from entry `i` on: the first entry that passes the test.
abbrev pub Finds : List TscEntry → ℕ → ℕ → ℕ → ℕ → Type 0
Finds es i hash address j =
    (find_sibling es i hash address ≡ some (i + j))
    × (j < length es)
    × (is_sibling (entry es j) hash address ≡ true)
    × ((k : ℕ) → k < j → is_sibling (entry es k) hash address ≡ false)

abbrev pub Misses : List TscEntry → ℕ → ℕ → ℕ → Type 0
Misses es i hash address =
    (find_sibling es i hash address ≡ none)
    × ((k : ℕ) → k < length es → is_sibling (entry es k) hash address ≡ false)

find_sibling_from :
    (es : List TscEntry) (i hash address : ℕ)
    → ((j : ℕ) × Finds es i hash address j) ⊎ Misses es i hash address
unfolding find_sibling
find_sibling_from [] i hash address = inr (refl, λ k h. absurd (omega arith))
find_sibling_from (e ∷ es) i hash address = elim (Bool-cases (is_sibling e hash address)) [
  | inl y ↦ inl (
    0,
    (rw y (ap (λ (n : ℕ). some n) (omega arith)), omega arith, y, λ k h. absurd (omega arith)),
  )
  | inr n ↦ elim (find_sibling_from es (i + 1) hash address) [
    | inl (j, (found, lt, match_, before)) ↦ inl (
      suc j,
      (
        rw (n, found) (ap (λ (n : ℕ). some n) (omega arith)),
        omega arith,
        match_,
        none_below-cons (λ e. is_sibling e hash address) e es j n before,
      ),
    )
    | inr (missing, all) ↦
        inr
          (rw (n, missing), none_below-cons (λ e. is_sibling e hash address) e es (length es) n all)
  ]
]

pub find_sibling-first :
    (es : List TscEntry) (hash address : ℕ)
    → ((j : ℕ) × Finds es 0 hash address j) ⊎ Misses es 0 hash address
find_sibling-first es hash address = find_sibling_from es 0 hash address

is_sibling-true :
    (e : TscEntry) (hash address : ℕ)
    → is_sibling e hash address ≡ true
    → IsSiblingOf hash address e
unfolding is_sibling
is_sibling-true e hash address h =
    let near : are_vas_within_sibling_range e.before.address address ≡ true = ground arith in
    record {
      same_thread = ground arith;
      near = are_vas_within_sibling_range-true e.before.address address near;
      place = ground arith;
    }

is_sibling-false :
    (e : TscEntry) (hash address : ℕ)
    → is_sibling e hash address ≡ false
    → IsSiblingOf hash address e
    → ⊥
unfolding is_sibling
is_sibling-false e hash address h s =
    elim (Bool-cases (are_vas_within_sibling_range e.before.address address)) [
      | inr far ↦ are_vas_within_sibling_range-false e.before.address address far s.near
      | inl near ↦ let same = s.same_thread in let place = s.place in ground arith
    ]

-- TdFindSibling returns the first entry of the table that is a sibling of the event: of the event's
-- thread, with a Before address that is near the event's, and with the event's address as one of
-- its addresses or no After address. It returns NULL exactly when no entry is one. Near is less than
-- 0xFF apart in either order, or exactly 2 GB apart, counted modulo 4 GB.
pub find_sibling_lem :
    (es : List TscEntry) (hash address : ℕ)
    → ((j : ℕ) × (find_sibling es 0 hash address ≡ some j)
        × (j < length es)
        × IsSiblingOf hash address (entry es j)
        × ((k : ℕ) → k < j → IsSiblingOf hash address (entry es k) → ⊥))
      ⊎ ((find_sibling es 0 hash address ≡ none)
          × ((k : ℕ) → k < length es → IsSiblingOf hash address (entry es k) → ⊥))
find_sibling_lem es hash address = elim (find_sibling-first es hash address) [
  | inl (j, (found, lt, match_, before)) ↦ inl (
    j,
    found ∙ ap (λ (n : ℕ). some n) (omega arith),
    lt,
    is_sibling-true (entry es j) hash address match_,
    λ k l s. is_sibling-false (entry es k) hash address (before k l) s,
  )
  | inr (missing, all) ↦
      inr (missing, λ k l s. is_sibling-false (entry es k) hash address (all k l) s)
]

-- `o` is the entry with the oldest Before time stamp among the first `n` that pass the test.
abbrev pub Oldest : (TscEntry → Bool) → List TscEntry → ℕ → Option (ℕ × ℕ) → Type 0
Oldest p es n none = (k : ℕ) → k < n → p (entry es k) ≡ false
Oldest p es n (some (j, t)) =
    (j < n)
    × (p (entry es j) ≡ true)
    × (t ≡ (entry es j).before.time_stamp)
    × ((k : ℕ) → k < n → p (entry es k) ≡ true → t ≤ (entry es k).before.time_stamp)

below_suc : (P : ℕ → Type 0) (n : ℕ) → ((k : ℕ) → k < n → P k) → P n → (k : ℕ) → k < n + 1 → P k
below_suc P n h last k lt = elim (dec_lt k n) [
  | yes q ↦ h k q
  | no q ↦ let e : n ≡ k = omega arith in rw (← e) last
]

Oldest-skip :
    (p : TscEntry → Bool) (es : List TscEntry) (n : ℕ) (o : Option (ℕ × ℕ))
    → Oldest p es n o
    → p (entry es n) ≡ false
    → Oldest p es (n + 1) o
Oldest-skip p es n none h e = below_suc (λ k. p (entry es k) ≡ false) n h e
Oldest-skip p es n (some (j, t)) (lt, passes, at, least) e = (
  omega arith,
  passes,
  at,
  below_suc (λ k. p (entry es k) ≡ true → t ≤ (entry es k).before.time_stamp) n least (λ y. cc),
)

older-newer : (j t i u : ℕ) → u < t → older (some (j, t)) i u ≡ (i, u)
unfolding older
older-newer j t i u h = ground arith

older-keep : (j t i u : ℕ) → t ≤ u → older (some (j, t)) i u ≡ (j, t)
unfolding older
older-keep j t i u h = ground arith

older-none : (i u : ℕ) → older none i u ≡ (i, u)
unfolding older
older-none i u = refl

Oldest-older :
    (p : TscEntry → Bool) (es : List TscEntry) (n : ℕ) (o : Option (ℕ × ℕ))
    → Oldest p es n o
    → p (entry es n) ≡ true
    → Oldest p es (n + 1) (some (older o n (entry es n).before.time_stamp))
Oldest-older p es n none h e = rw older-none (
  omega arith,
  e,
  refl,
  below_suc
      (λ k. p (entry es k) ≡ true → (entry es n).before.time_stamp ≤ (entry es k).before.time_stamp)
      n (λ k lt y. cc (h k lt)) (λ y. omega arith),
)
Oldest-older p es n (some (j, t)) (lt, passes, at, least) e =
    elim (dec_lt (entry es n).before.time_stamp t) [
      | yes q ↦ rw (older-newer j t n (entry es n).before.time_stamp q) (
        omega arith,
        e,
        refl,
        below_suc
            (λ k.
              p (entry es k) ≡ true
              → (entry es n).before.time_stamp ≤ (entry es k).before.time_stamp)
            n (λ k b y. omega (arith, least k b y)) (λ y. omega arith),
      )
      | no q ↦ rw (older-keep j t n (entry es n).before.time_stamp (omega arith)) (
        omega arith,
        passes,
        at,
        below_suc (λ k. p (entry es k) ≡ true → t ≤ (entry es k).before.time_stamp) n least
            (λ y. omega arith),
      )
    ]

-- The two kinds of entries that the loop of TdGetSiblingSlot keeps apart.
abbrev pub is_used_orphan : TscEntry → Bool
is_used_orphan e = not (is_free_slot e) && is_orphan_sibling e

abbrev pub is_used_sibling : TscEntry → Bool
is_used_sibling e = not (is_free_slot e) && not (is_orphan_sibling e)

-- What the loop ends with.
abbrev Scanned : List TscEntry → Slot → Type 0
Scanned head (free i) =
    (i < length head)
    × (is_free_slot (entry head i) ≡ true)
    × ((k : ℕ) → k < i → is_free_slot (entry head k) ≡ false)
Scanned head (recycled orphan sibling) =
    ((k : ℕ) → k < length head → is_free_slot (entry head k) ≡ false)
    × Oldest is_used_orphan head (length head) orphan
    × Oldest is_used_sibling head (length head) sibling

scan_slots-Scanned :
    (head es : List TscEntry) (n : ℕ) (orphan sibling : Option (ℕ × ℕ))
    → n + length es ≡ length head
    → ((k : ℕ) → entry es k ≡ entry head (n + k))
    → ((k : ℕ) → k < n → is_free_slot (entry head k) ≡ false)
    → Oldest is_used_orphan head n orphan
    → Oldest is_used_sibling head n sibling
    → Scanned head (scan_slots es n orphan sibling)
unfolding scan_slots
scan_slots-Scanned head [] n orphan sibling len same used o s =
    let e : n ≡ length head = omega arith in rw (← e) (used, o, s)
scan_slots-Scanned head (x ∷ es) n orphan sibling len same used o s =
    let here : entry head n ≡ x = ap (λ k. entry head k) {x = n} (omega arith) ∙ sym (same 0) in
    let rest : (k : ℕ) → entry es k ≡ entry head (n + 1 + k) =
      λ k. same (suc k) ∙ ap (λ k. entry head k) {x = n + suc k} (omega arith) in
    elim (Bool-cases (is_free_slot x)) [
      | inl y ↦ rw y (omega arith, rw here y, used)
      | inr z ↦
          let used' = below_suc (λ k. is_free_slot (entry head k) ≡ false) n used (rw here z) in
          elim (Bool-cases (is_orphan_sibling x)) [
            | inl w ↦
                rw (z, w)
                  (scan_slots-Scanned head es (n + 1) _ sibling (omega arith) rest used'
                    (rw here at (Oldest-older is_used_orphan head n orphan o (rw (here, z, w))))
                    (Oldest-skip is_used_sibling head n sibling s (rw (here, z, w))))
            | inr w ↦
                rw (z, w)
                  (scan_slots-Scanned head es (n + 1) orphan _ (omega arith) rest used'
                    (Oldest-skip is_used_orphan head n orphan o (rw (here, z, w)))
                    (rw here at (Oldest-older is_used_sibling head n sibling s (rw (here, z, w)))))
          ]
    ]

-- The slot that TdGetSiblingSlot is to hand over, with what becomes of the table.
abbrev pub IsSlot : List TscEntry → ℕ → List TscEntry → Type 0
IsSlot head i head' =
    ((is_free_slot (entry head i) ≡ true)
      × ((k : ℕ) → k < i → is_free_slot (entry head k) ≡ false)
      × (head' ≡ head))
    ⊎ (((k : ℕ) → k < length head → is_free_slot (entry head k) ≡ false)
        × (head' ≡ set head i cleared)
        × (((is_orphan_sibling (entry head i) ≡ true)
              × ((k : ℕ)
                  → k < length head
                  → is_orphan_sibling (entry head k) ≡ true
                  → (entry head i).before.time_stamp ≤ (entry head k).before.time_stamp))
            ⊎ (((k : ℕ) → k < length head → is_orphan_sibling (entry head k) ≡ false)
                × ((k : ℕ)
                    → k < length head
                    → (entry head i).before.time_stamp ≤ (entry head k).before.time_stamp))))

slot_of :
    (head : List TscEntry) (s : Slot)
    → 0 < length head
    → scan_slots head 0 none none ≡ s
    → Scanned head s
    → (i : ℕ) × (head' : List TscEntry) × (get_sibling_slot head ≡ some (i, head'))
      × (i < length head)
      × IsSlot head i head'
unfolding get_sibling_slot
slot_of head (free i) pos e (lt, y, first) =
    (i, head, rw (get_sibling_slot, e), lt, inl (y, first, refl))
slot_of head (recycled (some (i, t)) sibling) pos e (used, (lt, y, at, least), s) = (
  i,
  set head i cleared,
  rw (get_sibling_slot, e),
  lt,
  inr (used, refl, inl (ground arith, λ k b z. ground (arith, least k b, used k b))),
)
slot_of head (recycled none (some (i, t))) pos e (used, o, (lt, y, at, least)) = (
  i,
  set head i cleared,
  rw (get_sibling_slot, e),
  lt,
  inr (
    used,
    refl,
    inr (λ k b. ground (arith, o k b, used k b), λ k b. ground (arith, least k b, o k b, used k b)),
  ),
)
slot_of head (recycled none none) pos e (used, o, s) =
    absurd (ground (arith, used 0 pos, o 0 pos, s 0 pos))

-- TdGetSiblingSlot on a table that is not empty never dereferences a null pointer. It hands over
-- the first free slot and leaves the table; without one it clears and hands over the orphan with
-- the oldest Before time stamp, or the oldest sibling if there is no orphan.
pub get_sibling_slot_lem :
    (head : List TscEntry)
    → 0 < length head
    → (i : ℕ) × (head' : List TscEntry) × (get_sibling_slot head ≡ some (i, head'))
      × (i < length head)
      × IsSlot head i head'
get_sibling_slot_lem head pos = slot_of head (scan_slots head 0 none none) pos refl (
    scan_slots-Scanned head head 0 none none (omega arith)
      (λ k. ap (λ k. entry head k) {x = k} (omega arith)) (λ k b. absurd (omega arith))
      (λ k b. absurd (omega arith)) (λ k b. absurd (omega arith)))
