-- ===== src/Tsc/Inv.antt =====
-- What holds of every entry of the table of src/tsc.c after `n` events at addresses of one region
-- of 2 GB, and that TdUpdateSibling keeps it.
use deepshield.Prelude.{
  ℕ, ◌+◌, ◌≤◌, ◌<◌, ◌≡◌, ◌≢◌, ◌⊎◌, inl, inr, refl, true, some, arith, ltb, ◌==◌, Bool-cases,
}
use deepshield.Tsc.{
  TscHit, TscEntry, cleared, is_sibling, hit_increment, update_difference, Side, at_before,
  at_after, choose_hit, record_hit, update_sibling, are_vas_within_sibling_range,
}
use deepshield.Tsc.Range.{InRegion, within_sibling_range_iff}

-- The After address is unset, or stands behind Before and less than the limit away.
abbrev pub IsPair : TscEntry → Type 0
IsPair e =
    (e.after.address ≡ 0)
    ⊎ ((e.before.address < e.after.address) × (e.after.address < e.before.address + 0xff))

-- A free slot, or one with a Before address in the region.
abbrev pub IsPlaced : ℕ → TscEntry → Type 0
IsPlaced base e =
    ((e.before.address ≡ 0) × (e.after.address ≡ 0) × (e.tsc_hash ≡ 0))
    ⊎ ((e.before.address ≢ 0) × InRegion base e.before.address)

pub record IsValid (base n : ℕ) (e : TscEntry) : Type 0 where
  pub placed : IsPlaced base e
  pub pair : IsPair e
  pub before_count : e.before.count ≤ n
  pub after_count : e.after.count ≤ n

pub cleared-IsValid : (base n : ℕ) → IsValid base n cleared
cleared-IsValid base n = record {
  placed = inl (refl, refl, refl);
  pair = inl refl;
  before_count = omega arith;
  after_count = omega arith;
}

pub IsValid-suc : {base n : ℕ} {e : TscEntry} → IsValid base n e → IsValid base (n + 1) e
IsValid-suc v = record {
  placed = v.placed;
  pair = v.pair;
  before_count = omega (arith, v.before_count);
  after_count = omega (arith, v.after_count);
}

update_difference-keeps :
    (e : TscEntry) (t : ℕ)
    → ((update_difference e t).before ≡ e.before)
      × ((update_difference e t).after ≡ e.after)
      × ((update_difference e t).tsc_hash ≡ e.tsc_hash)
unfolding update_difference
update_difference-keeps e t = ground arith

hit_increment-keeps :
    (h : TscHit) (t n : ℕ)
    → h.count ≤ n
    → ((hit_increment h t).address ≡ h.address) × ((hit_increment h t).count ≤ n + 1)
unfolding hit_increment
hit_increment-keeps h t n le = omega arith

record_hit-IsValid :
    {base n : ℕ} (s : Side) {e : TscEntry} (t : ℕ)
    → IsValid base n e
    → IsValid base (n + 1) (record_hit s e t)
unfolding record_hit
record_hit-IsValid {base} {n} at_before {e} t v = ground (
  arith,
  update_difference-keeps e t,
  hit_increment-keeps e.before t n,
  hit_increment-keeps (update_difference e t).before t n,
)
record_hit-IsValid {base} {n} at_after {e} t v =
    ground
      (arith, update_difference-keeps e t, hit_increment-keeps (update_difference e t).after t n)

-- What TdFindSibling's test says of an entry of the table.
is_sibling-facts :
    {base n : ℕ} {e : TscEntry} {hash a : ℕ}
    → IsValid base n e
    → hash ≢ 0
    → InRegion base a
    → is_sibling e hash a ≡ true
    → (e.before.address ≢ 0)
      × InRegion base e.before.address
      × (a < e.before.address + 0xff)
      × (e.before.address < a + 0xff)
      × ((e.before.address ≡ a) ⊎ (e.after.address ≡ a) ⊎ (e.after.address ≡ 0))
unfolding is_sibling
is_sibling-facts {base} {n} {e} {hash} {a} v nz ra h = elim v.placed [
  | inl (_, _, free) ↦ absurd (ground (arith, free))
  | inr (used, rb) ↦
      let near : are_vas_within_sibling_range e.before.address a ≡ true = ground arith in
      let (lo, hi) = (within_sibling_range_iff rb ra).0 near in (used, rb, hi, lo, ground arith)
]

choose_hit-IsValid :
    {base n : ℕ} {e : TscEntry} {hash a : ℕ}
    → IsValid base n e
    → hash ≢ 0
    → a ≢ 0
    → InRegion base a
    → is_sibling e hash a ≡ true
    → (s : Side) × (e' : TscEntry) × (choose_hit e a ≡ some (s, e')) × IsValid base n e'
unfolding choose_hit
choose_hit-IsValid {base} {n} {e} {hash} {a} v nz az ra h =
    let (used, rb, lo, hi, which) = is_sibling-facts v nz ra h in
    elim (Bool-cases (e.before.address == a)) [
      | inl y ↦ (at_before, e, rw y refl, v)
      | inr x ↦ elim (Bool-cases (e.after.address == a)) [
        | inl y ↦ (at_after, e, rw (x, y) refl, v)
        | inr z ↦
            let unset : e.after.address ≡ 0 = ground (arith, which) in
            let w : (e.after.address == 0) ≡ true = rw unset refl in
            elim (Bool-cases (ltb a e.before.address)) [
              | inl y ↦ (
                at_before,
                record e {
                  after = e.before;
                  before = record { address = a; time_stamp = 0; count = 0 };
                },
                rw (x, z, w, y) refl,
                record {
                  placed = inr (az, ra);
                  pair = inr (ground arith, omega arith);
                  before_count = omega arith;
                  after_count = v.before_count;
                },
              )
              | inr y ↦ (
                at_after,
                record e { after = record (e.after) { address = a } },
                rw (x, z, w, y) refl,
                record {
                  placed = inr (used, rb);
                  pair = inr (ground arith, lo);
                  before_count = v.before_count;
                  after_count = v.after_count;
                },
              )
            ]
      ]
    ]

-- On an entry that TdFindSibling returns, TdUpdateSibling does not dereference a null pointer,
-- and leaves the entry valid.
pub update_sibling-IsValid :
    {base n : ℕ} {e : TscEntry} {hash a : ℕ} (t : ℕ)
    → IsValid base n e
    → hash ≢ 0
    → a ≢ 0
    → InRegion base a
    → is_sibling e hash a ≡ true
    → (e' : TscEntry) × (update_sibling e a t ≡ some e') × IsValid base (n + 1) e'
unfolding update_sibling
update_sibling-IsValid t v nz az ra h =
    let (s, e', chosen, v') = choose_hit-IsValid v nz az ra h in
    (record_hit s e' t, rw (update_sibling, chosen), record_hit-IsValid s t v')
