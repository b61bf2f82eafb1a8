-- ===== src/Tsc.antt =====
-- src/tsc.c: pairs of RDTSC/P addresses ("siblings") that a thread hits again and again. The
-- table TscHits is a list; a pointer into it is an index.
pub mod Analysis
pub mod Range
pub mod Table
pub mod Inv
pub mod Candidate
pub mod Event
pub mod Tests
use deepshield.Prelude.{
  ℕ, zero, suc, ◌+◌, ◌-◌, ◌*◌, ◌/◌, ◌%◌, ◌^◌, max, Bool, true, false, not, ◌&&◌, ◌||◌, Option, none,
  some, List, [], ◌∷◌, set, get_or, ltb, leb, ◌==◌, if◌then◌else◌, add64, sub64, add32, word,
  to_int, abs_int, int_ltb, int_to_uint64,
}

-- TSC_HIT
pub record TscHit : Type 0 where
  pub address : ℕ
  pub time_stamp : ℕ
  pub count : ℕ

-- TSC_ENTRY
pub record TscEntry : Type 0 where
  pub before : TscHit
  pub after : TscHit
  pub skips : ℕ
  pub difference : ℕ
  pub tsc_hash : ℕ

abbrev pub max_tsc_hits : ℕ
max_tsc_hits = 100

abbrev pub sibling_distance_limit : ℕ
sibling_distance_limit = 0xff

abbrev pub zero_hit : TscHit
zero_hit = record { address = 0; time_stamp = 0; count = 0 }

-- What TdClearSibling leaves.
abbrev pub cleared : TscEntry
cleared = record { before = zero_hit; after = zero_hit; skips = 0; difference = 0; tsc_hash = 0 }

-- IS_ORPHAN_SIBLING
pub is_orphan_sibling : TscEntry → Bool
is_orphan_sibling e = (e.after.address == 0) || (e.before.address == 0)

-- ARE_VAS_WITHIN_SIBLING_RANGE: the 64-bit difference is cut to an `int` first.
pub are_vas_within_sibling_range : ℕ → ℕ → Bool
are_vas_within_sibling_range source target =
    int_ltb (abs_int (to_int (sub64 source target))) sibling_distance_limit

-- TdIsFreeSlot
pub is_free_slot : TscEntry → Bool
is_free_slot e = e.before.address == 0

-- The older of the slot remembered so far, by index and time stamp, and slot `i`.
pub older : Option (ℕ × ℕ) → ℕ → ℕ → ℕ × ℕ
older none i t = (i, t)
older (some (j, u)) i t = if ltb t u then (i, t) else (j, u)

-- How the loop of TdGetSiblingSlot ends.
pub data Slot : Type 0 where
  free : ℕ → Slot
  recycled : Option (ℕ × ℕ) → Option (ℕ × ℕ) → Slot

-- The loop from entry `i` on, with OrphanOldest and SiblingOldest.
pub scan_slots : List TscEntry → ℕ → Option (ℕ × ℕ) → Option (ℕ × ℕ) → Slot
scan_slots [] i orphan sibling = recycled orphan sibling
scan_slots (e ∷ es) i orphan sibling =
    let t = e.before.time_stamp in
    let on_orphan = scan_slots es (i + 1) (some (older orphan i t)) sibling in
    let on_sibling = scan_slots es (i + 1) orphan (some (older sibling i t)) in
    if is_free_slot e then free i else (if not (is_orphan_sibling e) then on_sibling else on_orphan)

-- TdGetSiblingSlot: the slot, with the table in which a recycled one is cleared. `none` would be
-- the dereference of a null SiblingOldest.
pub get_sibling_slot : List TscEntry → Option (ℕ × List TscEntry)
get_sibling_slot head = elim (scan_slots head 0 none none) [
  | free i ↦ some (i, head)
  | recycled orphan sibling ↦ elim orphan [
    | some (i, _) ↦ some (i, set head i cleared)
    | none ↦ elim sibling [ some (i, _) ↦ some (i, set head i cleared) | none ↦ none ]
  ]
]

-- The condition in the loop of TdFindSibling.
pub is_sibling : TscEntry → ℕ → ℕ → Bool
is_sibling e hash address =
    (hash == e.tsc_hash)
    && are_vas_within_sibling_range e.before.address address
    && ((e.before.address == address) || (e.after.address == address) || (e.after.address == 0))

-- TdFindSibling from entry `i` on.
pub find_sibling : List TscEntry → ℕ → ℕ → ℕ → Option ℕ
find_sibling [] i hash address = none
find_sibling (e ∷ es) i hash address =
    if is_sibling e hash address then some i else find_sibling es (i + 1) hash address

-- TdHitIncrement
pub hit_increment : TscHit → ℕ → TscHit
hit_increment hit time_stamp = record hit { count = add64 hit.count 1; time_stamp = time_stamp }

-- The part of TdUpdateSibling that keeps the average, for a hit at the After address.
pub update_difference : TscEntry → ℕ → TscEntry
update_difference e time_stamp =
    let difference = int_to_uint64 (abs_int (to_int (sub64 time_stamp e.before.time_stamp))) in
    if e.difference == 0
    then record e { difference = difference }
    else (let current = int_to_uint64 (abs_int (to_int (sub64 difference e.difference))) in
        let threshold = (e.difference * 3 % word) / 2 in
        if ltb e.difference difference && ltb threshold current
        then record e { skips = add32 e.skips 1 }
        else record e { difference = add64 e.difference difference / 2 })

-- Which hit of the sibling `Hit` points to.
pub data Side : Type 0 where
  at_before at_after : Side

-- The first part of TdUpdateSibling: the choice of `Hit`, and the entry with the address
-- recorded. `none` leaves `Hit` null.
pub choose_hit : TscEntry → ℕ → Option (Side × TscEntry)
choose_hit e address =
    if e.before.address == address
    then some (at_before, e)
    else if e.after.address == address
    then some (at_after, e)
    else if e.after.address == 0
    then if ltb address e.before.address
      then some (
        at_before,
        record e {
          after = e.before;
          before = record { address = address; time_stamp = 0; count = 0 };
        },
      )
      else some (at_after, record e { after = record (e.after) { address = address } })
    else none

-- The rest of TdUpdateSibling. The average is kept when the hit's address is the After address.
pub record_hit : Side → TscEntry → ℕ → TscEntry
record_hit at_before e time_stamp =
    let e' = (if e.before.address == e.after.address then update_difference e time_stamp else e) in
    record e' { before = hit_increment e'.before time_stamp }
record_hit at_after e time_stamp =
    let e' = update_difference e time_stamp in
    record e' { after = hit_increment e'.after time_stamp }

-- TdUpdateSibling; `none` is the null dereference that its assertions rule out.
pub update_sibling : TscEntry → ℕ → ℕ → Option TscEntry
update_sibling e address time_stamp = elim (choose_hit e address) [
  | none ↦ none
  | some (side, e') ↦ some (record_hit side e' time_stamp)
]

-- TdIsTimingCandidate: the answer, the sibling, and whether HvmTrimTsdForQuantum( FALSE ) ran.
pub record Assessment : Type 0 where
  pub candidate : Bool
  pub sibling : TscEntry
  pub trimmed : Bool

-- TdDiscontinueSiblingAssesment, with the answer FALSE.
abbrev pub discontinued : Assessment
discontinued = record { candidate = false; sibling = cleared; trimmed = true }

abbrev pub is_count_threshold_ok : TscEntry → Bool
is_count_threshold_ok e = ltb 255 e.before.count

abbrev pub is_sync_threshold_ok : TscEntry → Bool
is_sync_threshold_ok e = int_ltb (abs_int (to_int (sub64 e.before.count e.after.count))) 2

abbrev pub is_skips_threshold_ok : TscEntry → Bool
is_skips_threshold_ok e = ltb e.skips (max (e.before.count / 20) 1)

pub is_timing_candidate : TscEntry → Assessment
is_timing_candidate e =
    if (e.difference == 0) || is_orphan_sibling e
    then record { candidate = false; sibling = e; trimmed = false }
    else if ltb 0x50000 e.difference
    then discontinued
    else (let candidate =
          is_sync_threshold_ok e && is_skips_threshold_ok e && is_count_threshold_ok e in
        if not candidate && is_count_threshold_ok e
        then discontinued
        else record { candidate = candidate; sibling = e; trimmed = false })

-- TdCreateSibling
pub create_sibling : List TscEntry → ℕ → ℕ → ℕ → Option (ℕ × List TscEntry)
create_sibling head address hash time_stamp = elim (get_sibling_slot head) [
  | none ↦ none
  | some (i, head') ↦ some (
    i,
    set head' i (record (get_or head' i cleared) {
      tsc_hash = hash;
      before = record { address = address; time_stamp = time_stamp; count = 1 };
    }),
  )
]
