-- ===== src/Tsc/Event/Step.antt =====
-- One event of src/tsc.c: TdProcessTscEvent on a valid table.
use deepshield.Prelude.{
  ℕ, ◌+◌, ◌<◌, ◌≡◌, ◌≢◌, ◌⊎◌, inl, inr, refl, ap, if◌then◌else◌, Bool, true, false, Bool-cases,
  Option, some, List, [], ◌∷◌, length, take, set, replicate, length-set, get_or-set_self,
  get_or-set_ne, length-replicate, sub64, ◌∙◌, ◌==◌, ==_iff, arith,
}
use deepshield.Tsc.{
  TscEntry, cleared, sibling_distance_limit, find_sibling, create_sibling, is_free_slot,
  is_timing_candidate,
}
use deepshield.Tsc.Range.{InRegion}
use deepshield.Tsc.Inv.{IsValid, IsPair, cleared-IsValid, IsValid-suc, update_sibling-IsValid}
use deepshield.Tsc.Table.{entry, find_sibling-first, get_sibling_slot_lem, IsSlot}
use deepshield.Tsc.Candidate.{is_timing_candidate_cases, candidate-facts}
use deepshield.Tsc.Analysis.{Disassembler, Page, attack, is_attack, TscReport, no_flags}
use deepshield.Tsc.Analysis.Copy.{copy_sibling_memory-bounds}
use deepshield.Tsc.Analysis.Loop.{analyze_disassembled_instructions_lem}
use deepshield.Tsc.Event.{
  Effect, trim_tsd, Outcome, done, tsc_hash_of, is_timing_attack, report_candidate, assess,
  process_tsc_event,
}

-- Every entry of the table is valid after `n` events.
abbrev pub AllValid : ℕ → ℕ → List TscEntry → Type 0
AllValid base n head = (k : ℕ) → k < length head → IsValid base n (entry head k)

AllValid-set :
    {base n : ℕ} (head : List TscEntry) (i : ℕ) (e : TscEntry)
    → AllValid base n head
    → IsValid base n e
    → AllValid base n (set head i e)
AllValid-set head i e all v k lt = elim (Bool-cases (i == k)) [
  | inl y ↦
      let same : i ≡ k = (==_iff i k).0 y in
      let lt' : i < length head = omega (arith, length-set head i e) in
      rw (← same, get_or-set_self head i e cleared lt') v
  | inr x ↦
      let differ : i ≢ k = ground arith in
      rw (get_or-set_ne head i k e cleared differ) (all k (omega (arith, length-set head i e)))
]

AllValid-suc :
    {base n : ℕ} (head : List TscEntry) → AllValid base n head → AllValid base (n + 1) head
AllValid-suc head all k lt = IsValid-suc (all k lt)

-- The slot that TdGetSiblingSlot hands over has no After address.
slot-IsUnset :
    {base n : ℕ} (head : List TscEntry) (i : ℕ) (head' : List TscEntry)
    → AllValid base n head
    → i < length head
    → IsSlot head i head'
    → AllValid base n head' × (length head' ≡ length head) × ((entry head' i).after.address ≡ 0)
unfolding is_free_slot
slot-IsUnset head i head' all lt (inl (free, _, same)) =
    rw same (all, refl, ground (arith, (all i lt).placed))
slot-IsUnset {base} {n} head i head' all lt (inr (_, same, _)) = rw same (
  AllValid-set head i cleared all (cleared-IsValid base n),
  length-set head i cleared,
  rw (get_or-set_self head i cleared cleared lt) refl,
)

create_sibling-valid :
    {base n : ℕ} {address : ℕ} (head : List TscEntry) (hash time_stamp : ℕ)
    → AllValid base n head
    → 0 < length head
    → address ≢ 0
    → InRegion base address
    → (i : ℕ) × (head' : List TscEntry) × (create_sibling head address hash time_stamp
        ≡ some (i, head'))
      × (i < length head)
      × (length head' ≡ length head)
      × AllValid base (n + 1) head'
unfolding create_sibling
create_sibling-valid {base} {n} {address} head hash time_stamp all pos nz ra =
    let (i, head', found, lt, slot) = get_sibling_slot_lem head pos in
    let (all', len, unset) = slot-IsUnset head i head' all lt slot in
    let old = all' i (omega (arith, len)) in
    let e : TscEntry = record (entry head' i) {
      tsc_hash = hash;
      before = record { address = address; time_stamp = time_stamp; count = 1 };
    } in
    (
      i,
      set head' i e,
      rw (create_sibling, found) refl,
      lt,
      length-set head' i e ∙ len,
      AllValid-set head' i e (AllValid-suc head' all') record {
        placed = inr (nz, ra);
        pair = inl unset;
        before_count = omega arith;
        after_count = omega (arith, old.after_count);
      },
    )

-- TdIsTimingCandidate leaves a valid sibling valid.
sibling-IsValid :
    {base n : ℕ} (e : TscEntry) → IsValid base n e → IsValid base n (is_timing_candidate e).sibling
sibling-IsValid {base} {n} e v = elim (is_timing_candidate_cases e) [
  | inl (same, _) ↦ rw same v
  | inr same ↦ rw same (cleared-IsValid base n)
]

-- A table, an answer and effects that an event may leave after `n` events.
abbrev Good : ℕ → ℕ → List TscEntry → Outcome → Type 0
Good base n head o =
    (b : Bool) × (head' : List TscEntry) × (effects : List Effect) × (o ≡ done b head' effects)
    × (length head' ≡ length head)
    × AllValid base n head'
    × ((b ≡ false) ⊎ (255 < n))

module _ (dis : Disassembler) (map_page : ℕ → Option Page) where
  -- On a pair TdIsTimingAttack comes to an answer.
  is_timing_attack-answers :
      (e : TscEntry)
      → IsPair e
      → e.after.address ≢ 0
      → (b : Bool) × (report : TscReport) × (is_timing_attack dis map_page e ≡ attack b report)
  unfolding is_timing_attack
  is_timing_attack-answers e pair nz =
      elim (copy_sibling_memory-bounds map_page e (replicate sibling_distance_limit 0)
        (length-replicate {A = ℕ} sibling_distance_limit 0) pair nz) [
          | inl f ↦ (false, record { code = []; flags = no_flags }, rw (is_timing_attack, f) refl)
          | inr (code, c, _) ↦
              let (_, flags, _, r, _) =
                analyze_disassembled_instructions_lem dis
                  (take (sub64 e.after.address e.before.address) code) in
              (
                is_attack flags,
                record { code = take (sub64 e.after.address e.before.address) code; flags = flags },
                rw (is_timing_attack, c, r) refl,
              )
        ]

  report_candidate-Good :
      {base n : ℕ} (process_id thread_id : ℕ) (head : List TscEntry) (i : ℕ) (b : Bool)
      (report : TscReport)
      → AllValid base n head
      → 255 < n
      → Good base n head
          (report_candidate dis map_page process_id thread_id head i (attack b report))
  unfolding report_candidate
  report_candidate-Good {base} {n} process_id thread_id head i true report all often =
      let all' = AllValid-set head i cleared all (cleared-IsValid base n) in
      (true, _, _, refl, length-set head i cleared, all', inr often)
  report_candidate-Good {base} {n} process_id thread_id head i false report all often =
      let all' = AllValid-set head i cleared all (cleared-IsValid base n) in
      (false, _, _, refl, length-set head i cleared, all', inl refl)

  assess-Good :
      {base n : ℕ} (process_id thread_id : ℕ) (head : List TscEntry) (i : ℕ)
      → AllValid base n head
      → i < length head
      → Good base n head (assess dis map_page process_id thread_id head i)
  unfolding assess report_candidate
  assess-Good {base} {n} process_id thread_id head i all lt =
      let e = entry head i in
      let a = is_timing_candidate e in
      let head' = set head i a.sibling in
      let all' = AllValid-set head i a.sibling all (sibling-IsValid e (all i lt)) in
      elim (Bool-cases a.candidate) [
        | inl y ↦
            let (often, _, nz, same) = candidate-facts e y in
            let (b, report, r) = is_timing_attack-answers e (all i lt).pair nz in
            let r' : is_timing_attack dis map_page a.sibling ≡ attack b report = rw same r in
            let (b', head'', effects, o, len, valid, _) =
              report_candidate-Good process_id thread_id head' i b report all'
                (omega (arith, often, (all i lt).before_count)) in
            (
              b',
              head'',
              effects,
              rw (assess, y, r') o,
              len ∙ length-set head i a.sibling,
              valid,
              inr (omega (arith, often, (all i lt).before_count)),
            )
        | inr x ↦ (
          false,
          head',
          if a.trimmed then trim_tsd ∷ [] else [],
          rw (assess, x) refl,
          length-set head i a.sibling,
          all',
          inl refl,
        )
      ]

  -- An event at an address of the region, on a valid table that is not empty: TdProcessTscEvent
  -- comes to an answer without a null dereference or a write past a buffer. It keeps the size of
  -- the table and leaves it valid for one more event, and answers TRUE only after 255 events.
  pub process_tsc_event-IsValid :
      {base n : ℕ} (process_id thread_id : ℕ) (head : List TscEntry) (address time_stamp : ℕ)
      → AllValid base n head
      → 0 < length head
      → tsc_hash_of process_id thread_id ≢ 0
      → address ≢ 0
      → InRegion base address
      → (b : Bool) × (head' : List TscEntry) × (effects : List Effect) × (process_tsc_event dis
            map_page process_id thread_id head address time_stamp
          ≡ done b head' effects)
        × (length head' ≡ length head)
        × AllValid base (n + 1) head'
        × ((b ≡ false) ⊎ (255 < n + 1))
  unfolding process_tsc_event
  process_tsc_event-IsValid process_id thread_id head address time_stamp all pos hz nz ra =
      let hash = tsc_hash_of process_id thread_id in
      elim (find_sibling-first head hash address) [
        | inl (i, (found, lt, match_, _)) ↦
            let found' : find_sibling head 0 hash address ≡ some i =
              found ∙ ap (λ (k : ℕ). some k) (omega arith) in
            let (e', updated, v) = update_sibling-IsValid time_stamp (all i lt) hz nz ra match_ in
            let head' = set head i e' in
            let (b, head'', effects, o, len, valid, often) =
              assess-Good process_id thread_id head' i
                (AllValid-set head i e' (AllValid-suc head all) v)
                (omega (arith, lt, length-set head i e')) in
            (
              b,
              head'',
              effects,
              rw (process_tsc_event, found', updated) o,
              len ∙ length-set head i e',
              valid,
              often,
            )
        | inr (missing, _) ↦
            let (i, head', created, lt, len', all') =
              create_sibling-valid head hash time_stamp all pos nz ra in
            let (b, head'', effects, o, len, valid, often) =
              assess-Good process_id thread_id head' i all' (omega (arith, lt, len')) in
            (
              b,
              head'',
              effects,
              rw (process_tsc_event, missing, created) o,
              len ∙ len',
              valid,
              often,
            )
      ]
