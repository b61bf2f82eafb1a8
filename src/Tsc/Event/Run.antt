-- ===== src/Tsc/Event/Run.antt =====
-- Sequences of events of src/tsc.c on one processor.
use deepshield.Prelude.{
  ℕ, zero, suc, ◌+◌, ◌<◌, ◌≡◌, ◌≢◌, ◌∙◌, ◌⊎◌, inl, inr, refl, ap, Bool, false, Option, some, List,
  [], ◌∷◌, length, get_or, replicate, length-replicate, arith,
}
use deepshield.Tsc.{TscEntry, cleared, max_tsc_hits}
use deepshield.Tsc.Range.{InRegion}
use deepshield.Tsc.Inv.{cleared-IsValid}
use deepshield.Tsc.Table.{entry}
use deepshield.Tsc.Analysis.{Disassembler, Page}
use deepshield.Tsc.Event.{TscEvent, tsc_hash_of, process_tsc_events}
use deepshield.Tsc.Event.Step.{AllValid, process_tsc_event-IsValid}

-- An event at an address of the region, in a thread that does not have the hash of a free slot.
pub record IsPlausible (base : ℕ) (ev : TscEvent) : Type 0 where
  pub hash : tsc_hash_of ev.process_id ev.thread_id ≢ 0
  pub address : ev.address ≢ 0
  pub region : InRegion base ev.address

abbrev pub AllPlausible : ℕ → List TscEvent → Type 0
AllPlausible base [] = Unit
AllPlausible base (ev ∷ evs) = IsPlausible base ev × AllPlausible base evs

none_early-∷ :
    (b : Bool) (bs : List Bool) (n : ℕ)
    → (b ≡ false) ⊎ (255 < n + 1)
    → ((k : ℕ) → n + 1 + k < 255 → get_or bs k false ≡ false)
    → (k : ℕ) → n + k < 255
    → get_or (b ∷ bs) k false ≡ false
none_early-∷ b bs n (inl e) rest zero lt = e
none_early-∷ b bs n (inr late) rest zero lt = absurd (omega arith)
none_early-∷ b bs n late rest (suc k) lt = rest k (omega arith)

entry-replicate : (n k : ℕ) → entry (replicate n cleared) k ≡ cleared
entry-replicate zero k = refl
entry-replicate (suc n) zero = refl
entry-replicate (suc n) (suc k) = entry-replicate n k

module _ (dis : Disassembler) (map_page : ℕ → Option Page) where
  process_tsc_events-from :
      {base : ℕ} (evs : List TscEvent) (n : ℕ) (head : List TscEntry)
      → AllValid base n head
      → 0 < length head
      → AllPlausible base evs
      → (answers : List Bool) × (head' : List TscEntry) × (process_tsc_events dis map_page evs head
          ≡ some (answers, head'))
        × (length answers ≡ length evs)
        × (length head' ≡ length head)
        × AllValid base (n + length evs) head'
        × ((k : ℕ) → n + k < 255 → get_or answers k false ≡ false)
  unfolding process_tsc_events
  process_tsc_events-from [] n head all pos p =
      let e : n ≡ n + 0 = omega arith in ([], head, refl, refl, refl, rw (← e) all, λ k lt. refl)
  process_tsc_events-from (ev ∷ evs) n head all pos (p, ps) =
      let (b, head1, effects, o, len, all1, late) =
        process_tsc_event-IsValid dis map_page ev.process_id ev.thread_id head ev.address
          ev.time_stamp all pos p.hash p.address p.region in
      let (bs, head2, r, count, len', all2, rest) =
        process_tsc_events-from evs (n + 1) head1 all1 (omega (arith, len)) ps in
      let e : n + 1 + length evs ≡ n + suc (length evs) = omega arith in
      (
        b ∷ bs,
        head2,
        rw (process_tsc_events, o, r) refl,
        ap suc count,
        len' ∙ len,
        rw (← e) all2,
        none_early-∷ b bs n late rest,
      )

  -- From a cleared table, events at addresses of one region of 2 GB are all processed without a
  -- crash, and the table keeps its 100 entries. None of the first 255 answers is TRUE.
  pub process_tsc_events-first_answers :
      {base : ℕ} (evs : List TscEvent)
      → AllPlausible base evs
      → (answers : List Bool) × (head' : List TscEntry) × (process_tsc_events dis map_page evs
            (replicate max_tsc_hits cleared)
          ≡ some (answers, head'))
        × (length answers ≡ length evs)
        × (length head' ≡ max_tsc_hits)
        × AllValid base (length evs) head'
        × ((k : ℕ) → k < 255 → get_or answers k false ≡ false)
  process_tsc_events-first_answers {base} evs p =
      let len = length-replicate max_tsc_hits cleared in
      let (answers, head', r, count, len', all, early) =
        process_tsc_events-from evs 0 (replicate max_tsc_hits cleared)
          (λ k lt. rw (entry-replicate max_tsc_hits k) (cleared-IsValid base 0))
          (omega (arith, len)) p in
      let e : 0 + length evs ≡ length evs = omega arith in
      (answers, head', r, count, len' ∙ len, rw e at all, λ k lt. early k (omega arith))
