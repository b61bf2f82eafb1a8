-- ===== src/Tsc/Candidate.antt =====
-- When src/tsc.c takes a sibling for a timing candidate: TdIsTimingCandidate.
use deepshield.Prelude.{◌+◌, ◌/◌, ◌^◌, ◌≤◌, ◌<◌, ◌≡◌, ◌≢◌, ◌↔◌, ◌⊎◌, max, true, false, arith}
use deepshield.Tsc.{TscEntry, is_orphan_sibling, discontinued, is_timing_candidate}

-- A pair whose average is at most 0x50000 cycles, seen more than 255 times, the two addresses
-- as often but for one hit, with fewer than one skip in twenty.
pub record IsCandidate (e : TscEntry) : Type 0 where
  pub measured : e.difference ≢ 0
  pub close : e.difference ≤ 0x50000
  pub has_before : e.before.address ≢ 0
  pub has_after : e.after.address ≢ 0
  pub often : 255 < e.before.count
  pub in_step : (e.before.count ≤ e.after.count + 1) × (e.after.count ≤ e.before.count + 1)
  pub steady : e.skips < max (e.before.count / 20) 1

-- Hit counts that an `int` holds.
pub record SmallCounts (e : TscEntry) : Type 0 where
  pub small_before : e.before.count < 2 ^ 31
  pub small_after : e.after.count < 2 ^ 31

-- While the hit counts fit an `int`, TdIsTimingCandidate answers TRUE exactly for the candidates,
-- and then leaves the sibling as it is and does not trim.
pub is_timing_candidate_iff :
    {e : TscEntry} → SmallCounts e → ((is_timing_candidate e).candidate ≡ true) ↔ IsCandidate e
unfolding is_timing_candidate is_orphan_sibling
is_timing_candidate_iff {e} s = (λ h. ground arith, λ c. ground arith)

-- What TdIsTimingCandidate does on every branch: it keeps the sibling and does not trim, or it
-- answers FALSE, clears the sibling and trims.
pub is_timing_candidate_cases :
    (e : TscEntry)
    → (((is_timing_candidate e).sibling ≡ e) × ((is_timing_candidate e).trimmed ≡ false))
      ⊎ (is_timing_candidate e ≡ discontinued)
unfolding is_timing_candidate
is_timing_candidate_cases e = ground arith

-- A candidate is no orphan and has been hit more than 255 times.
pub candidate-facts :
    (e : TscEntry)
    → (is_timing_candidate e).candidate ≡ true
    → (255 < e.before.count)
      × (e.before.address ≢ 0)
      × (e.after.address ≢ 0)
      × ((is_timing_candidate e).sibling ≡ e)
unfolding is_timing_candidate is_orphan_sibling
candidate-facts e h = ground arith
