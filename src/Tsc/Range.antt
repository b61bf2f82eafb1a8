-- ===== src/Tsc/Range.antt =====
-- When two addresses count as near in src/tsc.c (ARE_VAS_WITHIN_SIBLING_RANGE).
use deepshield.Prelude.{ℕ, ◌+◌, ◌*◌, ◌^◌, ◌≤◌, ◌<◌, ◌≡◌, ◌↔◌, true, arith, word}
use deepshield.Tsc.{are_vas_within_sibling_range}

-- Addresses of one region of 2 GB.
pub record InRegion (base a : ℕ) : Type 0 where
  pub fits : base + 2 ^ 31 ≤ word
  pub low : base ≤ a
  pub high : a < base + 2 ^ 31

-- In a region of 2 GB the test is the distance below `sibling_distance_limit`.
pub within_sibling_range_iff :
    {base a b : ℕ}
    → InRegion base a
    → InRegion base b
    → (are_vas_within_sibling_range a b ≡ true) ↔ ((a < b + 0xff) × (b < a + 0xff))
unfolding are_vas_within_sibling_range
within_sibling_range_iff ra rb = ground arith

-- Addresses that are a multiple of 4 GB and less than the limit apart pass the test too.
pub within_sibling_range-far :
    (a k d : ℕ)
    → d < 0xff
    → a + k * 2 ^ 32 + d < word
    → are_vas_within_sibling_range (a + k * 2 ^ 32 + d) a ≡ true
unfolding are_vas_within_sibling_range
within_sibling_range-far a k d h f = ground arith
