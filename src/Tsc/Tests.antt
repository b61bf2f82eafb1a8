-- ===== src/Tsc/Tests.antt =====
-- src/tsc.c on concrete tables, with a disassembler that takes one byte for an instruction.
use deepshield.Prelude.{
  ℕ, zero, suc, ◌<◌, ◌≡◌, ◌↔◌, ◌⊎◌, inr, refl, Bool, true, false, not, ◌&&◌, Option, none, some,
  List, [], ◌∷◌, length, drop, get_or, replicate, length-drop, sub64, ◌==◌, if◌then◌else◌, arith,
}
use deepshield.Tsc.{
  TscHit, TscEntry, cleared, max_tsc_hits, sibling_distance_limit, find_sibling, get_sibling_slot,
  is_timing_candidate,
}
use deepshield.Tsc.Range.{InRegion}
use deepshield.Tsc.Inv.{cleared-IsValid}
use deepshield.Tsc.Table.{entry, IsSiblingOf, find_sibling_lem, IsSlot, get_sibling_slot_lem}
use deepshield.Tsc.Candidate.{IsCandidate, SmallCounts, is_timing_candidate_iff}
use deepshield.Tsc.Analysis.{
  mem, other, Instruction, Disassembler, Flags, no_flags, analyze_disassembled_instructions,
  is_attack, failed, copied, overflow, copy_sibling_memory,
}
use deepshield.Tsc.Analysis.Copy.{mapped, copy_sibling_memory-bounds, copy_sibling_memory-far}
use deepshield.Tsc.Analysis.Loop.{
  Analysed, any_invalid, any_reads_memory, analyze_disassembled_instructions_lem,
}
use deepshield.Tsc.Event.{Effect, done, TscEvent, process_tsc_event, process_tsc_events}
use deepshield.Tsc.Event.Step.{AllValid, process_tsc_event-IsValid}
use deepshield.Tsc.Event.Run.{AllPlausible, process_tsc_events-first_answers}

in_region : InRegion 0x400000 0x401010
in_region = record { fits = omega arith; low = omega arith; high = omega arith }

in_region' : InRegion 0x400000 0x401040
in_region' = record { fits = omega arith; low = omega arith; high = omega arith }

abbrev hit : ℕ → ℕ → ℕ → TscHit
hit address time_stamp count = record { address = address; time_stamp = time_stamp; count = count }

-- A pair seen 300 times, with an average of 64 cycles.
abbrev pair : ℕ → ℕ → TscEntry
pair before after = record {
  before = hit before 1000 300;
  after = hit after 1064 300;
  skips = 2;
  difference = 64;
  tsc_hash = 5;
}

abbrev table : List TscEntry
table = pair 0x401010 0x401040 ∷ cleared ∷ pair 0x402000 0x402010 ∷ []

find_sibling_lem_example :
    ((j : ℕ) × (find_sibling table 0 5 0x402010 ≡ some j)
      × (j < length table)
      × IsSiblingOf 5 0x402010 (entry table j)
      × ((k : ℕ) → k < j → IsSiblingOf 5 0x402010 (entry table k) → ⊥))
    ⊎ ((find_sibling table 0 5 0x402010 ≡ none)
        × ((k : ℕ) → k < length table → IsSiblingOf 5 0x402010 (entry table k) → ⊥))
find_sibling_lem_example = find_sibling_lem table 5 0x402010

get_sibling_slot_lem_example :
    (i : ℕ) × (head' : List TscEntry) × (get_sibling_slot table ≡ some (i, head'))
    × (i < length table)
    × IsSlot table i head'
get_sibling_slot_lem_example = get_sibling_slot_lem table (omega arith)

pair-SmallCounts : SmallCounts (pair 0x401010 0x401040)
pair-SmallCounts = record { small_before = omega arith; small_after = omega arith }

is_timing_candidate_iff_example :
    ((is_timing_candidate (pair 0x401010 0x401040)).candidate ≡ true)
    ↔ IsCandidate (pair 0x401010 0x401040)
is_timing_candidate_iff_example = is_timing_candidate_iff pair-SmallCounts

-- The guest has the byte 1 at 0x401020 and 0 elsewhere.
abbrev memory : ℕ → ℕ
memory a = if a == 0x401020 then 1 else 0

abbrev buffer : List ℕ
buffer = replicate sibling_distance_limit 0

copy_sibling_memory-bounds_example :
    (copy_sibling_memory (mapped memory) (pair 0x401010 0x401040) buffer ≡ failed)
    ⊎ ((code' : List ℕ) × (copy_sibling_memory (mapped memory) (pair 0x401010 0x401040) buffer
          ≡ copied code' (sub64 0x401040 0x401010))
        × (length code' ≡ sibling_distance_limit))
copy_sibling_memory-bounds_example =
    copy_sibling_memory-bounds (mapped memory) (pair 0x401010 0x401040) buffer refl
      (inr (omega arith, omega arith)) (omega arith)

copy_sibling_memory-far_example :
    copy_sibling_memory (mapped memory) (pair 0x401010 0x100401018) buffer ≡ overflow
copy_sibling_memory-far_example =
    copy_sibling_memory-far memory (pair 0x401010 0x100401018) buffer (omega arith) (omega arith)

-- The byte 1 is an instruction that reads memory, 2 is invalid.
abbrev pub decode : ℕ → Instruction
decode b = record {
  is_invalid = b == 2;
  operand0 = other;
  operand1 = if b == 1 then mem else other;
  operand2 = other;
  size0 = 0;
  uqword0 = 0;
}

abbrev pub one_byte : List ℕ → Option (Instruction × List ℕ)
one_byte [] = none
one_byte (b ∷ bs) = some (decode b, bs)

pub one_byte-shorter :
    (s s' : List ℕ) (i : Instruction) → one_byte s ≡ some (i, s') → length s' < length s
one_byte-shorter [] s' i e = ground arith
one_byte-shorter (b ∷ bs) s' i e = ground arith

abbrev pub bytewise : Disassembler
bytewise = record {
  Input = List ℕ;
  set_input_buffer = λ code. code;
  disassemble = one_byte;
  input_skip = λ s n. drop n s;
  remaining = λ s. length s;
  remaining-set_input_buffer = λ code. refl;
  remaining-disassemble = one_byte-shorter;
  remaining-input_skip = λ s n. omega (arith, length-drop n s);
}

abbrev code : List ℕ
code = 0 ∷ 1 ∷ 0 ∷ []

analyze_disassembled_instructions_lem_example :
    (is : List Instruction) × (f : Flags) × Analysed bytewise code is
    × (analyze_disassembled_instructions bytewise code no_flags ≡ some f)
    × (is_attack f ≡ (not (any_invalid is) && any_reads_memory is))
analyze_disassembled_instructions_lem_example = analyze_disassembled_instructions_lem bytewise code

two_free-AllValid : AllValid 0x400000 7 (cleared ∷ cleared ∷ [])
two_free-AllValid zero lt = cleared-IsValid 0x400000 7
two_free-AllValid (suc zero) lt = cleared-IsValid 0x400000 7
two_free-AllValid (suc (suc k)) lt = absurd (omega arith)

process_tsc_event-IsValid_example :
    (b : Bool) × (head' : List TscEntry) × (effects : List Effect) × (process_tsc_event bytewise
        (mapped memory)
        8
        12
        (cleared ∷ cleared ∷ [])
        0x401010
        1000
      ≡ done b head' effects)
    × (length head' ≡ length {A = TscEntry} (cleared ∷ cleared ∷ []))
    × AllValid 0x400000 8 head'
    × ((b ≡ false) ⊎ (255 < 8))
process_tsc_event-IsValid_example =
    process_tsc_event-IsValid bytewise (mapped memory) 8 12 (cleared ∷ cleared ∷ []) 0x401010 1000
      two_free-AllValid (omega arith) (omega arith) (omega arith) in_region

abbrev events : List TscEvent
events =
    record { process_id = 8; thread_id = 12; address = 0x401010; time_stamp = 1000 }
    ∷ record { process_id = 8; thread_id = 12; address = 0x401040; time_stamp = 1064 }
    ∷ []

events-AllPlausible : AllPlausible 0x400000 events
events-AllPlausible = (
  record { hash = omega arith; address = omega arith; region = in_region },
  (record { hash = omega arith; address = omega arith; region = in_region' }, tt),
)

process_tsc_events-first_answers_example :
    (answers : List Bool) × (head' : List TscEntry) × (process_tsc_events bytewise
        (mapped memory)
        events
        (replicate max_tsc_hits cleared)
      ≡ some (answers, head'))
    × (length answers ≡ length events)
    × (length head' ≡ max_tsc_hits)
    × AllValid 0x400000 (length events) head'
    × ((k : ℕ) → k < 255 → get_or answers k false ≡ false)
process_tsc_events-first_answers_example =
    process_tsc_events-first_answers bytewise (mapped memory) events events-AllPlausible
