-- ===== src/Tsc/Analysis.antt =====
-- src/tsc.c, from TdUnmapAddress to TdIsTimingAttack: the code between the two addresses of a
-- sibling is copied and disassembled. The disassembler (libudis86) and the mapping of a guest
-- page (src/mmu.c) are parameters.
pub mod Copy
pub mod Loop
use deepshield.Prelude.{
  ℕ, zero, suc, ◌+◌, ◌-◌, ◌%◌, ◌≤◌, ◌<◌, ◌≡◌, Bool, true, false, not, ◌&&◌, ◌||◌, Option, none,
  some, List, [], ◌∷◌, ◌++◌, length, drop, ltb, ◌==◌, if◌then◌else◌, sub64,
}
use deepshield.Tsc.{TscEntry, sibling_distance_limit}

-- The operand types that the code tells apart: UD_OP_MEM, UD_OP_JIMM and the others.
pub data OperandType : Type 0 where
  mem jimm other : OperandType

abbrev pub is_mem : OperandType → Bool
is_mem mem = true
is_mem _ = false

abbrev pub is_jimm : OperandType → Bool
is_jimm jimm = true
is_jimm _ = false

-- What the code reads of a `ud_t` after an instruction.
pub record Instruction : Type 0 where
  pub is_invalid : Bool
  pub operand0 : OperandType
  pub operand1 : OperandType
  pub operand2 : OperandType
  pub size0 : ℕ
  pub uqword0 : ℕ

-- libudis86 on an input buffer: `ud_disassemble` and `ud_input_skip`. An instruction takes at
-- least one byte of the input, and to skip gives no input back.
pub record Disassembler : Type 1 where
  pub Input : Type 0
  pub set_input_buffer : List ℕ → Input
  pub disassemble : Input → Option (Instruction × Input)
  pub input_skip : Input → ℕ → Input
  pub remaining : Input → ℕ
  pub remaining-set_input_buffer : (code : List ℕ) → remaining (set_input_buffer code) ≡ length code
  pub remaining-disassemble :
      (s s' : Input) (i : Instruction) → disassemble s ≡ some (i, s') → remaining s' < remaining s
  pub remaining-input_skip : (s : Input) (n : ℕ) → remaining (input_skip s n) ≤ remaining s

-- The flags of a TSC_REPORT: TD_MEMORY_REFERENCES and TD_INSTRUCTIONS_INVALID.
pub record Flags : Type 0 where
  pub memory_references : Bool
  pub instructions_invalid : Bool

abbrev pub no_flags : Flags
no_flags = record { memory_references = false; instructions_invalid = false }

-- The condition of TdDisFollowForwardJump.
abbrev pub follows_forward_jump : Instruction → Bool
follows_forward_jump i = is_jimm i.operand0 && ltb 0 i.size0 && ltb 0 i.uqword0

-- The condition of TdDisAnalyzeMemoryReadReferences.
abbrev pub reads_memory : Instruction → Bool
reads_memory i = not (is_mem i.operand0) && (is_mem i.operand1 || is_mem i.operand2)

-- TdDisAnalyzeMemoryReadReferences, then TdDisAnalyzeInvalidInstructions.
abbrev pub analyze_instruction : Flags → Instruction → Flags
analyze_instruction f i = record {
  memory_references = f.memory_references || reads_memory i;
  instructions_invalid = f.instructions_invalid || i.is_invalid;
}

module _ (dis : Disassembler) where
  open dis use {Input, set_input_buffer, disassemble, input_skip}

  -- The loop of TdAnalyzeDissasembledInstructions; `none` means that the fuel ran out.
  pub analyze_loop : ℕ → Input → Flags → Option Flags
  analyze_loop zero s flags = none
  analyze_loop (suc fuel) s flags = elim (disassemble s) [
    | none ↦ some flags
    | some (i, s') ↦
        let skipped = analyze_loop fuel (input_skip s' i.uqword0) flags in
        let next = analyze_loop fuel s' (analyze_instruction flags i) in
        if follows_forward_jump i
        then skipped
        else (if i.is_invalid then some (analyze_instruction flags i) else next)
  ]

  -- TdAnalyzeDissasembledInstructions on a buffer, with a round for each byte and one more.
  pub analyze_disassembled_instructions : List ℕ → Flags → Option Flags
  analyze_disassembled_instructions code flags =
      analyze_loop (suc (length code)) (set_input_buffer code) flags

abbrev pub page_size : ℕ
page_size = 4096

-- BYTE_OFFSET and PAGE_ALIGN
abbrev pub byte_offset : ℕ → ℕ
byte_offset a = a % page_size

abbrev pub page_align : ℕ → ℕ
page_align a = a - a % page_size

-- A mapped guest page: its bytes by offset.
abbrev pub Page : Type 0
Page = ℕ → ℕ

-- The `n` bytes of a page from an offset on.
pub page_bytes : Page → ℕ → ℕ → List ℕ
page_bytes p o zero = []
page_bytes p o (suc n) = p o ∷ page_bytes p (o + 1) n

-- RtlCopyMemory to the start of Report->Code, an array of `sibling_distance_limit` bytes; `none`
-- is a write past its end.
pub copy_code : List ℕ → Page → ℕ → ℕ → Option (List ℕ)
copy_code code p o n =
    if ltb sibling_distance_limit n then none else some (page_bytes p o n ++ drop n code)

-- How TdCopySiblingMemory ends: a write past the buffer, FALSE, or TRUE with the code and its
-- size.
pub data Copied : Type 0 where
  overflow : Copied
  failed : Copied
  copied : List ℕ → ℕ → Copied

-- `map_page` is TdMapAddress on the page of an address: `none` when it cannot be mapped.
pub copy_sibling_memory : (map_page : ℕ → Option Page) → TscEntry → List ℕ → Copied
copy_sibling_memory map_page e code =
    let before = e.before.address in
    let after = e.after.address in
    let distance = sub64 after before in
    elim (map_page (page_align before)) [
      | none ↦ failed
      | some start ↦
          if page_align before == page_align after
          then elim (copy_code code start (byte_offset before) distance) [
            | none ↦ overflow
            | some code' ↦ copied code' distance
          ]
          else elim (map_page (page_align after)) [
            | none ↦ failed
            | some end_ ↦
                elim (copy_code code start (byte_offset before)
                  (sub64 distance (byte_offset after))) [
                    | none ↦ overflow
                    | some code' ↦ elim (copy_code code' end_ 0 (byte_offset after)) [
                      | none ↦ overflow
                      | some code'' ↦ copied code'' distance
                    ]
                  ]
          ]
    ]

-- What TdIsTimingAttack leaves in a TSC_REPORT that was zeroed: the first CodeSize bytes of Code, and
-- the flags.
pub record TscReport : Type 0 where
  pub code : List ℕ
  pub flags : Flags

-- How TdIsTimingAttack ends: a write past the buffer, or the answer and the report.
pub data Verdict : Type 0 where
  corrupted : Verdict
  attack : Bool → TscReport → Verdict

-- The last line of TdIsTimingAttack.
abbrev pub is_attack : Flags → Bool
is_attack f = not f.instructions_invalid && f.memory_references
