-- ===== src/Tsc/Analysis/Loop.antt =====
-- The loop of TdAnalyzeDissasembledInstructions in src/tsc.c: it ends, and what its flags say of
-- the instructions it looks at.
use deepshield.Prelude.{
  ℕ, zero, suc, ◌<◌, ◌≡◌, inl, inr, refl, ap, sym, ◌∙◌, Bool, true, false, not, ◌&&◌, ◌||◌,
  Bool-cases, none, some, Option-cases, List, [], ◌∷◌, length, arith,
}
use deepshield.Tsc.Analysis.{
  Instruction, Disassembler, Flags, no_flags, follows_forward_jump, reads_memory,
  analyze_instruction, analyze_loop, analyze_disassembled_instructions, is_attack,
}

-- Whether an instruction of the list is not understood, and whether one reads memory.
abbrev pub any_invalid : List Instruction → Bool
any_invalid [] = false
any_invalid (i ∷ is) = i.is_invalid || any_invalid is

abbrev pub any_reads_memory : List Instruction → Bool
any_reads_memory [] = false
any_reads_memory (i ∷ is) = reads_memory i || any_reads_memory is

abbrev merge : Flags → List Instruction → Flags
merge f is = record {
  memory_references = f.memory_references || any_reads_memory is;
  instructions_invalid = f.instructions_invalid || any_invalid is;
}

merge-[] : (f : Flags) → merge f [] ≡ f
merge-[] f = ground arith

merge-∷ :
    (f : Flags) (i : Instruction) (is : List Instruction)
    → merge (analyze_instruction f i) is ≡ merge f (i ∷ is)
merge-∷ f i is = ground arith

module _ (dis : Disassembler) where
  open dis use {Input, set_input_buffer, disassemble, input_skip, remaining}

  -- The instructions analysed from a position of the input on: up to the first invalid one or to
  -- the end, where a forward jump is not analysed but followed.
  pub data Analysed : Input → List Instruction → Type 0 where
    at_end : {s : Input} → disassemble s ≡ none → Analysed s []
    at_jump :
        {s s' : Input} {i : Instruction} {is : List Instruction}
        → disassemble s ≡ some (i, s')
        → follows_forward_jump i ≡ true
        → Analysed (input_skip s' i.uqword0) is
        → Analysed s is
    at_invalid :
        {s s' : Input} {i : Instruction}
        → disassemble s ≡ some (i, s')
        → follows_forward_jump i ≡ false
        → i.is_invalid ≡ true
        → Analysed s (i ∷ [])
    at_valid :
        {s s' : Input} {i : Instruction} {is : List Instruction}
        → disassemble s ≡ some (i, s')
        → follows_forward_jump i ≡ false
        → i.is_invalid ≡ false
        → Analysed s' is
        → Analysed s (i ∷ is)

  analyze_loop_lem :
      (fuel : ℕ) (s : Input) (f : Flags)
      → remaining s < fuel
      → (is : List Instruction) × Analysed s is × (analyze_loop dis fuel s f ≡ some (merge f is))
  unfolding analyze_loop
  analyze_loop_lem zero s f lt = absurd (omega arith)
  analyze_loop_lem (suc fuel) s f lt = elim (Option-cases (disassemble s)) [
    | inl e ↦ ([], at_end e, rw (analyze_loop, e, merge-[] f) refl)
    | inr ((i, s'), e) ↦
        let less = dis.remaining-disassemble s s' i e in
        elim (Bool-cases (follows_forward_jump i)) [
          | inl j ↦
              let (is, a, r) =
                analyze_loop_lem fuel (input_skip s' i.uqword0) f
                  (omega (arith, less, dis.remaining-input_skip s' i.uqword0)) in
              (is, at_jump e j a, rw (analyze_loop, e, j) r)
          | inr n ↦ elim (Bool-cases i.is_invalid) [
            | inl y ↦ (
              i ∷ [],
              at_invalid e n y,
              let step : analyze_loop dis (suc fuel) s f ≡ some (analyze_instruction f i) =
                    rw (analyze_loop, e, n, y) refl in
                  step
                  ∙ ap (λ (g : Flags). some g)
                      (sym (merge-[] (analyze_instruction f i)) ∙ merge-∷ f i []),
            )
            | inr v ↦
                let (is, a, r) =
                  analyze_loop_lem fuel s' (analyze_instruction f i) (omega (arith, less)) in
                (
                  i ∷ is,
                  at_valid e n v a,
                  let step : analyze_loop dis (suc fuel) s f
                          ≡ analyze_loop dis fuel s' (analyze_instruction f i) =
                        rw (analyze_loop, e, n, v) refl in
                      step ∙ r ∙ ap (λ (g : Flags). some g) (merge-∷ f i is),
                )
          ]
        ]
  ]

  -- The loop ends on every buffer. Its flags make TdIsTimingAttack answer TRUE exactly when all
  -- the instructions it analyses are valid and one of them reads memory.
  pub analyze_disassembled_instructions_lem :
      (code : List ℕ)
      → (is : List Instruction) × (f : Flags) × Analysed (set_input_buffer code) is
        × (analyze_disassembled_instructions dis code no_flags ≡ some f)
        × (is_attack f ≡ (not (any_invalid is) && any_reads_memory is))
  unfolding analyze_disassembled_instructions
  analyze_disassembled_instructions_lem code =
      let (is, a, r) =
        analyze_loop_lem (suc (length code)) (set_input_buffer code) no_flags
          (omega (arith, dis.remaining-set_input_buffer code)) in
      (is, merge no_flags is, a, r, refl)
