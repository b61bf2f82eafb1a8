-- ===== src/Tsc/Event.antt =====
-- src/tsc.c: TdIsTimingAttack and TdProcessTscEvent.
pub mod Step
pub mod Run
use deepshield.Prelude.{
  ℕ, zero, suc, ◌+◌, ◌-◌, ◌*◌, ◌/◌, ◌%◌, ◌^◌, Bool, true, false, Option, none, some, List, [], ◌∷◌,
  ◌++◌, length, take, set, get_or, replicate, if◌then◌else◌, word, word32,
}
use Prim.Native.Nat.{bit_or}
use deepshield.Tsc.{
  TscEntry, cleared, sibling_distance_limit, find_sibling, update_sibling, create_sibling,
  is_timing_candidate,
}
use deepshield.Tsc.Analysis.{
  Disassembler, no_flags, analyze_disassembled_instructions, Page, Copied, overflow, failed, copied,
  copy_sibling_memory, Verdict, corrupted, attack, is_attack, TscReport,
}

-- What the event leaves for the rest of the system: calls of HvmTrimTsdForQuantum( FALSE ), the
-- traces and the notifications TimerAbuse and TimerFalsePositive posted to the mailbox, with the
-- entry, the code and the flags of the report. The post of a notification is taken to succeed, as it
-- does for a message of this size (Mailbox.Delivery), so that the trace of a failed post is left out.
pub data Effect : Type 0 where
  trim_tsd : Effect
  trace_attack_found : (process_id : ℕ) → Effect
  trace_candidate_excluded : (process_id thread_id : ℕ) → Effect
  notify_attack : (process_id thread_id : ℕ) (tsc : TscEntry) (report : TscReport) → Effect
  notify_false_positive : (process_id thread_id : ℕ) (tsc : TscEntry) (report : TscReport) → Effect

-- The outcome of TdProcessTscEvent: memory corruption, or the answer, the table and the effects.
pub data Outcome : Type 0 where
  crash : Outcome
  done : Bool → List TscEntry → List Effect → Outcome

-- The PID:TID hash; TSC_HASH_BITS_HIGH is 32.
abbrev pub tsc_hash_of : ℕ → ℕ → ℕ
tsc_hash_of process_id thread_id = bit_or (process_id * 2 ^ 32 % word) thread_id

-- An exit on RDTSC or RDTSCP: the current process and thread, the address and the time stamp.
pub record TscEvent : Type 0 where
  pub process_id : ℕ
  pub thread_id : ℕ
  pub address : ℕ
  pub time_stamp : ℕ

module _ (dis : Disassembler) (map_page : ℕ → Option Page) where
  -- TdIsTimingAttack on a zeroed report. The disassembler reads the copied bytes alone.
  pub is_timing_attack : TscEntry → Verdict
  is_timing_attack e = elim (copy_sibling_memory map_page e (replicate sibling_distance_limit 0)) [
    | overflow ↦ corrupted
    | failed ↦ attack false (record { code = []; flags = no_flags })
    | copied code code_size ↦
        elim (analyze_disassembled_instructions dis (take code_size code) no_flags) [
          | none ↦ corrupted
          | some flags ↦
              attack (is_attack flags) (record { code = take code_size code; flags = flags })
        ]
  ]

  -- The last part of TdProcessTscEvent, for the sibling at index `i` that is a candidate.
  pub report_candidate : ℕ → ℕ → List TscEntry → ℕ → Verdict → Outcome
  report_candidate process_id thread_id head i corrupted = crash
  report_candidate process_id thread_id head i (attack true report) =
      done true (set head i cleared) (
        trace_attack_found process_id
        ∷ notify_attack process_id thread_id (get_or head i cleared) report
        ∷ [])
  report_candidate process_id thread_id head i (attack false report) =
      done false (set head i cleared) (
        trim_tsd
        ∷ trace_candidate_excluded process_id thread_id
        ∷ notify_false_positive process_id thread_id (get_or head i cleared) report
        ∷ [])

  -- TdProcessTscEvent once the sibling at index `i` has been updated or created.
  pub assess : ℕ → ℕ → List TscEntry → ℕ → Outcome
  assess process_id thread_id head i =
      let a = is_timing_candidate (get_or head i cleared) in
      let head' = set head i a.sibling in
      let verdict = is_timing_attack a.sibling in
      if a.candidate
      then report_candidate process_id thread_id head' i verdict
      else done false head' (if a.trimmed then trim_tsd ∷ [] else [])

  -- TdProcessTscEvent; a null dereference counts as a crash.
  pub process_tsc_event : ℕ → ℕ → List TscEntry → ℕ → ℕ → Outcome
  process_tsc_event process_id thread_id head address time_stamp =
      let hash = tsc_hash_of process_id thread_id in
      elim (find_sibling head 0 hash address) [
        | some i ↦ elim (update_sibling (get_or head i cleared) address time_stamp) [
          | none ↦ crash
          | some e ↦ assess process_id thread_id (set head i e) i
        ]
        | none ↦ elim (create_sibling head address hash time_stamp) [
          | none ↦ crash
          | some (i, head') ↦ assess process_id thread_id head' i
        ]
      ]

  -- The events of a processor one after the other, with the answers; `none` after a crash.
  pub process_tsc_events : List TscEvent → List TscEntry → Option (List Bool × List TscEntry)
  process_tsc_events [] head = some ([], head)
  process_tsc_events (ev ∷ evs) head =
      elim (process_tsc_event ev.process_id ev.thread_id head ev.address ev.time_stamp) [
        | crash ↦ none
        | done b head' _ ↦ elim (process_tsc_events evs head') [
          | none ↦ none
          | some (bs, head'') ↦ some (b ∷ bs, head'')
        ]
      ]
