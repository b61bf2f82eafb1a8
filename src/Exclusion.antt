-- ===== src/Exclusion.antt =====
-- src/process.c: the threads of a process that are exempt from time-stamp analysis, an index list
-- of pool blocks. The lock that every function holds makes each of them one step.
pub mod Walk
pub mod Change
mod Tests
use deepshield.Prelude.{
  ℕ, zero, suc, ◌%◌, Bool, true, false, Option, none, some, List, [], ◌∷◌, ◌==◌, if◌then◌else◌,
  word32,
}
use deepshield.Nt.{NtStatus, success, no_memory, nt_success}
use deepshield.IdxList.{
  IdxListNode, IdxListTable, initialize_idx_list, get_node_count_idx_list, get_head_node_idx_list,
  get_next_node_idx_list, insert_head_idx_list, remove_head_idx_list,
}

-- PM_EXCLUSION_ENTRY
pub record PmExclusionEntry : Type 0 where
  pub thread : ℕ
  pub unique_id : ℕ

-- PM_EXCLUSION_TABLE, with the pool blocks that the data of the nodes are addresses of.
pub record PmExclusionTable : Type 0 where
  pub table : IdxListTable
  pub entries : ℕ → PmExclusionEntry

pub set_entry : (ℕ → PmExclusionEntry) → ℕ → PmExclusionEntry → ℕ → PmExclusionEntry
set_entry entries a e b = if a == b then e else entries b

-- PmInitializeThreadExclusionList
pub initialize_thread_exclusion_list : (ℕ → PmExclusionEntry) → PmExclusionTable
initialize_thread_exclusion_list entries = record { table = initialize_idx_list; entries = entries }

-- PmExcludeThread. `exclusion` and `nodes` are what the pool hands over for the entry and for
-- more nodes, `lookup` is PsLookupThreadByThreadId: a status and a thread. The result is the status,
-- the list and the blocks that are freed.
pub exclude_thread :
    (exclusion : Option ℕ) (nodes : Option (ℕ → IdxListNode)) (lookup : ℕ → NtStatus × ℕ)
    → PmExclusionTable
    → ℕ
    → NtStatus × PmExclusionTable × List ℕ
exclude_thread none nodes lookup l thread_id = (no_memory, l, [])
exclude_thread (some exclusion) nodes lookup l thread_id =
    let (status, thread) = lookup (thread_id % word32) in
    let entry = record (l.entries exclusion) { thread = thread } in
    let (idx, table') = insert_head_idx_list nodes l.table exclusion in
    if nt_success status
    then (
      if idx == 0 then no_memory else status,
      record {
        table = table';
        entries = set_entry l.entries exclusion (record entry { unique_id = idx });
      },
      if idx == 0 then exclusion ∷ [] else [],
    )
    else (status, l, exclusion ∷ [])

-- The loop of PmIsThreadExcluded from an entry on; `none` means that the fuel ran out.
pub find_thread : ℕ → PmExclusionTable → ℕ → ℕ → Option Bool
find_thread zero l current thread = none
find_thread (suc fuel) l current thread =
    let rest =
      find_thread fuel l (get_next_node_idx_list l.table (l.entries current).unique_id) thread in
    if current == 0
    then some false
    else (if (l.entries current).thread == thread then some true else rest)

-- PmIsThreadExcluded
pub is_thread_excluded : ℕ → PmExclusionTable → ℕ → Option Bool
is_thread_excluded fuel l thread = find_thread fuel l (get_head_node_idx_list l.table) thread

-- The loop of PmCleanupThreadExclusionList: the addresses that are freed, and the list.
pub cleanup_thread_exclusion_list : ℕ → PmExclusionTable → Option (List ℕ × PmExclusionTable)
cleanup_thread_exclusion_list zero l = none
cleanup_thread_exclusion_list (suc fuel) l =
    let (removed, table') = remove_head_idx_list l.table in
    let rest = cleanup_thread_exclusion_list fuel (record l { table = table' }) in
    if get_node_count_idx_list l.table == 0 then some ([], l) else elim rest [
      | none ↦ none
      | some (freed, l') ↦ some (if removed == 0 then freed else removed ∷ freed, l')
    ]
