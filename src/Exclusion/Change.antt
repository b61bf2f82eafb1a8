-- ===== src/Exclusion/Change.antt =====
-- PmExcludeThread and PmCleanupThreadExclusionList of src/process.c.
use deepshield.Prelude.{
  Member, ℕ, zero, suc, ◌+◌, ◌<◌, ◌≡◌, ◌≢◌, ◌∙◌, ◌⊎◌, inl, inr, refl, sym, ap, true, false, Option,
  none, some, List, [], ◌∷◌, length, ◌==◌, ◌%◌, arith, word32,
}
use mathlib.Core.Path.{subst, ap₂}
use deepshield.Nt.{NtStatus, no_memory, nt_success}
use deepshield.IdxList.{
  IdxListNode, IdxListTable, extension, get_node_count_idx_list, remove_head_idx_list,
}
use deepshield.IdxList.Remove.{remove_head_idx_list_lem}
use deepshield.IdxList.Lookup.{get_node_count_idx_list_lem}
use deepshield.IdxList.InsertHead.{initialize_idx_list-IsTable, insert_head_idx_list_lem}
use deepshield.Exclusion.{
  PmExclusionEntry, PmExclusionTable, set_entry, exclude_thread, initialize_thread_exclusion_list,
  cleanup_thread_exclusion_list,
}
use deepshield.Exclusion.Walk.{IsExclusionList, thread_at, threads}

set_entry_self :
    (entries : ℕ → PmExclusionEntry) (a : ℕ) (e : PmExclusionEntry) → set_entry entries a e a ≡ e
unfolding set_entry
set_entry_self entries a e = ground arith

set_entry_ne :
    (entries : ℕ → PmExclusionEntry) (a b : ℕ) (e : PmExclusionEntry)
    → b ≢ a
    → set_entry entries a e b ≡ entries b
unfolding set_entry
set_entry_ne entries a b e h = ground arith

-- The list of threads depends on the entries of the nodes in use alone.
threads-same :
    (l l' : PmExclusionTable) (xs : List ℕ)
    → ((i : ℕ) → Member i xs → thread_at l' i ≡ thread_at l i)
    → threads l' xs ≡ threads l xs
threads-same l l' [] same = refl
threads-same l l' (x ∷ xs) same =
    ap₂ (λ (a : ℕ) (rest : List ℕ). a ∷ rest) (same x (inl refl))
      (threads-same l l' xs (λ i m. same i (inr m)))

pub initialize_thread_exclusion_list-IsExclusionList :
    (entries : ℕ → PmExclusionEntry)
    → IsExclusionList (initialize_thread_exclusion_list entries) [] []
unfolding initialize_thread_exclusion_list
initialize_thread_exclusion_list-IsExclusionList entries = record {
  table = initialize_idx_list-IsTable;
  ids = λ i m. elim m [ ];
}

-- The list with one entry more, for the thread.
abbrev pub Excludes :
    NtStatus × PmExclusionTable × List ℕ → PmExclusionTable → List ℕ → NtStatus → ℕ → Type 0
Excludes result l used status thread =
    (idx : ℕ) × (free' : List ℕ) × (l' : PmExclusionTable) × (result ≡ (status, l', []))
    × IsExclusionList l' (idx ∷ used) free'
    × (threads l' (idx ∷ used) ≡ thread ∷ threads l used)

-- PmExcludeThread, when the pool hands over a block that is not one of the entries and the thread
-- is found, puts an entry for the thread before the others. Without memory for its node it
-- answers STATUS_NO_MEMORY and frees the block, and the threads of the list stay as they were.
pub exclude_thread_lem :
    {l : PmExclusionTable} {used free : List ℕ} (exclusion : ℕ) (nodes : Option (ℕ → IdxListNode))
    (lookup : ℕ → NtStatus × ℕ) (thread_id : ℕ)
    → IsExclusionList l used free
    → exclusion ≢ 0
    → ((i : ℕ) → Member i used → (l.table.node_list i).data_ ≢ exclusion)
    → l.table.size + extension < word32
    → nt_success (lookup (thread_id % word32)).0 ≡ true
    → let result = exclude_thread (some exclusion) nodes lookup l thread_id in
      Excludes result l used (lookup (thread_id % word32)).0 (lookup (thread_id % word32)).1
      ⊎ ((nodes ≡ none)
          × (result.0 ≡ no_memory)
          × IsExclusionList result.1 used free
          × (threads result.1 used ≡ threads l used)
          × (result.2 ≡ exclusion ∷ []))
unfolding exclude_thread
exclude_thread_lem {l} {used} {free} exclusion nodes lookup thread_id v nz fresh fits found =
    let status = (lookup (thread_id % word32)).0 in
    let thread = (lookup (thread_id % word32)).1 in
    let kept : (idx : ℕ) (i : ℕ)
        → Member i used
        → set_entry l.entries exclusion (record { thread = thread; unique_id = idx })
            (l.table.node_list i).data_
          ≡ l.entries (l.table.node_list i).data_ =
      λ idx i m. set_entry_ne l.entries exclusion (l.table.node_list i).data_ _ (fresh i m) in
    elim (insert_head_idx_list_lem {t = l.table} nodes exclusion v.table nz fits) [
      | inl (idx, free', t', inserted, idx_nz, unused, table, here, others) ↦
          let entry : PmExclusionEntry = record { thread = thread; unique_id = idx } in
          let entries = set_entry l.entries exclusion entry in
          let l' : PmExclusionTable = record { table = t'; entries = entries } in
          let index : (idx == 0) ≡ false = ground arith in
          let at_new : entries (t'.node_list idx).data_ ≡ entry =
            ap entries here ∙ set_entry_self l.entries exclusion entry in
          let at_old : (i : ℕ)
              → Member i used
              → entries (t'.node_list i).data_ ≡ l.entries (l.table.node_list i).data_ =
            λ i m. ap entries (others i m) ∙ kept idx i m in
          inl (
            idx,
            free',
            l',
            rw (exclude_thread, inserted, found, index) refl,
            record {
              table = table;
              ids = λ i m. elim m [
                | inl e ↦
                    ap (λ (k : ℕ). (entries (t'.node_list k).data_).unique_id) e
                    ∙ ap (λ (n : PmExclusionEntry). n.unique_id) at_new
                    ∙ sym e
                | inr k ↦ ap (λ (n : PmExclusionEntry). n.unique_id) (at_old i k) ∙ v.ids i k
              ];
            },
            ap₂ (λ (a : ℕ) (rest : List ℕ). a ∷ rest)
                (ap (λ (n : PmExclusionEntry). n.thread) at_new)
                (threads-same l l' used
                  (λ i m. ap (λ (n : PmExclusionEntry). n.thread) (at_old i m))),
          )
      | inr (_, no_nodes, inserted) ↦
          let entry : PmExclusionEntry = record { thread = thread; unique_id = 0 } in
          let l' : PmExclusionTable = record {
            table = l.table;
            entries = set_entry l.entries exclusion entry;
          } in
          let r : exclude_thread (some exclusion) nodes lookup l thread_id
              ≡ (no_memory, l', exclusion ∷ []) =
            rw (exclude_thread, inserted, found) refl in
          let v' : IsExclusionList l' used free = record {
            table = v.table;
            ids = λ i m. ap (λ (n : PmExclusionEntry). n.unique_id) (kept 0 i m) ∙ v.ids i m;
          } in
          inr (
            no_nodes,
            ap (λ (p : NtStatus × PmExclusionTable × List ℕ). p.0) r,
            subst (λ (k : PmExclusionTable). IsExclusionList k used free)
                (sym (ap (λ (p : NtStatus × PmExclusionTable × List ℕ). p.1) r)) v',
            ap (λ (p : NtStatus × PmExclusionTable × List ℕ). threads p.1 used) r
                ∙ threads-same l l' used
                    (λ i m. ap (λ (n : PmExclusionEntry). n.thread) (kept 0 i m)),
            ap (λ (p : NtStatus × PmExclusionTable × List ℕ). p.2) r,
          )
    ]

-- The addresses of the entries.
abbrev pub blocks : PmExclusionTable → List ℕ → List ℕ
blocks l [] = []
blocks l (i ∷ is) = (l.table.node_list i).data_ ∷ blocks l is

blocks-same :
    (l l' : PmExclusionTable) (xs : List ℕ)
    → ((i : ℕ) → Member i xs → (l'.table.node_list i).data_ ≡ (l.table.node_list i).data_)
    → blocks l' xs ≡ blocks l xs
blocks-same l l' [] same = refl
blocks-same l l' (x ∷ xs) same =
    ap₂ (λ (a : ℕ) (rest : List ℕ). a ∷ rest) (same x (inl refl))
      (blocks-same l l' xs (λ i m. same i (inr m)))

-- PmCleanupThreadExclusionList frees the block of every entry, from the first to the last, and
-- leaves a list without entries; its loop ends after one round more than there are entries.
pub cleanup_thread_exclusion_list_lem :
    (fuel : ℕ) {l : PmExclusionTable} {used free : List ℕ}
    → IsExclusionList l used free
    → length used < fuel
    → (l' : PmExclusionTable) × (free' : List ℕ) × (cleanup_thread_exclusion_list fuel l
        ≡ some (blocks l used, l'))
      × IsExclusionList l' [] free'
unfolding cleanup_thread_exclusion_list
cleanup_thread_exclusion_list_lem zero v lt = absurd (omega arith)
cleanup_thread_exclusion_list_lem (suc fuel) {l} {used = []} {free} v lt =
    let done : (get_node_count_idx_list l.table == 0) ≡ true =
      rw (get_node_count_idx_list_lem v.table) refl in
    (l, free, rw (cleanup_thread_exclusion_list, done) refl, v)
cleanup_thread_exclusion_list_lem (suc fuel) {l} {used = x ∷ xs} {free} v lt =
    let (t', removed, set_, table, others) = remove_head_idx_list_lem v.table in
    let x_unused = v.table.used_distinct.0 in
    let other : (i : ℕ) → Member i xs → (t'.node_list i).data_ ≡ (l.table.node_list i).data_ =
      λ i m. others i (λ e. x_unused (subst (λ (k : ℕ). Member k xs) e m)) in
    let l1 : PmExclusionTable = record l { table = t' } in
    let v1 : IsExclusionList l1 xs (x ∷ free) = record {
      table = table;
      ids = λ i m. ap (λ (a : ℕ). (l.entries a).unique_id) (other i m) ∙ v.ids i (inr m);
    } in
    let (l', free', rest, v') =
      cleanup_thread_exclusion_list_lem fuel {l = l1} {used = xs} {free = x ∷ free} v1
        (omega arith) in
    let left : (get_node_count_idx_list l.table == 0) ≡ false =
      let c = get_node_count_idx_list_lem v.table in ground arith in
    let data_ : (remove_head_idx_list l.table).0 ≡ (l.table.node_list x).data_ =
      ap (λ (p : ℕ × IdxListTable). p.0) removed in
    let some_ : ((remove_head_idx_list l.table).0 == 0) ≡ false = ground (arith, data_) in
    (
      l',
      free',
      rw (cleanup_thread_exclusion_list, left, removed, rest, some_)
          (ap₂ (λ (b : ℕ) (bs : List ℕ). some (b ∷ bs, l')) data_ (blocks-same l l1 xs other)),
      v',
    )
