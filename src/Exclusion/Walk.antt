-- ===== src/Exclusion/Walk.antt =====
-- The walk of PmIsThreadExcluded in src/process.c.
use deepshield.Prelude.{
  Member, ℕ, zero, suc, ◌<◌, ◌≡◌, ◌∙◌, inl, inr, refl, ap, Bool, false, ◌||◌, Bool-cases, some,
  List, [], ◌∷◌, length, ◌==◌, arith,
}
use deepshield.IdxList.{get_next_node_idx_list}
use deepshield.IdxList.Chain.{Links}
use deepshield.IdxList.Unlink.{IsTable}
use deepshield.IdxList.Lookup.{get_next_node_idx_list_in, get_head_node_idx_list_in}
use deepshield.Exclusion.{PmExclusionTable, find_thread, is_thread_excluded}

-- A table whose entries know the index of their node.
pub record IsExclusionList (l : PmExclusionTable) (used free : List ℕ) : Type 0 where
  pub table : IsTable l.table used free
  pub ids : (i : ℕ) → Member i used → (l.entries (l.table.node_list i).data_).unique_id ≡ i

-- The thread that a node in use stands for, and the threads of the list.
abbrev pub thread_at : PmExclusionTable → ℕ → ℕ
thread_at l i = (l.entries (l.table.node_list i).data_).thread

abbrev pub threads : PmExclusionTable → List ℕ → List ℕ
threads l [] = []
threads l (i ∷ is) = thread_at l i ∷ threads l is

abbrev pub any_equal : ℕ → List ℕ → Bool
any_equal x [] = false
any_equal x (y ∷ ys) = (y == x) || any_equal x ys

-- The walk along the nodes that follow node `p`.
walk :
    (l : PmExclusionTable) (used free : List ℕ) (thread fuel p : ℕ) (xs : List ℕ)
    → IsExclusionList l used free
    → Links l.table.node_list p xs
    → ((i : ℕ) → Member i xs → Member i used)
    → length xs < fuel
    → find_thread fuel l (l.table.node_list (l.table.node_list p).fidx).data_ thread
      ≡ some (any_equal thread (threads l xs))
unfolding find_thread
walk l used free thread zero p xs v links sub lt = absurd (omega arith)
walk l used free thread (suc fuel) p [] v (e, _) sub lt =
    let none_ : (l.table.node_list (l.table.node_list p).fidx).data_ ≡ 0 =
      ap (λ (k : ℕ). (l.table.node_list k).data_) e ∙ v.table.head_data in
    rw (find_thread, none_) refl
walk l used free thread (suc fuel) p (x ∷ xs) v (e, _, rest) sub lt =
    let (_, small) = v.table.used_in x (sub x (inl refl)) in
    let set_ : ((l.table.node_list x).data_ == 0) ≡ false =
      let n = v.table.used_data x (sub x (inl refl)) in ground arith in
    let next =
      ap (λ (k : ℕ). get_next_node_idx_list l.table k) (v.ids x (sub x (inl refl)))
      ∙ get_next_node_idx_list_in l.table x small in
    let ih = walk l used free thread fuel x xs v rest (λ i m. sub i (inr m)) (omega arith) in
    elim (Bool-cases (thread_at l x == thread)) [
      | inl y ↦ rw (find_thread, e, set_, y) refl
      | inr z ↦ rw (find_thread, e, set_, z, next) ih
    ]

-- PmIsThreadExcluded answers whether one of the entries of the list is for the thread; its walk
-- ends after one round more than there are entries.
pub is_thread_excluded_lem :
    {l : PmExclusionTable} {used free : List ℕ} (thread fuel : ℕ)
    → IsExclusionList l used free
    → length used < fuel
    → is_thread_excluded fuel l thread ≡ some (any_equal thread (threads l used))
unfolding is_thread_excluded
is_thread_excluded_lem {l} {used} {free} thread fuel v lt =
    rw (get_head_node_idx_list_in v.table)
      (walk l used free thread fuel 0 used v v.table.links (λ i m. m) lt)
