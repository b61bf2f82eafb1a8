-- ===== src/Exclusion/Tests.antt =====
-- src/process.c: an exclusion list with one thread.
use deepshield.Prelude.{
  ℕ, ◌+◌, ◌≡◌, ◌⊎◌, inl, inr, refl, sym, Option, none, some, List, [], ◌∷◌, arith,
}
use deepshield.Nt.{NtStatus, success, no_memory}
use deepshield.IdxList.{IdxListNode}
use deepshield.IdxList.Tests.{one_node, size_initialize}
use deepshield.Exclusion.{
  PmExclusionEntry, PmExclusionTable, initialize_thread_exclusion_list, exclude_thread,
  is_thread_excluded, cleanup_thread_exclusion_list,
}
use deepshield.Exclusion.Walk.{IsExclusionList, threads, any_equal, is_thread_excluded_lem}
use deepshield.Exclusion.Change.{
  initialize_thread_exclusion_list-IsExclusionList, Excludes, exclude_thread_lem, blocks,
  cleanup_thread_exclusion_list_lem,
}

abbrev blank : ℕ → PmExclusionEntry
blank a = record { thread = 0; unique_id = 0 }

abbrev lookup : ℕ → NtStatus × ℕ
lookup i = (success, i + 500)

abbrev first : PmExclusionTable
first = initialize_thread_exclusion_list blank

first_size : first.table.size ≡ 0
unfolding initialize_thread_exclusion_list
first_size = size_initialize

exclude_thread_lem_example :
    let result = exclude_thread (some 4096) none lookup first 12 in
    Excludes result first [] success 512
    ⊎ ((◌≡◌ {A = Option (ℕ → IdxListNode)} none none)
        × (result.0 ≡ no_memory)
        × IsExclusionList result.1 [] []
        × (threads result.1 [] ≡ threads first [])
        × (result.2 ≡ 4096 ∷ []))
exclude_thread_lem_example =
    exclude_thread_lem 4096 none lookup 12 (initialize_thread_exclusion_list-IsExclusionList blank)
      (omega arith) (λ i m. elim m [ ]) (omega (arith, first_size)) refl

-- The table with one node, and an entry for the thread 500.
abbrev one_thread : PmExclusionTable
one_thread = record {
  table = one_node.0;
  entries = λ a. record { thread = 500; unique_id = one_node.1 };
}

one_thread-IsExclusionList : IsExclusionList one_thread (one_node.1 ∷ []) one_node.2
one_thread-IsExclusionList = record {
  table = one_node.3;
  ids = λ i m. elim m [ inl e ↦ sym e | inr n ↦ elim n [ ] ];
}

is_thread_excluded_lem_example :
    is_thread_excluded 2 one_thread 500
    ≡ some (any_equal 500 (threads one_thread (one_node.1 ∷ [])))
is_thread_excluded_lem_example =
    is_thread_excluded_lem 500 2 one_thread-IsExclusionList (omega arith)

cleanup_thread_exclusion_list_lem_example :
    (l' : PmExclusionTable) × (free' : List ℕ) × (cleanup_thread_exclusion_list 2 one_thread
      ≡ some (blocks one_thread (one_node.1 ∷ []), l'))
    × IsExclusionList l' [] free'
cleanup_thread_exclusion_list_lem_example =
    cleanup_thread_exclusion_list_lem 2 one_thread-IsExclusionList (omega arith)
