-- ===== src/Mm/Outcome.antt =====
-- What holds of both outcomes of `vm_map_page`.
use lab.Alloc.{Heap, Status, success, failure}
use lab.Mm.{leaf_entry}
use lab.Mm.SetLeaf.{MapsWith, page_mapping}
use lab.Mm.Translate.{other_page}
use lab.Mm.Ensure.{IsVmTo}
use lab.Pgtable.{va_get_index}
use lab.Pgtable.Laws.{IsCanonical, va_get_index-lt}
use lab.Prelude.{ℕ, ◌+◌, ◌/◌, ◌≤◌, ◌≡◌, ◌≢◌, some, List, length}

-- What a call leaves is intact, and holds the page where it was made.
pub MapsWith-IsVm :
    (end : ℕ) (reserved : List ℕ) (root va pa perm : ℕ) (h : Heap) (free : List ℕ)
    (r : Status × Heap)
    → MapsWith end reserved root va pa perm h free r
    → (free' : List ℕ) × IsVmTo end reserved root r.1 free'
MapsWith-IsVm end reserved root va pa perm h free (success, h') spec = (spec.0, spec.1)
MapsWith-IsVm end reserved root va pa perm h free (failure, h') spec = (spec.0, spec.1)

pub MapsWith-mapped :
    (end : ℕ) (reserved : List ℕ) (root va pa perm : ℕ) (h : Heap) (free : List ℕ)
    (r : Status × Heap)
    → MapsWith end reserved root va pa perm h free r
    → r.0 ≡ success
    → page_mapping r.1.mem root va ≡ some (leaf_entry pa perm)
MapsWith-mapped end reserved root va pa perm h free (success, h') spec e = spec.3
MapsWith-mapped end reserved root va pa perm h free (failure, h') spec e = cc e

-- Other pages are mapped as before, whatever the result.
pub MapsWith-others :
    (end : ℕ) (reserved : List ℕ) (root va pa perm : ℕ) (h : Heap) (free : List ℕ)
    (r : Status × Heap) (x : ℕ)
    → MapsWith end reserved root va pa perm h free r
    → IsCanonical va
    → IsCanonical x
    → va / 4096 ≢ x / 4096
    → page_mapping r.1.mem root x ≡ page_mapping h.mem root x
MapsWith-others end reserved root va pa perm h free (success, h') x spec c c' ne =
    spec.4 (va_get_index x 2) (va_get_index x 1) (va_get_index x 0) (va_get_index-lt x 2)
      (va_get_index-lt x 1) (va_get_index-lt x 0) (other_page va x c c' ne)
MapsWith-others end reserved root va pa perm h free (failure, h') x spec c c' ne =
    spec.2 (va_get_index x 2) (va_get_index x 1) (va_get_index x 0) (va_get_index-lt x 2)
      (va_get_index-lt x 1) (va_get_index-lt x 0)

-- A successful call takes two pages at most.
pub MapsWith-used :
    (end : ℕ) (reserved : List ℕ) (root va pa perm : ℕ) (h : Heap) (free : List ℕ)
    (r : Status × Heap) (spec : MapsWith end reserved root va pa perm h free r)
    → r.0 ≡ success
    → length free ≤ 2 + length (MapsWith-IsVm end reserved root va pa perm h free r spec).0
unfolding MapsWith-IsVm
MapsWith-used end reserved root va pa perm h free (success, h') spec e = spec.5
MapsWith-used end reserved root va pa perm h free (failure, h') spec e = cc e
