-- ===== src/Index/Listing.antt =====
-- The order of a listing, and what it lists after a rebuilding.
use mathlib.Core.List.{Perm}
use apohara_sealchain.Prelude.Sorting.{
  text_leb, text_leb_total, text_leb_trans, sort_by-perm, sort_by-IsSorted, IsSorted,
}
use apohara_sealchain.Prelude.{◌&&◌, not, Bool, ◌≡◌, true, ◌||◌, arith, List}
use apohara_sealchain.Index.{IndexRecord}
use apohara_sealchain.Index.Store.{Table, listed_before, index_list}

listed_before_total : (a b : IndexRecord) → (listed_before a b || listed_before b a) ≡ true
unfolding listed_before
listed_before_total a b =
    ground
      (arith, text_leb_total a.sealed_at b.sealed_at, text_leb_total a.receipt_path b.receipt_path)

listed_before_trans :
    (a b d : IndexRecord)
    → listed_before a b ≡ true
    → listed_before b d ≡ true
    → listed_before a d ≡ true
unfolding listed_before
listed_before_trans a b d h k = ground (
  arith,
  text_leb_trans d.sealed_at b.sealed_at a.sealed_at,
  text_leb_trans b.sealed_at a.sealed_at d.sealed_at,
  text_leb_trans a.sealed_at d.sealed_at b.sealed_at,
  text_leb_trans a.receipt_path b.receipt_path d.receipt_path,
)

-- A listing has every row of the table once, and no row stands after one that was sealed earlier, or at
-- the same time with a later receipt path.
pub index_list-IsSorted :
    (t : Table) → IsSorted listed_before (index_list t) × Perm (index_list t) t
unfolding index_list
index_list-IsSorted t = (
  sort_by-IsSorted listed_before listed_before_total listed_before_trans t,
  sort_by-perm listed_before t,
)

-- A row comes no later than another: it was sealed after it, or at the same time, and then its receipt
-- path is not greater.
abbrev pub is_latest_first : IndexRecord → IndexRecord → Bool
is_latest_first a b =
    text_leb b.sealed_at a.sealed_at
    && (not (text_leb a.sealed_at b.sealed_at) || text_leb a.receipt_path b.receipt_path)
