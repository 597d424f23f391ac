-- ===== src/Reconcile/Cluster.antt =====
-- Clusters of rows that were executed together (tt_ledger/ingest/reconcile.py, `_cluster_by_time`).
use tt_ledger.Base.{
  ℕ, ◌-◌, Bool, not, List, [], ◌∷◌, ◌++◌, leb, is_some, select, sorted, get_or_else, if◌then◌else◌,
}
use tt_ledger.Rows.{ActivityRow}
use tt_ledger.Rows.Units.{Instant, seconds}

-- `_GROUP_TOLERANCE`
abbrev pub group_tolerance : ℕ
group_tolerance = seconds 5

abbrev pub time_of : ActivityRow → Instant
time_of row = get_or_else row.executed_at 0

-- The row executed at most the tolerance after the one before it.
unfoldable pub follows : ActivityRow → ActivityRow → Bool
follows last row = leb (time_of row - time_of last) group_tolerance

-- the loop, with the open cluster as its earlier rows and its last one
unfoldable pub split_from :
    List ActivityRow → ActivityRow → List ActivityRow → List (List ActivityRow)
split_from init last [] = (init ++ last ∷ []) ∷ []
split_from init last (row ∷ rows) =
    let extended = split_from (init ++ last ∷ []) row rows in
    let fresh = (init ++ last ∷ []) ∷ split_from [] row rows in
    if follows last row then extended else fresh

unfoldable pub clusters_of : List ActivityRow → List (List ActivityRow)
clusters_of [] = []
clusters_of (row ∷ rows) = split_from [] row rows

-- one cluster for each row
unfoldable pub singletons : List ActivityRow → List (List ActivityRow)
singletons [] = []
singletons (row ∷ rows) = (row ∷ []) ∷ singletons rows

abbrev pub is_dated : ActivityRow → Bool
is_dated row = is_some row.executed_at

unfoldable pub dated_rows : List ActivityRow → List ActivityRow
dated_rows rows = sorted (λ a b. leb (time_of a) (time_of b)) (select is_dated rows)

unfoldable pub cluster_by_time : List ActivityRow → List (List ActivityRow)
unfolding dated_rows clusters_of singletons
cluster_by_time rows =
    clusters_of (dated_rows rows) ++ singletons (select (λ r. not (is_dated r)) rows)
