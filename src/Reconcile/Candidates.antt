-- ===== src/Reconcile/Candidates.antt =====
-- The pass over the candidates puts each of them into a group and regroups no other transaction
-- (tt_ledger/ingest/reconcile.py, `reconcile`).
use mathlib.Core.List.{flatten}
use tt_ledger.Base.{
  ℕ, String, Bool, true, false, ◌||◌, Option, none, List, [], ◌∷◌, ◌++◌, ◌≡◌, sym, inl, inr, eqb,
  if◌then◌else◌, Option-cases, arith,
}
use tt_ledger.Base.Assoc.{Assoc, lookup, id_eq, text_eq}
use tt_ledger.Rows.{ActivityRow}
use tt_ledger.Rows.Units.{Date}
use tt_ledger.Store.Memory.{InMemoryStore}
use tt_ledger.Store.Regrouped.{listed, Among, Regrouped-trans}
use tt_ledger.Reconcile.Route.{OpenGroup, route_cluster}
use tt_ledger.Reconcile.Partition.{bucket_rows, route_cluster-perm}
use tt_ledger.Reconcile.Cluster.{cluster_by_time}
use tt_ledger.Reconcile.Windows.{flatten-cluster_by_time-perm}
use tt_ledger.Reconcile.Exit.{Outside, ids_of}
use tt_ledger.Reconcile.Pending.{
  listed-append, listed-Perm, Pending-all, Pending-none, Pending-weaken, Pending-Grouped,
}
use tt_ledger.Reconcile.Landed.{
  txns_of, Lands, Lands-none, Lands-parts, Lands-same, apply_exit-Lands, open_rest-Lands,
}
use tt_ledger.Reconcile.Known.{
  HasGroup, HasGroup-append, HasGroup-replace, HasGroup-remove, Routed, route_cluster-Routed,
}
use tt_ledger.Reconcile.Grouping.{apply_intent_rows-Settles}
use tt_ledger.Reconcile.Pass.{
  Pass, find_group, apply_intent_rows, open_rest, exit_bucket, exit_buckets, route_remaining,
  reconcile_cluster, reconcile_clusters, candidates_of, group_candidates,
}

Routed-mono :
    (groups groups' : List OpenGroup) (d : Assoc ℕ (List ActivityRow))
    → ((k : ℕ) → HasGroup groups k → HasGroup groups' k)
    → Routed groups d
    → Routed groups' d
Routed-mono groups groups' [] up r = tt
Routed-mono groups groups' ((k, rows) ∷ d) up (h, fresh, r) =
    (up k h, fresh, Routed-mono groups groups' d up r)

-- one group may be gone, which no bucket names
Routed-without :
    (gone : ℕ) (groups groups' : List OpenGroup) (d : Assoc ℕ (List ActivityRow))
    → ((k : ℕ) → eqb gone k ≡ false → HasGroup groups k → HasGroup groups' k)
    → lookup gone d ≡ none
    → Routed groups d
    → Routed groups' d
unfolding lookup
Routed-without gone groups groups' [] up absent r = tt
Routed-without gone groups groups' ((k, rows) ∷ d) up absent (h, fresh, r) =
    (up k (ground arith) h, fresh, Routed-without gone groups groups' d up (ground arith) r)

HasGroup-either :
    (b : Bool) (xs ys : List OpenGroup) (k : ℕ)
    → HasGroup xs k
    → HasGroup ys k
    → HasGroup (if b then xs else ys) k
HasGroup-either true xs ys k p q = p
HasGroup-either false xs ys k p q = q

module _ (out : Outside) (new_pk : Option ℕ) (rest : List ActivityRow) where
  exit_bucket-HasGroup :
      (s : Pass) (pk : ℕ) (rows : List ActivityRow) (k : ℕ)
      → eqb pk k ≡ false
      → HasGroup s.open_groups k
      → HasGroup (exit_bucket out new_pk rest s pk rows).open_groups k
  unfolding exit_bucket
  exit_bucket-HasGroup s pk rows k other h = elim (Option-cases (find_group pk s.open_groups)) [
    | inl missing ↦ rw (missing, exit_bucket) h
    | inr (group, found) ↦
        rw (found, exit_bucket)
          (HasGroup-either _ _ _ k (HasGroup-remove s.open_groups pk k other h)
            (HasGroup-replace _ s.open_groups k h))
  ]

  exit_bucket-Lands :
      (names : List String) (s : Pass) (pk : ℕ) (rows : List ActivityRow)
      → HasGroup s.open_groups pk
      → Among (ids_of rows) names
      → Lands names rows (txns_of s) (txns_of (exit_bucket out new_pk rest s pk rows))
  unfolding exit_bucket
  exit_bucket-Lands names s pk rows h m = elim (Option-cases (find_group pk s.open_groups)) [
    | inl missing ↦ absurd (ground arith)
    | inr (group, found) ↦
        rw (found, exit_bucket) (apply_exit-Lands names out s.store group rows _ _ m)
  ]

  exit_buckets-Lands :
      (names : List String) (buckets : Assoc ℕ (List ActivityRow)) (s : Pass)
      → Routed s.open_groups buckets
      → Among (ids_of (bucket_rows buckets)) names
      → Lands names
          (bucket_rows buckets)
          (txns_of s)
          (txns_of (exit_buckets out new_pk rest s buckets))
  unfolding exit_buckets
  exit_buckets-Lands names [] s r m = Lands-none names (txns_of s)
  exit_buckets-Lands names ((pk, rows) ∷ d) s (h, fresh, r) m =
      let s' = exit_bucket out new_pk rest s pk rows in
      Lands-parts names (rows ++ bucket_rows d) rows (bucket_rows d) (txns_of s) (txns_of s')
        (txns_of (exit_buckets out new_pk rest s' d)) (λ n. listed-append n rows (bucket_rows d))
        (exit_bucket-Lands names s pk rows h
          (λ n e. m n (ground (arith, e, listed-append n rows (bucket_rows d)))))
        (exit_buckets-Lands names d s'
          (Routed-without pk s.open_groups s'.open_groups d (exit_bucket-HasGroup s pk rows) fresh
            r)
          (λ n e. m n (ground (arith, e, listed-append n rows (bucket_rows d)))))

-- a bucket or the rest
listed-routed :
    (n : String) (groups : List OpenGroup) (cluster : List ActivityRow)
    → let (buckets, rest) = route_cluster groups cluster in
      listed n (ids_of cluster)
      ≡ (listed n (ids_of rest) || listed n (ids_of (bucket_rows buckets)))
listed-routed n groups cluster =
    let (buckets, rest) = route_cluster groups cluster in
    ground (
      arith,
      listed-Perm n (bucket_rows buckets ++ rest) cluster (route_cluster-perm groups cluster),
      listed-append n (bucket_rows buckets) rest,
    )

module _ (out : Outside) (account : String) (names : List String) where
  open_rest-HasGroup :
      (s : Pass) (rows : List ActivityRow) (k : ℕ)
      → HasGroup s.open_groups k
      → HasGroup (open_rest out false account s rows).0.open_groups k
  unfolding open_rest
  open_rest-HasGroup s [] k h = h
  open_rest-HasGroup s (r ∷ rows) k h = HasGroup-append s.open_groups _ k h

  route_remaining-Lands :
      (s : Pass) (rows : List ActivityRow)
      → Among (ids_of rows) names
      → Lands names rows (txns_of s) (txns_of (route_remaining out false account s rows))
  unfolding route_remaining
  route_remaining-Lands s [] m = Lands-none names (txns_of s)
  route_remaining-Lands s (r ∷ rows) m =
      let (buckets, rest) = route_cluster s.open_groups (r ∷ rows) in
      let (s', new_pk) = open_rest out false account s rest in
      let parts = λ (n : String). listed-routed n s.open_groups (r ∷ rows) in
      Lands-parts names (r ∷ rows) rest (bucket_rows buckets) (txns_of s) (txns_of s')
        (txns_of (exit_buckets out new_pk rest s' buckets)) parts
        (open_rest-Lands names out account s rest (λ n h. m n (ground (arith, h, parts n))))
        (exit_buckets-Lands out new_pk rest names buckets s'
          (Routed-mono s.open_groups s'.open_groups buckets (open_rest-HasGroup s rest)
            (route_cluster-Routed s.open_groups (r ∷ rows)))
          (λ n h. m n (ground (arith, h, parts n))))

  reconcile_cluster-Lands :
      (s : Pass) (cluster : List ActivityRow)
      → Among (ids_of cluster) names
      → Lands names cluster (txns_of s) (txns_of (reconcile_cluster out false account s cluster))
  unfolding reconcile_cluster
  reconcile_cluster-Lands s cluster m =
      let all = ids_of cluster in
      let (s', left) = apply_intent_rows out false s cluster in
      let intents =
        apply_intent_rows-Settles out names all s cluster m (Pending-all all (txns_of s)) in
      let routed = route_remaining-Lands s' left intents.among in
      let final = txns_of (route_remaining out false account s' left) in
      record {
        kept = Regrouped-trans names (txns_of s) (txns_of s') final intents.kept routed.kept;
        grouped = Pending-none all final (
            Pending-Grouped all names [] left [] (txns_of s') final routed.kept routed.grouped (
              Pending-weaken all all (ids_of left) (ids_of (left ++ [])) (txns_of s') (λ n h. h)
                (λ n h. ground (arith, h, listed-append n left [])) intents.pending));
      }

  reconcile_clusters-Lands :
      (clusters : List (List ActivityRow)) (s : Pass)
      → Among (ids_of (flatten clusters)) names
      → Lands names
          (flatten clusters)
          (txns_of s)
          (txns_of (reconcile_clusters out false account s clusters))
  unfolding reconcile_clusters flatten
  reconcile_clusters-Lands [] s m = Lands-none names (txns_of s)
  reconcile_clusters-Lands (cluster ∷ clusters) s m =
      let s' = reconcile_cluster out false account s cluster in
      Lands-parts names (cluster ++ flatten clusters) cluster (flatten clusters) (txns_of s)
        (txns_of s') (txns_of (reconcile_clusters out false account s' clusters))
        (λ n. listed-append n cluster (flatten clusters))
        (reconcile_cluster-Lands s cluster
          (λ n h. m n (ground (arith, h, listed-append n cluster (flatten clusters)))))
        (reconcile_clusters-Lands clusters s'
          (λ n h. m n (ground (arith, h, listed-append n cluster (flatten clusters)))))

-- Whatever the open groups and the candidates are, the pass that writes leaves the transactions
-- under their ids and in their order, changes of each at most the group, and that only where the
-- transaction's id is a candidate's, leaves none without a group that had one, and ends with every
-- candidate in a group.
pub group_candidates-Lands :
    (out : Outside) (account : String) (since : Option Date) (store : InMemoryStore)
    → let candidates = candidates_of store account since in
      Lands
        (ids_of candidates)
        candidates
        store.transactions.rows
        (group_candidates out false account since store).store.transactions.rows
unfolding group_candidates
group_candidates-Lands out account since store =
    let candidates = candidates_of store account since in
    let clusters = cluster_by_time candidates in
    let same = λ (n : String).
      listed-Perm n (flatten clusters) candidates (flatten-cluster_by_time-perm candidates) in
    Lands-same _ candidates (flatten clusters) _ _ (λ n. sym (same n))
      (reconcile_clusters-Lands out account (ids_of candidates) clusters _
        (λ n h. ground (arith, h, same n)))
