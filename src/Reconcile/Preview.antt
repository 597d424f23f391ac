-- ===== src/Reconcile/Preview.antt =====
-- A dry run writes nothing but the links (tt_ledger/ingest/reconcile.py, `dry_run`).
use tt_ledger.Base.{ℕ, String, true, Option, List, [], ◌∷◌, ◌≡◌, refl, ◌∙◌, inl, inr, Bool-cases}
use tt_ledger.Base.Assoc.{text_eq, id_eq}
use tt_ledger.Rows.{ActivityRow, SyncResult}
use tt_ledger.Rows.Units.{Date}
use tt_ledger.Store.Memory.{InMemoryStore}
use tt_ledger.Reconcile.Nets.{fully_closed}
use tt_ledger.Reconcile.Route.{OpenGroup, route_cluster}
use tt_ledger.Reconcile.Cluster.{cluster_by_time}
use tt_ledger.Reconcile.Exit.{Outside}
use tt_ledger.Reconcile.Heal.{
  Resolver, load_open_groups, heal_groups, heal_fully_closed_groups, synthesize_lapsed_settlements,
}
use tt_ledger.Reconcile.Pass.{
  Pass, without_intent, apply_intent_rows, open_rest, route_remaining, reconcile_cluster,
  reconcile_clusters, candidates_of, group_candidates, link_edges,
}
use tt_ledger.Reconcile.Accounts.{reconcile_account}

module _ (out : Outside) where
  open_rest-dry :
      (account : String) (s : Pass) (rows : List ActivityRow)
      → (open_rest out true account s rows).0.store ≡ s.store
  unfolding open_rest
  open_rest-dry account s [] = refl
  open_rest-dry account s (r ∷ rows) = refl

  route_remaining-dry :
      (account : String) (s : Pass) (rows : List ActivityRow)
      → (route_remaining out true account s rows).store ≡ s.store
  unfolding route_remaining
  route_remaining-dry account s [] = refl
  route_remaining-dry account s (r ∷ rows) =
      open_rest-dry account s (route_cluster s.open_groups (r ∷ rows)).1

  reconcile_clusters-dry :
      (account : String) (clusters : List (List ActivityRow)) (s : Pass)
      → (reconcile_clusters out true account s clusters).store ≡ s.store
  unfolding reconcile_clusters reconcile_cluster apply_intent_rows
  reconcile_clusters-dry account [] s = refl
  reconcile_clusters-dry account (cluster ∷ clusters) s =
      reconcile_clusters-dry account clusters _
      ∙ route_remaining-dry account s (without_intent cluster)

  heal_groups-dry :
      (groups : List OpenGroup) (store : InMemoryStore)
      → (heal_groups out true store groups).0 ≡ store
  unfolding heal_groups
  heal_groups-dry [] store = refl
  heal_groups-dry (group ∷ groups) store = elim (Bool-cases (fully_closed group.rows)) [
    | inl closed ↦ rw (closed, heal_groups) (heal_groups-dry groups store)
    | inr open_still ↦ rw (open_still, heal_groups) (heal_groups-dry groups store)
  ]

  -- A dry run over one account leaves the store as the link step alone leaves it: it makes no group
  -- and no settlement row, attaches nothing, lands no exit and heals nothing.
  pub reconcile_account-dry :
      (resolver : Resolver) (settle_after : ℕ) (since : Option Date) (store : InMemoryStore)
      (result : SyncResult) (account : String)
      → (reconcile_account out true resolver settle_after since (store, result) account).0
        ≡ link_edges store account
  unfolding reconcile_account synthesize_lapsed_settlements group_candidates
      heal_fully_closed_groups
  reconcile_account-dry resolver settle_after since store result account =
      let linked = link_edges store account in
      heal_groups-dry (load_open_groups _ account) _
      ∙ reconcile_clusters-dry account (cluster_by_time (candidates_of linked account since)) _
