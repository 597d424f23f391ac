-- ===== src/Reconcile/Pass.antt =====
-- The clusters of one account, in the reconcile pass (tt_ledger/ingest/reconcile.py, `reconcile`).
-- The loop's open groups, exits and created groups are part of its state; an open group is named
-- by its surrogate id, of which the list holds each once.
use tt_ledger.Base.{
  ℕ, suc, String, Bool, not, ◌&&◌, ◌||◌, Option, none, some, List, [], ◌∷◌, ◌++◌, is_some, is_none,
  eqb, select, if◌then◌else◌,
}
use tt_ledger.Base.Assoc.{Assoc, append_at, text_eq, id_eq}
use tt_ledger.Rows.{ActivityRow}
use tt_ledger.Rows.Units.{Date}
use tt_ledger.Store.Memory.{InMemoryStore}
use tt_ledger.Store.Reads.{account_activity, get_trade_group_by_id}
use tt_ledger.Store.Links.{
  attach_transactions_to_trade_group, link_transactions_to_orders, link_orders_to_groups,
  link_closed_positions_to_groups,
}
use tt_ledger.Reconcile.Rules.{is_closing, is_nontrade_close, is_delivery}
use tt_ledger.Reconcile.Cluster.{cluster_by_time}
use tt_ledger.Reconcile.Route.{OpenGroup, route_cluster}
use tt_ledger.Reconcile.Members.{group_rows_of}
use tt_ledger.Reconcile.Exit.{Outside, AppliedExit, ids_of, extend_unique, apply_exit}
use tt_ledger.Reconcile.Create.{create_trade_group, refresh_group_financials}
use tt_ledger.Reconcile.Rolls.{CreatedGroup, same_underlying, delivers_underlying}
use tt_ledger.Reconcile.Heal.{load_open_groups, account_filter}

pub record Pass : Type 0 where
  pub store : InMemoryStore
  pub open_groups : List OpenGroup
  pub exits : List AppliedExit
  pub created : List CreatedGroup
  -- `result.trade_groups`
  pub counted : ℕ

-- the group of an id: in the open groups, or else read from the store and opened
unfoldable pub find_group : ℕ → List OpenGroup → Option OpenGroup
find_group pk [] = none
find_group pk (g ∷ groups) = let rest = find_group pk groups in if eqb g.pk pk then some g else rest

unfoldable pub replace_group : OpenGroup → List OpenGroup → List OpenGroup
replace_group group [] = []
replace_group group (g ∷ groups) =
    (if eqb g.pk group.pk then group else g) ∷ replace_group group groups

unfoldable pub remove_group : ℕ → List OpenGroup → List OpenGroup
remove_group pk groups = select (λ (g : OpenGroup). not (eqb g.pk pk)) groups

-- `_group_for_pk`
unfoldable pub group_for_pk : Pass → ℕ → Pass × Option OpenGroup
unfolding find_group
group_for_pk s pk = elim (find_group pk s.open_groups) [
  | some g ↦ (s, some g)
  | none ↦ elim (get_trade_group_by_id s.store pk) [
    | none ↦ (s, none)
    | some tg ↦
        let group : OpenGroup = record { pk = pk; rows = group_rows_of s.store pk } in
        (record s { open_groups = s.open_groups ++ group ∷ [] }, some group)
  ]
]

-- the rows whose order names a group, by group, and the others
unfoldable pub intent_of :
    Assoc ℕ (List ActivityRow) → List ActivityRow → Assoc ℕ (List ActivityRow)
intent_of acc [] = acc
intent_of acc (row ∷ rows) =
    intent_of (elim row.order_trade_group_id [ none ↦ acc | some pk ↦ append_at pk row acc ]) rows

abbrev pub without_intent : List ActivityRow → List ActivityRow
without_intent = select (λ (r : ActivityRow). is_none r.order_trade_group_id)

-- a row that waits for a group: a candidate of the pass
unfoldable pub is_candidate : ActivityRow → Bool
is_candidate a =
    is_none a.trade_group_id && (is_some a.order_id || is_nontrade_close a || is_delivery a)

unfoldable pub candidates_of : InMemoryStore → String → Option Date → List ActivityRow
candidates_of store account since =
    select is_candidate (account_activity store (account_filter account since))

-- the link step
unfoldable pub link_edges : InMemoryStore → String → InMemoryStore
link_edges store account =
    let linked = (link_transactions_to_orders store account).0 in
    let ordered = (link_orders_to_groups linked account).0 in
    (link_closed_positions_to_groups ordered account).0

module _ (out : Outside) where
  -- the opening rows of an intent group
  unfoldable pub attach_opening : Pass → OpenGroup → List ActivityRow → Pass × OpenGroup
  attach_opening s group [] = (s, group)
  attach_opening s group (r ∷ rows) =
      let attached = (attach_transactions_to_trade_group s.store (ids_of (r ∷ rows)) group.pk).0 in
      let group' = extend_unique group (r ∷ rows) in
      (
        record s {
          store = refresh_group_financials attached group';
          open_groups = replace_group group' s.open_groups;
        },
        group',
      )

  -- the closing rows of an intent group
  unfoldable pub exit_intent : Pass → OpenGroup → List ActivityRow → Pass
  unfolding replace_group remove_group
  exit_intent s group [] = s
  exit_intent s group (r ∷ rows) =
      let (store, group', applied) = apply_exit out s.store group (r ∷ rows) none none in
      record s {
        store = store;
        open_groups =
            if applied.fully_closed
            then remove_group group.pk s.open_groups
            else replace_group group' s.open_groups;
      }

  unfoldable pub route_intent : Pass → OpenGroup → List ActivityRow → Pass
  unfolding attach_opening exit_intent
  route_intent s group rows =
      let (s', group') = attach_opening s group (select (λ r. not (is_closing r)) rows) in
      exit_intent s' group' (select is_closing rows)

  -- the loop over the intent groups, with the rows that fall back to routing
  unfoldable pub route_intents :
      Pass → List ActivityRow → Assoc ℕ (List ActivityRow) → Pass × List ActivityRow
  unfolding group_for_pk route_intent
  route_intents s remaining [] = (s, remaining)
  route_intents s remaining ((pk, rows) ∷ rest) =
      let (s', found) = group_for_pk s pk in
      elim found [
        | none ↦ route_intents s' (remaining ++ rows) rest
        | some group ↦ route_intents (route_intent s' group rows) remaining rest
      ]

  -- `_apply_intent_rows`
  unfoldable pub apply_intent_rows : Bool → Pass → List ActivityRow → Pass × List ActivityRow
  unfolding intent_of route_intents
  apply_intent_rows dry_run s cluster =
      if dry_run
      then (s, without_intent cluster)
      else route_intents s (without_intent cluster) (intent_of [] cluster)

  -- the rows that no group took open a new one
  unfoldable pub open_rest : Bool → String → Pass → List ActivityRow → Pass × Option ℕ
  open_rest dry_run account s [] = (s, none)
  open_rest dry_run account s (r ∷ rest) =
      let (store, pk) = create_trade_group out s.store account (r ∷ rest) in
      if dry_run then (record s { counted = suc s.counted }, none) else (
        record s {
          store = store;
          open_groups = s.open_groups ++ record { pk = pk; rows = r ∷ rest } ∷ [];
          created = s.created ++ record { pk = pk; rows = r ∷ rest } ∷ [];
          counted = suc s.counted;
        },
        some pk,
      )

  -- one bucket of closes: its group is among the open ones
  unfoldable pub exit_bucket : Option ℕ → List ActivityRow → Pass → ℕ → List ActivityRow → Pass
  unfolding replace_group remove_group
  exit_bucket new_pk rest s pk rows = elim (find_group pk s.open_groups) [
    | none ↦ s
    | some group ↦
        let rolled_to = if same_underlying rows rest then new_pk else none in
        let delivery = if delivers_underlying s.store rows rest then new_pk else none in
        let (store, group', applied) = apply_exit out s.store group rows rolled_to delivery in
        record s {
          store = store;
          open_groups =
              if applied.fully_closed
              then remove_group pk s.open_groups
              else replace_group group' s.open_groups;
          exits = s.exits ++ applied ∷ [];
        }
  ]

  unfoldable pub exit_buckets :
      Option ℕ → List ActivityRow → Pass → Assoc ℕ (List ActivityRow) → Pass
  unfolding exit_bucket
  exit_buckets new_pk rest s [] = s
  exit_buckets new_pk rest s ((pk, rows) ∷ buckets) =
      exit_buckets new_pk rest (exit_bucket new_pk rest s pk rows) buckets

  -- the part of the loop's body behind `if not cluster: continue`
  unfoldable pub route_remaining : Bool → String → Pass → List ActivityRow → Pass
  unfolding open_rest exit_buckets
  route_remaining dry_run account s [] = s
  route_remaining dry_run account s (r ∷ rows) =
      let (buckets, rest) = route_cluster s.open_groups (r ∷ rows) in
      let (s', new_pk) = open_rest dry_run account s rest in
      if dry_run then s' else exit_buckets new_pk rest s' buckets

  unfoldable pub reconcile_cluster : Bool → String → Pass → List ActivityRow → Pass
  unfolding apply_intent_rows route_remaining
  reconcile_cluster dry_run account s cluster =
      let (s', remaining) = apply_intent_rows dry_run s cluster in
      route_remaining dry_run account s' remaining

  unfoldable pub reconcile_clusters : Bool → String → Pass → List (List ActivityRow) → Pass
  unfolding reconcile_cluster
  reconcile_clusters dry_run account s [] = s
  reconcile_clusters dry_run account s (cluster ∷ clusters) =
      reconcile_clusters dry_run account (reconcile_cluster dry_run account s cluster) clusters

  -- the candidates of a store, clustered and routed
  unfoldable pub group_candidates : Bool → String → Option Date → InMemoryStore → Pass
  unfolding reconcile_clusters candidates_of
  group_candidates dry_run account since store =
      reconcile_clusters dry_run account
        (record {
          store = store;
          open_groups = load_open_groups store account;
          exits = [];
          created = [];
          counted = 0;
        })
        (cluster_by_time (candidates_of store account since))
