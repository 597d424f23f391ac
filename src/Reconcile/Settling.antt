-- ===== src/Reconcile/Settling.antt =====
-- A second pass finds nothing to do (tt_ledger/ingest/reconcile.py, `reconcile`).
use tt_ledger.Base.{
  ℕ, String, Bool, true, false, ◌&&◌, ◌||◌, Option, List, [], ◌∷◌, ◌≡◌, ◌⊎◌, refl, ap, subst, ◌∙◌,
  inl, inr, is_some, is_none, map, select, Bool-cases, arith,
}
use tt_ledger.Base.Assoc.{Assoc}
use tt_ledger.Base.Text.{str_eq, eq_iff}
use tt_ledger.Rows.{TxnRow, ActivityFilter}
use tt_ledger.Rows.Units.{Date}
use tt_ledger.Store.Memory.{InMemoryStore}
use tt_ledger.Store.Reads.{values, activity_passes, activity_row, activity_of, account_activity}
use tt_ledger.Store.Regrouped.{listed, MayRegroup, MayRegroup-id, Regrouped, Grouped, Among}
use tt_ledger.Reconcile.Rules.{is_nontrade_close, is_delivery}
use tt_ledger.Reconcile.Cluster.{cluster_by_time, clusters_of, dated_rows, singletons}
use tt_ledger.Reconcile.Members.{member_row}
use tt_ledger.Reconcile.Exit.{Outside, ids_of}
use tt_ledger.Reconcile.Heal.{load_open_groups, account_filter}
use tt_ledger.Reconcile.Candidates.{group_candidates-Lands}
use tt_ledger.Reconcile.Pass.{is_candidate, candidates_of, reconcile_clusters, group_candidates}

-- what makes a transaction without a group a candidate
unfoldable waits : TxnRow → Bool
waits t = is_some t.order_id || is_nontrade_close (member_row t) || is_delivery (member_row t)

is_candidate-activity_of :
    (store : InMemoryStore) (t : TxnRow)
    → is_candidate (activity_of store t) ≡ (is_none t.trade_group_id && waits t)
unfolding is_candidate activity_of activity_row waits is_nontrade_close is_delivery
is_candidate-activity_of store t = refl

waits-regroup : (t : TxnRow) (g : Option ℕ) → waits (record t { trade_group_id = g }) ≡ waits t
unfolding waits activity_row is_nontrade_close is_delivery
waits-regroup t g = refl

passes-regroup :
    (f : ActivityFilter) (t : TxnRow) (g : Option ℕ)
    → activity_passes f (record t { trade_group_id = g }) ≡ activity_passes f t
unfolding activity_passes
passes-regroup f t g = refl

-- the ids of the candidates among some rows
abbrev candidate_ids : InMemoryStore → ActivityFilter → Assoc ℕ TxnRow → List String
candidate_ids store f rows =
    ids_of
      (select is_candidate (map (activity_of store) (select (activity_passes f) (values rows))))

listed-candidate_ids :
    (store : InMemoryStore) (f : ActivityFilter) (i : ℕ) (t : TxnRow) (rows : Assoc ℕ TxnRow)
    (n : String)
    → listed n (candidate_ids store f ((i, t) ∷ rows)) ≡ (
        activity_passes f t && (is_candidate (activity_of store t) && str_eq n t.tt_transaction_id)
        || listed n (candidate_ids store f rows))
unfolding activity_of activity_row
listed-candidate_ids store f i t rows n = elim (Bool-cases (activity_passes f t)) [
  | inr out ↦ rw out refl
  | inl passes ↦ elim (Bool-cases (is_candidate (activity_of store t))) [
    | inr other ↦ rw (passes, other) refl
    | inl candidate ↦ rw (passes, candidate) refl
  ]
]

-- a row that was no candidate, or that is in a group, is none
no_candidate :
    (before after : InMemoryStore) (f : ActivityFilter) (names : List String) (t u : TxnRow)
    → MayRegroup names t u
    → (is_candidate (activity_of before t) ≡ false) ⊎ (is_some u.trade_group_id ≡ true)
    → is_candidate (activity_of after u) ≡ false
no_candidate before after f names t u m h = ground (
  arith,
  h,
  is_candidate-activity_of before t,
  is_candidate-activity_of after u,
  ap waits m.same ∙ waits-regroup t u.trade_group_id,
  m.stays,
)

-- a candidate is among those that are in groups
covered :
    (before : InMemoryStore) (f : ActivityFilter) (names held : List String) (i : ℕ) (t u : TxnRow)
    (a : Assoc ℕ TxnRow)
    → MayRegroup names t u
    → activity_passes f t ≡ true
    → (listed u.tt_transaction_id held ≡ false) ⊎ (is_some u.trade_group_id ≡ true)
    → Among (candidate_ids before f ((i, t) ∷ a)) held
    → (is_candidate (activity_of before t) ≡ false) ⊎ (is_some u.trade_group_id ≡ true)
covered before f names held i t u a m passes h w =
    elim (Bool-cases (is_candidate (activity_of before t))) [
      | inr other ↦ inl other
      | inl candidate ↦ inr (
          ground (
            arith,
            subst (λ n. (listed n held ≡ false) ⊎ (is_some u.trade_group_id ≡ true))
                (MayRegroup-id names t u m) h,
            w t.tt_transaction_id,
            listed-candidate_ids before f i t a t.tt_transaction_id,
            (eq_iff t.tt_transaction_id t.tt_transaction_id).1 refl,
          ))
    ]

nothing_waits :
    (before after : InMemoryStore) (f : ActivityFilter) (names held : List String)
    (a b : Assoc ℕ TxnRow)
    → Regrouped names a b
    → Grouped held b
    → Among (candidate_ids before f a) held
    → select is_candidate (map (activity_of after) (select (activity_passes f) (values b))) ≡ []
nothing_waits before after f names held [] [] r g w = refl
nothing_waits before after f names held ((i, t) ∷ a) ((j, u) ∷ b) (e, m, r) (h, g) w =
    let passes = ap (activity_passes f) m.same ∙ passes-regroup f t u.trade_group_id in
    let step = λ (n : String). listed-candidate_ids before f i t a n in
    let rest =
      nothing_waits before after f names held a b r g (λ n l. w n (ground (arith, l, step n))) in
    elim (Bool-cases (activity_passes f u)) [
      | inr out ↦ rw out rest
      | inl in_range ↦
          rw
            (
              in_range,
              no_candidate before after f names t u m
                  (covered before f names held i t u a m (ground arith) h w),
            )
            rest
    ]
nothing_waits before after f names held [] (_ ∷ _) r g w = absurd r
nothing_waits before after f names held (_ ∷ _) [] r g w = absurd r

-- After a pass that writes, the account has no candidate left.
candidates_of-group_candidates :
    (out : Outside) (account : String) (since : Option Date) (store : InMemoryStore)
    → candidates_of (group_candidates out false account since store).store account since ≡ []
unfolding candidates_of account_activity
candidates_of-group_candidates out account since store =
    let landed = group_candidates-Lands out account since store in
    nothing_waits store (group_candidates out false account since store).store
      (account_filter account since) _ _ store.transactions.rows _ landed.kept landed.grouped
      (λ n h. h)

-- A pass right after a pass that wrote leaves the store as it is, makes no group and lands no exit:
-- nothing is left to do, whatever the first pass found and whether the second one writes.
pub group_candidates-settled :
    (out : Outside) (dry_run : Bool) (account : String) (since : Option Date)
    (store : InMemoryStore)
    → let settled = (group_candidates out false account since store).store in
      group_candidates out dry_run account since settled ≡ record {
        store = settled;
        open_groups = load_open_groups settled account;
        exits = [];
        created = [];
        counted = 0;
      }
unfolding group_candidates cluster_by_time clusters_of dated_rows singletons reconcile_clusters
group_candidates-settled out dry_run account since store =
    rw (candidates_of-group_candidates out account since store) refl
