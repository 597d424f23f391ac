-- ===== src/Reconcile/Grouping.antt =====
-- The rows of a cluster whose order names a group (tt_ledger/ingest/reconcile.py,
-- `_apply_intent_rows`).
use tt_ledger.Base.{
  ℕ, String, false, ◌||◌, Option, none, some, List, [], ◌∷◌, ◌++◌, ◌≡◌, refl, sym, ap, subst, inl,
  inr, is_none, append_assoc, append-nil, if◌then◌else◌, Bool-cases, Option-cases, arith,
}
use tt_ledger.Base.Text.{str_eq}
use tt_ledger.Base.Assoc.{Assoc, append_at, id_eq, text_eq}
use tt_ledger.Rows.{ActivityRow, TxnRow}
use tt_ledger.Store.Memory.{InMemoryStore}
use tt_ledger.Store.Reads.{get_trade_group_by_id}
use tt_ledger.Store.Regrouped.{listed, Regrouped, Among, Regrouped-refl, Regrouped-trans}
use tt_ledger.Reconcile.Route.{OpenGroup}
use tt_ledger.Reconcile.Partition.{bucket_rows, append_at-perm}
use tt_ledger.Reconcile.Exit.{Outside, ids_of}
use tt_ledger.Reconcile.Pending.{
  listed-append, listed-Perm, Pending, Pending-weaken, Pending-Grouped,
}
use tt_ledger.Reconcile.Landed.{txns_of, route_intent-Lands}
use tt_ledger.Reconcile.Pass.{
  Pass, find_group, group_for_pk, intent_of, without_intent, route_intent, route_intents,
  apply_intent_rows,
}

group_for_pk-store : (s : Pass) (pk : ℕ) → (group_for_pk s pk).0.store ≡ s.store
unfolding group_for_pk
group_for_pk-store s pk = elim (Option-cases (find_group pk s.open_groups)) [
  | inr (g, found) ↦ rw (found, group_for_pk) refl
  | inl missing ↦ elim (Option-cases (get_trade_group_by_id s.store pk)) [
    | inl unknown ↦ rw (missing, group_for_pk, unknown) refl
    | inr (tg, known) ↦ rw (missing, group_for_pk, known) refl
  ]
]

-- the rows of a cluster by intent: a row is in its bucket, or has none
listed-append_at :
    (n : String) (pk : ℕ) (row : ActivityRow) (d : Assoc ℕ (List ActivityRow))
    → listed n (ids_of (bucket_rows (append_at pk row d)))
      ≡ (str_eq n row.tt_transaction_id || listed n (ids_of (bucket_rows d)))
listed-append_at n pk row d =
    listed-Perm n (bucket_rows (append_at pk row d)) (row ∷ bucket_rows d) (append_at-perm pk row d)

listed-intent_step :
    (n : String) (row : ActivityRow) (acc : Assoc ℕ (List ActivityRow)) (intent : Option ℕ)
    → let acc' : Assoc ℕ (List ActivityRow) = elim intent [
      | none ↦ acc
      | some pk ↦ append_at pk row acc
    ] in
      listed n (ids_of (bucket_rows acc')) ≡ (
        if is_none intent
        then listed n (ids_of (bucket_rows acc))
        else (str_eq n row.tt_transaction_id || listed n (ids_of (bucket_rows acc))))
listed-intent_step n row acc none = refl
listed-intent_step n row acc (some pk) = listed-append_at n pk row acc

listed-intent_of :
    (n : String) (rows : List ActivityRow) (acc : Assoc ℕ (List ActivityRow))
    → (listed n (ids_of (bucket_rows (intent_of acc rows)))
        || listed n (ids_of (without_intent rows)))
      ≡ (listed n (ids_of (bucket_rows acc)) || listed n (ids_of rows))
unfolding intent_of
listed-intent_of n [] acc = refl
listed-intent_of n (r ∷ rows) acc =
    let acc' : Assoc ℕ (List ActivityRow) = elim r.order_trade_group_id [
      | none ↦ acc
      | some pk ↦ append_at pk r acc
    ] in
    let rest = listed-intent_of n rows acc' in
    let step = listed-intent_step n r acc r.order_trade_group_id in
    elim (Bool-cases (is_none r.order_trade_group_id)) [
      | inl free ↦ rw free (ground arith)
      | inr meant ↦ rw meant (ground arith)
    ]

-- a cluster is its rows without intent and its intent groups
listed-intents :
    (n : String) (cluster : List ActivityRow)
    → listed n (ids_of (without_intent cluster ++ bucket_rows (intent_of [] cluster)))
      ≡ listed n (ids_of cluster)
listed-intents n cluster = ground (
  arith,
  listed-append n (without_intent cluster) (bucket_rows (intent_of [] cluster)),
  listed-intent_of n cluster [],
)

listed-between :
    (n : String) (before rows after : List ActivityRow)
    → listed n (ids_of (before ++ (rows ++ after)))
      ≡ (listed n (ids_of before) || (listed n (ids_of rows) || listed n (ids_of after)))
listed-between n before rows after =
    ground (arith, listed-append n before (rows ++ after), listed-append n rows after)

module _ (out : Outside) (names all : List String) where
  -- from one step of the pass to a later one, with the rows that are left
  pub record Settles (a b : Assoc ℕ TxnRow) (left : List ActivityRow) : Type 0 where
    pub kept : Regrouped names a b
    pub pending : Pending all (ids_of left) b
    pub among : Among (ids_of left) names

  -- the rows that one intent group takes
  Settles-some :
      (s : Pass) (group : OpenGroup) (before rows after : List ActivityRow)
      → Among (ids_of (before ++ (rows ++ after))) names
      → Pending all (ids_of (before ++ (rows ++ after))) (txns_of s)
      → Settles (txns_of s) (txns_of (route_intent out s group rows)) (before ++ after)
  Settles-some s group before rows after m p =
      let step =
        route_intent-Lands names out s group rows
          (λ n h. m n (ground (arith, h, listed-between n before rows after))) in
      record {
        kept = step.kept;
        pending =
            Pending-Grouped all names before rows after (txns_of s)
              (txns_of (route_intent out s group rows)) step.kept step.grouped p;
        among = λ n h.
            m n
              (ground (arith, h, listed-between n before rows after, listed-append n before after));
      }

  Settles-then :
      (a b c : Assoc ℕ TxnRow) (left : List ActivityRow)
      → Regrouped names a b
      → Settles b c left
      → Settles a c left
  Settles-then a b c left r s = record {
    kept = Regrouped-trans names a b c r s.kept;
    pending = s.pending;
    among = s.among;
  }

  route_intents-Settles :
      (groups : Assoc ℕ (List ActivityRow)) (s : Pass) (remaining : List ActivityRow)
      → Among (ids_of (remaining ++ bucket_rows groups)) names
      → Pending all (ids_of (remaining ++ bucket_rows groups)) (txns_of s)
      → let (s', left) = route_intents out s remaining groups in
        Settles (txns_of s) (txns_of s') left
  unfolding route_intents
  route_intents-Settles [] s remaining m p =
      let whole = append-nil remaining in
      record {
        kept = Regrouped-refl names (txns_of s);
        pending = subst (λ l. Pending all (ids_of l) (txns_of s)) whole p;
        among = subst (λ l. Among (ids_of l) names) whole m;
      }
  route_intents-Settles ((pk, rows) ∷ rest) s remaining m p =
      let same =
        ap (λ (store : InMemoryStore). store.transactions.rows) (group_for_pk-store s pk) in
      let (s', found) = group_for_pk s pk in
      let here =
        subst (Pending all (ids_of (remaining ++ (rows ++ bucket_rows rest)))) (sym same) p in
      let assoc = sym (append_assoc remaining rows (bucket_rows rest)) in
      subst
        (λ a.
          Settles a (txns_of (route_intents out s remaining ((pk, rows) ∷ rest)).0)
            (route_intents out s remaining ((pk, rows) ∷ rest)).1)
        same
        (elim (Option-cases found) [
          | inl missing ↦
              rw (missing, route_intents)
                (route_intents-Settles rest s' (remaining ++ rows)
                  (subst (λ l. Among (ids_of l) names) assoc m)
                  (subst (λ l. Pending all (ids_of l) (txns_of s')) assoc here))
          | inr (group, there) ↦
              let step = Settles-some s' group remaining rows (bucket_rows rest) m here in
              rw (there, route_intents)
                (Settles-then _ _ _ _ step.kept (
                  route_intents-Settles rest (route_intent out s' group rows) remaining step.among
                    step.pending))
        ])

  -- The intents of a cluster are in groups afterwards, and the other rows are left.
  pub apply_intent_rows-Settles :
      (s : Pass) (cluster : List ActivityRow)
      → Among (ids_of cluster) names
      → Pending all (ids_of cluster) (txns_of s)
      → let (s', left) = apply_intent_rows out false s cluster in
        Settles (txns_of s) (txns_of s') left
  unfolding apply_intent_rows
  apply_intent_rows-Settles s cluster m p =
      route_intents-Settles (intent_of [] cluster) s (without_intent cluster)
        (λ n h. m n (ground (arith, h, listed-intents n cluster)))
        (Pending-weaken all all (ids_of cluster) _ (txns_of s) (λ n h. h)
          (λ n h. ground (arith, h, listed-intents n cluster)) p)
