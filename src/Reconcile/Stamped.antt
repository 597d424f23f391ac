-- ===== src/Reconcile/Stamped.antt =====
-- When an exit closes the header of its group (tt_ledger/ingest/reconcile.py, `_apply_exit`).
use tt_ledger.Reconcile.Again.{apply_exit-rows_after}
use tt_ledger.Base.{
  Bool-cases, arith, ◌≤◌, ◌++◌, leb, AllOf, ℕ, String, Bool, true, false, Option, none, some, List,
  [], ◌∷◌, ◌≡◌, ◌≢◌, ◌⊎◌, refl, sym, ap, subst, get_or_else, ◌∙◌, inl, inr, select, if◌then◌else◌,
}
use tt_ledger.Base.Assoc.{Assoc, text_eq, id_eq}
use tt_ledger.Enums.{trade_group_status_value}
use tt_ledger.Rows.{ActivityRow, TradeGroupRow}
use tt_ledger.Rows.Units.{Instant}
use tt_ledger.Store.Table.{Table, get, id_of, upsert}
use tt_ledger.Store.Keys.{IsIndexed, upsert-get_by_key}
use tt_ledger.Store.Memory.{InMemoryStore, upsert_trade_group, add_trade_group_event}
use tt_ledger.Store.Reads.{get_trade_group_by_id}
use tt_ledger.Store.Links.{attach_transactions_to_trade_group}
use tt_ledger.Reconcile.Rules.{row_fees}
use tt_ledger.Reconcile.Nets.{fully_closed}
use tt_ledger.Reconcile.Route.{OpenGroup}
use tt_ledger.Reconcile.Members.{latest, closing_status, sum_of}
use tt_ledger.Reconcile.Exit.{
  Outside, AppliedExit, emit, ids_of, unknown_rows, extend_unique, is_trade_close, rows_by_event,
  landed_exit, emit_trade_exit, emit_settlements, emit_roll, emit_exit, closed_header, stamp_closed,
  land_exit, apply_exit,
}

abbrev pub group_key : TradeGroupRow → Option String
group_key tg = some tg.group_id

-- a row executed at the instant
abbrev pub HasTime : Instant → List ActivityRow → Type 0
HasTime t [] = ⊥
HasTime t (r ∷ rows) = (r.executed_at ≡ some t) ⊎ HasTime t rows

-- the latest execution of the rows, where any of them is dated
abbrev pub IsLatest : List ActivityRow → Option Instant → Type 0
IsLatest rows none = AllOf (λ (r : ActivityRow). r.executed_at ≡ none) rows
IsLatest rows (some t) =
    HasTime t rows × AllOf (λ (r : ActivityRow). get_or_else r.executed_at t ≤ t) rows

undated_within :
    (t : Instant) (rows : List ActivityRow)
    → AllOf (λ (r : ActivityRow). r.executed_at ≡ none) rows
    → AllOf (λ (r : ActivityRow). get_or_else r.executed_at t ≤ t) rows
undated_within t [] undated = tt
undated_within t (r ∷ rows) (here, undated) = (ground (arith, here), undated_within t rows undated)

later_within :
    (m t : Instant) (rows : List ActivityRow)
    → m ≤ t
    → AllOf (λ (r : ActivityRow). get_or_else r.executed_at m ≤ m) rows
    → AllOf (λ (r : ActivityRow). get_or_else r.executed_at t ≤ t) rows
later_within m t [] later within = tt
later_within m t (r ∷ rows) later (here, within) =
    (ground (arith, here), later_within m t rows later within)

IsLatest-cons :
    (r : ActivityRow) (rows : List ActivityRow) (at o : Option Instant)
    → r.executed_at ≡ at
    → IsLatest rows o
    → IsLatest (r ∷ rows) (elim at [
      | none ↦ o
      | some t ↦ elim o [ none ↦ some t | some m ↦ if leb m t then some t else some m ]
    ])
IsLatest-cons r rows none none e h = (e, h)
IsLatest-cons r rows none (some m) e h = (inr h.0, (ground (arith, e), h.1))
IsLatest-cons r rows (some t) none e h = (inl e, (ground (arith, e), undated_within t rows h))
IsLatest-cons r rows (some t) (some m) e h = elim (Bool-cases (leb m t)) [
  | inl later ↦
      rw later (inl e, (ground (arith, e), later_within m t rows (ground (arith, later)) h.1))
  | inr before ↦ rw before (inr h.0, (ground (arith, e, before), h.1))
]

IsLatest-latest : (rows : List ActivityRow) → IsLatest rows (latest rows)
unfolding latest
IsLatest-latest [] = tt
IsLatest-latest (r ∷ rows) =
    IsLatest-cons r rows r.executed_at (latest rows) refl (IsLatest-latest rows)

-- what closing the header `tg` of a group with the members writes, after the new rows
abbrev pub IsClosed : TradeGroupRow → List ActivityRow → List ActivityRow → TradeGroupRow → Type 0
IsClosed tg fresh members header =
    (header.group_id ≡ tg.group_id)
    × ((header.status ≡ trade_group_status_value (closing_status members))
        × (IsLatest fresh header.closed_at × (header.total_fees ≡ some (sum_of row_fees members))))

-- what an exit does to the headers: nothing, where no row was new or the members are not fully
-- closed, and else it closes the group's
abbrev pub IsStamped :
    InMemoryStore → TradeGroupRow → ℕ → List ActivityRow → List ActivityRow → InMemoryStore → Type 0
IsStamped store tg pk fresh members store' =
    ((store'.trade_groups ≡ store.trade_groups) × ((fresh ≡ []) ⊎ (fully_closed members ≡ false)))
    ⊎ ((fresh ≢ [])
        × ((fully_closed members ≡ true)
            × ((header : TradeGroupRow) × ((get_trade_group_by_id store' pk ≡ some header)
                  × IsClosed tg fresh members header))))

-- what an exit reports
abbrev pub IsReport : List ActivityRow → List ActivityRow → AppliedExit → Type 0
IsReport fresh members applied =
    (applied.rows ≡ fresh) × (applied.fully_closed ≡ fully_closed members)

module _ (out : Outside) where
  emit_trade_exit-trade_groups :
      (store : InMemoryStore) (pk : ℕ) (rows : List ActivityRow) (closed : Bool)
      (event_at : Option Instant)
      → (emit_trade_exit out store pk rows closed event_at).trade_groups ≡ store.trade_groups
  unfolding emit_trade_exit emit add_trade_group_event
  emit_trade_exit-trade_groups store pk [] closed event_at = refl
  emit_trade_exit-trade_groups store pk (r ∷ rows) closed event_at = refl

  emit_settlements-trade_groups :
      (pk : ℕ) (buckets : Assoc String (List ActivityRow)) (store : InMemoryStore)
      (event_at : Option Instant) (delivery : Option ℕ)
      → (emit_settlements out store pk buckets event_at delivery).trade_groups ≡ store.trade_groups
  unfolding emit_settlements emit add_trade_group_event
  emit_settlements-trade_groups pk [] store event_at delivery = refl
  emit_settlements-trade_groups pk ((name, rows) ∷ rest) store event_at delivery =
      emit_settlements-trade_groups pk rest _ event_at delivery

  emit_roll-trade_groups :
      (store : InMemoryStore) (pk : ℕ) (event_at : Option Instant) (rolled : Option ℕ)
      → (emit_roll out store pk event_at rolled).trade_groups ≡ store.trade_groups
  unfolding emit_roll emit add_trade_group_event
  emit_roll-trade_groups store pk event_at none = refl
  emit_roll-trade_groups store pk event_at (some to) = refl

  emit_exit-trade_groups :
      (store : InMemoryStore) (group : OpenGroup) (rows : List ActivityRow)
      (rolled delivery : Option ℕ)
      → (emit_exit out store group rows rolled delivery).trade_groups ≡ store.trade_groups
  unfolding emit_exit
  emit_exit-trade_groups store group rows rolled delivery =
      emit_roll-trade_groups _ group.pk (latest rows) rolled
      ∙ emit_settlements-trade_groups group.pk (rows_by_event [] rows) _ (latest rows) delivery
      ∙ emit_trade_exit-trade_groups store group.pk (select is_trade_close rows)
          (fully_closed group.rows) (latest rows)

  -- the header that is stamped is the group's own
  stamp_closed-header :
      (store : InMemoryStore) (group : OpenGroup) (event_at : Option Instant) (tg : TradeGroupRow)
      → IsIndexed group_key store.trade_groups
      → get_trade_group_by_id store group.pk ≡ some tg
      → get_trade_group_by_id (stamp_closed out store group event_at) group.pk
        ≡ some (closed_header out store tg group.rows event_at)
  unfolding stamp_closed closed_header upsert_trade_group get_trade_group_by_id get id_of
  stamp_closed-header store group event_at tg v found =
      let at = v.complete group.pk tg tg.group_id found refl in
      let header = closed_header out store tg group.rows event_at in
      let stored =
        upsert-get_by_key group_key store.trade_groups header tg.group_id group.pk refl in
      let row_is = stored.3 ∙ ap (λ (o : Option ℕ). get_or_else o store.trade_groups.next_id) at in
      rw (found, stamp_closed)
        (subst (λ (i : ℕ). get (upsert group_key store.trade_groups header).0 i ≡ some header)
          row_is stored.1)

  IsStamped-either :
      (tg : TradeGroupRow) (pk : ℕ) (fresh members : List ActivityRow) (closed : Bool)
      (store x y : InMemoryStore)
      → fully_closed members ≡ closed
      → (fresh ≢ [])
      → (header : TradeGroupRow) × ((get_trade_group_by_id x pk ≡ some header)
          × IsClosed tg fresh members header)
      → y.trade_groups ≡ store.trade_groups
      → IsStamped store tg pk fresh members (if closed then x else y)
  IsStamped-either tg pk fresh members true store x y e new h same = inr (new, (e, h))
  IsStamped-either tg pk fresh members false store x y e new h same = inl (same, inr e)

  land_exit-IsStamped :
      (store : InMemoryStore) (group : OpenGroup) (fresh : List ActivityRow)
      (rolled delivery : Option ℕ) (tg : TradeGroupRow)
      → IsIndexed group_key store.trade_groups
      → get_trade_group_by_id store group.pk ≡ some tg
      → let (store', group', applied) = land_exit out store group fresh rolled delivery in
        IsStamped store tg group.pk fresh group'.rows store' × IsReport fresh group'.rows applied
  unfolding land_exit landed_exit extend_unique closed_header get_trade_group_by_id
  land_exit-IsStamped store group [] rolled delivery tg v found =
      (inl (refl, inl refl), (refl, refl))
  land_exit-IsStamped store group (r ∷ rows) rolled delivery tg v found =
      let group' = extend_unique group (r ∷ rows) in
      let emitted = emit_exit out store group' (r ∷ rows) rolled delivery in
      let same = emit_exit-trade_groups store group' (r ∷ rows) rolled delivery in
      let event_at = latest (r ∷ rows) in
      (
        IsStamped-either tg group.pk (r ∷ rows) group'.rows (fully_closed group'.rows) store _ _
            refl (λ e. cc)
            (
              closed_header out emitted tg group'.rows event_at,
              (
                stamp_closed-header emitted group' event_at tg
                    (subst (IsIndexed group_key) (sym same) v)
                    (ap (λ (t : Table String TradeGroupRow). get t group.pk) same ∙ found),
                (refl, (refl, (IsLatest-latest (r ∷ rows), refl))),
              ),
            )
            same,
        (refl, refl),
      )

  -- In a store whose headers are indexed, landing rows on a group whose header is stored adds the
  -- rows that were not members yet to the members, and reports them and whether the members are
  -- fully closed then. Every header stays as it is where no row was new or the members are not fully
  -- closed. Else the header of the group, under its own name, has the status that the closes cause,
  -- the latest execution of the new rows and the fees of all members.
  pub apply_exit-IsStamped :
      (store : InMemoryStore) (group : OpenGroup) (rows : List ActivityRow)
      (rolled delivery : Option ℕ) (tg : TradeGroupRow)
      → IsIndexed group_key store.trade_groups
      → get_trade_group_by_id store group.pk ≡ some tg
      → let fresh = unknown_rows group.rows rows in
        let members = group.rows ++ fresh in
        let (store', group', applied) = apply_exit out store group rows rolled delivery in
        (group'.rows ≡ members)
        × (IsReport fresh members applied × IsStamped store tg group.pk fresh members store')
  unfolding apply_exit attach_transactions_to_trade_group get_trade_group_by_id
  apply_exit-IsStamped store group rows rolled delivery tg v found =
      let fresh = unknown_rows group.rows rows in
      let (store', group', applied) = apply_exit out store group rows rolled delivery in
      let landed =
        land_exit-IsStamped (attach_transactions_to_trade_group store (ids_of rows) group.pk).0
          group fresh rolled delivery tg v found in
      let after = apply_exit-rows_after out store group rows rolled delivery in
      (
        after,
        (
          subst (λ (l : List ActivityRow). IsReport fresh l applied) after landed.1,
          subst (λ (l : List ActivityRow). IsStamped store tg group.pk fresh l store') after
              landed.0,
        ),
      )
