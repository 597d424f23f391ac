-- ===== src/Reconcile/Known.antt =====
-- The buckets of a routed cluster name open groups, each once (tt_ledger/ingest/reconcile.py,
-- `_route_cluster` and the loop over its buckets).
use tt_ledger.Base.{
  ℕ, String, true, false, Option, none, some, List, [], ◌∷◌, ◌++◌, ◌≡◌, refl, inl, inr, is_some,
  eqb, any_of, or_option, Bool-cases, AllOf, if◌then◌else◌, arith,
}
use tt_ledger.Base.Assoc.{Assoc, lookup, insert, append_at, id_eq, text_eq, lookup-insert}
use tt_ledger.Base.Int.{pos, abs, leb_ℤ, min_ℤ, ◌-ℤ◌}
use tt_ledger.Base.Text.{opt_is}
use tt_ledger.Rows.{ActivityRow}
use tt_ledger.Rows.Units.{Quantity}
use tt_ledger.Replay.Rules.{quantity_of}
use tt_ledger.Reconcile.Rules.{is_closing, has_bare_action, has_action, action_delta}
use tt_ledger.Reconcile.Nets.{net_at}
use tt_ledger.Reconcile.Route.{
  OpenGroup, Holding, Routing, holdings_of, passes_over, drawn, draw_down, member_group, place,
  route_row, route_step, route_rows, route_cluster,
}
use tt_ledger.Reconcile.Partition.{append_at-cons}
use tt_ledger.Reconcile.Pass.{find_group, replace_group, remove_group}

-- an open group has the id
abbrev pub HasGroup : List OpenGroup → ℕ → Type 0
HasGroup groups pk = is_some (find_group pk groups) ≡ true

pub HasGroup-append :
    (groups more : List OpenGroup) (pk : ℕ) → HasGroup groups pk → HasGroup (groups ++ more) pk
unfolding find_group
HasGroup-append [] more pk h = ground arith
HasGroup-append (g ∷ groups) more pk h = ground (arith, HasGroup-append groups more pk)

pub HasGroup-replace :
    (group : OpenGroup) (groups : List OpenGroup) (pk : ℕ)
    → HasGroup groups pk
    → HasGroup (replace_group group groups) pk
unfolding find_group replace_group
HasGroup-replace group [] pk h = h
HasGroup-replace group (g ∷ groups) pk h = ground (arith, HasGroup-replace group groups pk)

pub HasGroup-remove :
    (groups : List OpenGroup) (gone pk : ℕ)
    → eqb gone pk ≡ false
    → HasGroup groups pk
    → HasGroup (remove_group gone groups) pk
unfolding find_group remove_group
HasGroup-remove [] gone pk other h = h
HasGroup-remove (g ∷ groups) gone pk other h = ground (arith, HasGroup-remove groups gone pk other)

-- the buckets name open groups, each once
abbrev pub Routed : List OpenGroup → Assoc ℕ (List ActivityRow) → Type 0
Routed groups [] = Unit
Routed groups ((pk, rows) ∷ d) = HasGroup groups pk × (lookup pk d ≡ none) × Routed groups d

lookup-append_at :
    (pk k : ℕ) (row : ActivityRow) (d : Assoc ℕ (List ActivityRow))
    → eqb k pk ≡ false
    → lookup k d ≡ none
    → lookup k (append_at pk row d) ≡ none
lookup-append_at pk k row d other fresh = ground (
  arith,
  lookup-insert pk k (elim (lookup pk d) [ none ↦ row ∷ [] | some xs ↦ xs ++ row ∷ [] ]) d,
)

append_at-Routed :
    (groups : List OpenGroup) (pk : ℕ) (row : ActivityRow) (d : Assoc ℕ (List ActivityRow))
    → HasGroup groups pk
    → Routed groups d
    → Routed groups (append_at pk row d)
unfolding lookup insert
append_at-Routed groups pk row [] h r = (h, refl, tt)
append_at-Routed groups pk row ((k, rows) ∷ d) h (g, fresh, r) =
    rw (append_at-cons pk k row rows d) (elim (Bool-cases (eqb k pk)) [
      | inl here ↦ rw here (g, fresh, r)
      | inr later ↦
          rw later
            (g, lookup-append_at pk k row d later fresh, append_at-Routed groups pk row d h r)
    ])

-- all the groups of some holdings are open
abbrev pub AllKnown : List OpenGroup → List Holding → Type 0
AllKnown groups = AllOf (λ (h : Holding). HasGroup groups h.group.pk)

abbrev pub KnownIf : List OpenGroup → Option ℕ → Type 0
KnownIf groups none = Unit
KnownIf groups (some pk) = HasGroup groups pk

AllKnown-cons :
    (g : OpenGroup) (groups : List OpenGroup) (hs : List Holding)
    → AllKnown groups hs
    → AllKnown (g ∷ groups) hs
unfolding find_group
AllKnown-cons g groups [] k = tt
AllKnown-cons g groups (h ∷ hs) (a, k) = (ground arith, AllKnown-cons g groups hs k)

holdings_of-AllKnown : (groups : List OpenGroup) → AllKnown groups (holdings_of groups)
unfolding holdings_of find_group
holdings_of-AllKnown [] = tt
holdings_of-AllKnown (g ∷ groups) =
    (ground arith, AllKnown-cons g groups (holdings_of groups) (holdings_of-AllKnown groups))

module _ (groups : List OpenGroup) where
  or_option-KnownIf :
      (a b : Option ℕ) → KnownIf groups a → KnownIf groups b → KnownIf groups (or_option a b)
  or_option-KnownIf none b p q = q
  or_option-KnownIf (some pk) b p q = p

  member_group-KnownIf :
      (sid : String) (hs : List Holding) → AllKnown groups hs → KnownIf groups (member_group sid hs)
  unfolding member_group
  member_group-KnownIf sid [] k = tt
  member_group-KnownIf sid (h ∷ hs) (a, k) =
      elim (Bool-cases (any_of (λ r. opt_is r.security_id sid) h.group.rows)) [
        | inl here ↦ rw (here, KnownIf) a
        | inr out ↦ rw (out, KnownIf) (member_group-KnownIf sid hs k)
      ]

  draw_down-Known :
      (sid : String) (left : Quantity) (delta : Option Quantity) (first : Option ℕ)
      (hs : List Holding)
      → KnownIf groups first
      → AllKnown groups hs
      → AllKnown groups (draw_down sid left delta first hs).0
        × KnownIf groups (draw_down sid left delta first hs).1
  unfolding draw_down drawn
  draw_down-Known sid left delta first [] f k = (tt, f)
  draw_down-Known sid left delta first (h ∷ hs) f (a, k) =
      let left' = left -ℤ min_ℤ left (abs (net_at h.nets sid)) in
      let first' = or_option first (some h.group.pk) in
      let f' = or_option-KnownIf first (some h.group.pk) f a in
      let skipped = draw_down-Known sid left delta first hs f k in
      let carried = draw_down-Known sid left' delta first' hs f' k in
      elim (Bool-cases (passes_over (net_at h.nets sid) delta)) [
        | inl skip ↦ rw skip ((a, skipped.0), skipped.1)
        | inr draws ↦ elim (Bool-cases (leb_ℤ left' (pos 0))) [
          | inl spent ↦ rw (draws, spent) ((a, k), f')
          | inr more ↦ rw (draws, more) ((a, carried.0), carried.1)
        ]
      ]

  route_row-Known :
      (sid : String) (row : ActivityRow) (hs : List Holding)
      → AllKnown groups hs
      → AllKnown groups (route_row sid row hs).0 × KnownIf groups (route_row sid row hs).1
  unfolding route_row
  route_row-Known sid row hs k =
      let delta = if has_action row then some (action_delta row) else none in
      let closing = draw_down-Known sid (abs (quantity_of row)) delta none hs tt k in
      let drawn_hs = draw_down sid (abs (quantity_of row)) delta none hs in
      elim (Bool-cases (is_closing row)) [
        | inl closes ↦ rw closes (
          closing.0,
          or_option-KnownIf drawn_hs.1 (member_group sid drawn_hs.0) closing.1
              (member_group-KnownIf sid drawn_hs.0 closing.0),
        )
        | inr opens ↦ elim (Bool-cases (has_bare_action row)) [
          | inl bare ↦
              rw (opens, bare)
                (draw_down-Known sid (abs (quantity_of row)) (some (action_delta row)) none hs tt k)
          | inr other ↦ rw (opens, other) (k, tt)
        ]
      ]

  place-Known :
      (s : Routing) (row : ActivityRow) (found : List Holding × Option ℕ)
      → Routed groups s.buckets
      → AllKnown groups found.0 × KnownIf groups found.1
      → AllKnown groups (place s row found).holdings × Routed groups (place s row found).buckets
  unfolding place
  place-Known s row (hs, none) r (k, f) = (k, r)
  place-Known s row (hs, some pk) r (k, f) = (k, append_at-Routed groups pk row s.buckets f r)

  routed-Known :
      (row : ActivityRow) (hs : List Holding)
      → AllKnown groups hs
      → (security : Option String)
      → let found : List Holding × Option ℕ = elim security [
        | none ↦ (hs, none)
        | some sid ↦ route_row sid row hs
      ] in
        AllKnown groups found.0 × KnownIf groups found.1
  routed-Known row hs k none = (k, tt)
  routed-Known row hs k (some sid) = route_row-Known sid row hs k

  route_step-Known :
      (s : Routing) (row : ActivityRow)
      → AllKnown groups s.holdings × Routed groups s.buckets
      → AllKnown groups (route_step s row).holdings × Routed groups (route_step s row).buckets
  unfolding route_step
  route_step-Known s row (k, r) =
      place-Known s row
        (elim row.security_id [
          | none ↦ (s.holdings, none)
          | some sid ↦ route_row sid row s.holdings
        ])
        r (routed-Known row s.holdings k row.security_id)

  route_rows-Known :
      (rows : List ActivityRow) (s : Routing)
      → AllKnown groups s.holdings × Routed groups s.buckets
      → Routed groups (route_rows s rows).buckets
  unfolding route_rows
  route_rows-Known [] s (k, r) = r
  route_rows-Known (row ∷ rows) s kr =
      route_rows-Known rows (route_step s row) (route_step-Known s row kr)

-- Every bucket of a routed cluster is that of an open group, and no group has two buckets.
pub route_cluster-Routed :
    (groups : List OpenGroup) (cluster : List ActivityRow)
    → Routed groups (route_cluster groups cluster).0
unfolding route_cluster
route_cluster-Routed groups cluster =
    route_rows-Known groups cluster
      (record { holdings = holdings_of groups; buckets = []; rest = [] })
      (holdings_of-AllKnown groups, tt)
