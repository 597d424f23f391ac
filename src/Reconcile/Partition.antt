-- ===== src/Reconcile/Partition.antt =====
-- A routed cluster is a partition of its rows, and drawing down never takes a group through zero
-- (tt_ledger/ingest/reconcile.py, `_route_cluster`).
use mathlib.Core.List.{Perm, perm_middle}
use mathlib.Core.List.Perm
use tt_ledger.Base.{
  ℕ, String, ◌≡◌, refl, sym, subst, Option, none, some, List, [], ◌∷◌, ◌++◌, if◌then◌else◌,
  append_assoc, append-nil, inl, inr, Bool-cases, eqb, or_option, arith,
}
use tt_ledger.Base.Assoc.{Assoc, lookup, insert, append_at, id_eq, text_eq}
use tt_ledger.Base.Int.{pos, leb_ℤ, abs, min_ℤ, ◌-ℤ◌}
use tt_ledger.Rows.{ActivityRow}
use tt_ledger.Rows.Units.{Quantity}
use tt_ledger.Reconcile.Nets.{net_at, clamp_close}
use tt_ledger.Reconcile.Clamp.{Shrinks, clamp_close-Shrinks, net_at-insert}
use tt_ledger.Reconcile.Route.{
  OpenGroup, Holding, Routing, holdings_of, passes_over, drawn, draw_down, place, route_row,
  route_step, route_rows, route_cluster,
}

-- the rows of all buckets
abbrev pub bucket_rows : Assoc ℕ (List ActivityRow) → List ActivityRow
bucket_rows [] = []
bucket_rows ((pk, rows) ∷ d) = rows ++ bucket_rows d

pub append_at-cons :
    (pk k : ℕ) (row : ActivityRow) (rows : List ActivityRow) (d : Assoc ℕ (List ActivityRow))
    → append_at pk row ((k, rows) ∷ d)
      ≡ (if eqb k pk then (k, rows ++ row ∷ []) ∷ d else (k, rows) ∷ append_at pk row d)
unfolding lookup insert
append_at-cons pk k row rows d = elim (Bool-cases (eqb k pk)) [
  | inl here ↦ ground arith
  | inr later ↦ ground arith
]

pub append_at-perm :
    (pk : ℕ) (row : ActivityRow) (d : Assoc ℕ (List ActivityRow))
    → Perm (bucket_rows (append_at pk row d)) (row ∷ bucket_rows d)
unfolding lookup insert
append_at-perm pk row [] = Perm.refl (row ∷ [])
append_at-perm pk row ((k, rows) ∷ d) =
    subst (λ l. Perm (bucket_rows l) (row ∷ (rows ++ bucket_rows d)))
      (sym (append_at-cons pk k row rows d))
      (elim (Bool-cases (eqb k pk)) [
        | inl here ↦
            rw here
              (rw (append_assoc rows (row ∷ []) (bucket_rows d)) (perm_middle rows (bucket_rows d)))
        | inr later ↦ rw later (
            Perm.trans (Perm.append (Perm.refl rows) (append_at-perm pk row d))
              (perm_middle rows (bucket_rows d)))
      ])

-- all rows that were placed
abbrev pub placed : Routing → List ActivityRow
placed s = bucket_rows s.buckets ++ s.rest

place-perm :
    (s : Routing) (row : ActivityRow) (found : List Holding × Option ℕ)
    → Perm (placed (place s row found)) (row ∷ placed s)
unfolding place
place-perm s row (holdings, none) = rw (← append_assoc (bucket_rows s.buckets) s.rest (row ∷ [])) (
    Perm.trans (perm_middle (placed s) [])
      (rw (append-nil (placed s)) (Perm.refl (row ∷ placed s))))
place-perm s row (holdings, some pk) =
    Perm.append (append_at-perm pk row s.buckets) (Perm.refl s.rest)

route_rows-perm :
    (s : Routing) (rows : List ActivityRow) → Perm (placed (route_rows s rows)) (placed s ++ rows)
unfolding route_rows route_step
route_rows-perm s [] = rw (append-nil (placed s)) (Perm.refl (placed s))
route_rows-perm s (row ∷ rows) = Perm.trans (route_rows-perm (route_step s row) rows) (
    Perm.trans
      (Perm.append
        (place-perm s row (elim row.security_id [
          | none ↦ (s.holdings, none)
          | some sid ↦ route_row sid row s.holdings
        ]))
        (Perm.refl rows))
      (Perm.symm (perm_middle (placed s) rows)))

-- Every row of a cluster goes to exactly one bucket or to the rest, and nothing else goes there.
pub route_cluster-perm :
    (groups : List OpenGroup) (cluster : List ActivityRow)
    → let (buckets, rest) = route_cluster groups cluster in
      Perm (bucket_rows buckets ++ rest) cluster
unfolding route_cluster
route_cluster-perm groups cluster =
    route_rows-perm (record { holdings = holdings_of groups; buckets = []; rest = [] }) cluster

-- The groups stay the same, and each net of each group shrinks towards zero or stays.
abbrev pub AllShrink : List Holding → List Holding → Type 0
AllShrink [] [] = Unit
AllShrink (h ∷ hs) (h' ∷ hs') =
    (h'.group ≡ h.group)
    × ((sid : String) → Shrinks (net_at h.nets sid) (net_at h'.nets sid))
    × AllShrink hs hs'
AllShrink _ _ = ⊥

AllShrink-refl : (hs : List Holding) → AllShrink hs hs
AllShrink-refl [] = tt
AllShrink-refl (h ∷ hs) = (refl, (λ sid. (omega arith, omega arith)), AllShrink-refl hs)

drawn-Shrinks :
    (sid j : String) (left : Quantity) (h : Holding)
    → Shrinks (net_at h.nets j) (net_at (drawn sid left h).nets j)
unfolding drawn
drawn-Shrinks sid j left h =
    rw (net_at-insert h.nets sid j (clamp_close (net_at h.nets sid) left))
      (elim (Bool-cases (text_eq.beq sid j)) [
        | inl same ↦
            rw (same, ← (text_eq.beq_iff sid j).0 same)
              (clamp_close-Shrinks (net_at h.nets sid) left)
        | inr other ↦ rw other (omega arith, omega arith)
      ])

-- Drawing a close down takes each group's net towards zero and never past it, whatever the
-- quantity of the close and however many groups it covers.
pub draw_down-AllShrink :
    (sid : String) (left : Quantity) (delta : Option Quantity) (first : Option ℕ)
    (hs : List Holding)
    → AllShrink hs (draw_down sid left delta first hs).0
unfolding draw_down drawn
draw_down-AllShrink sid left delta first [] = tt
draw_down-AllShrink sid left delta first (h ∷ hs) =
    let left' = left -ℤ min_ℤ left (abs (net_at h.nets sid)) in
    let first' = or_option first (some h.group.pk) in
    elim (Bool-cases (passes_over (net_at h.nets sid) delta)) [
      | inl skip ↦
          rw skip
            (refl, (λ j. (omega arith, omega arith)), draw_down-AllShrink sid left delta first hs)
      | inr draws ↦ elim (Bool-cases (leb_ℤ left' (pos 0))) [
        | inl spent ↦ rw (draws, spent) (refl, (λ j. drawn-Shrinks sid j left h), AllShrink-refl hs)
        | inr more ↦
            rw (draws, more)
              (
                refl,
                (λ j. drawn-Shrinks sid j left h),
                draw_down-AllShrink sid left' delta first' hs,
              )
      ]
    ]
