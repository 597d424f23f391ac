-- ===== src/Reconcile/Pending.antt =====
-- Which of the rows of a pass are still without a group (tt_ledger/ingest/reconcile.py): the lists
-- of rows that the pass hands from step to step, as lists of ids.
use mathlib.Core.List.{Perm, foldr}
use mathlib.Core.List.Perm
use mathlib.Core.Bool.{Bool-set}
use tt_ledger.Base.{
  ℕ, String, Bool, true, false, ◌||◌, none, List, [], ◌∷◌, ◌++◌, ◌≡◌, ◌⊎◌, refl, sym, ap, subst,
  ◌∙◌, is_some, Bool-cases, arith,
}
use tt_ledger.Base.Assoc.{Assoc}
use tt_ledger.Base.Text.{str_eq}
use tt_ledger.Rows.{ActivityRow, TxnRow}
use tt_ledger.Store.Regrouped.{listed, MayRegroup-id, Regrouped, Grouped, Among}
use tt_ledger.Reconcile.Exit.{ids_of}

pub listed-append :
    (name : String) (xs ys : List ActivityRow)
    → listed name (ids_of (xs ++ ys)) ≡ (listed name (ids_of xs) || listed name (ids_of ys))
listed-append name [] ys = refl
listed-append name (x ∷ xs) ys = ground (arith, listed-append name xs ys)

-- the test on the id of a row, as a step of a fold
unfoldable names_row : String → ActivityRow → Bool → Bool
names_row name row rest = str_eq name row.tt_transaction_id || rest

names_row_comm :
    (name : String) (x y : ActivityRow) (rest : Bool)
    → names_row name x (names_row name y rest) ≡ names_row name y (names_row name x rest)
unfolding names_row
names_row_comm name x y rest = ground arith

listed-foldr :
    (name : String) (xs : List ActivityRow)
    → listed name (ids_of xs) ≡ foldr (names_row name) false xs
unfolding names_row
listed-foldr name [] = refl
listed-foldr name (x ∷ xs) = ap (names_row name x) (listed-foldr name xs)

pub listed-Perm :
    (name : String) (xs ys : List ActivityRow)
    → Perm xs ys
    → listed name (ids_of xs) ≡ listed name (ids_of ys)
listed-Perm name xs ys p =
    listed-foldr name xs
    ∙ Perm.foldr-eq Bool-set (names_row name) (names_row_comm name) p false
    ∙ sym (listed-foldr name ys)

-- Every row that is named is in a group, or is among the rows that are left.
abbrev pub Pending : List String → List String → Assoc ℕ TxnRow → Type 0
Pending names left [] = Unit
Pending names left ((_, t) ∷ rows) =
    ((listed t.tt_transaction_id names ≡ false)
      ⊎ ((listed t.tt_transaction_id left ≡ true) ⊎ (is_some t.trade_group_id ≡ true)))
    × Pending names left rows

pub Pending-all : (names : List String) (rows : Assoc ℕ TxnRow) → Pending names names rows
Pending-all names [] = tt
Pending-all names ((i, t) ∷ rows) =
    (ground (arith, Bool-cases (listed t.tt_transaction_id names)), Pending-all names rows)

-- with nothing left, all are in groups
pub Pending-none :
    (names : List String) (rows : Assoc ℕ TxnRow) → Pending names [] rows → Grouped names rows
Pending-none names [] p = tt
Pending-none names ((i, t) ∷ rows) (h, p) = (ground (arith, h), Pending-none names rows p)

-- fewer are named, and more are left
pub Pending-weaken :
    (names named left more : List String) (rows : Assoc ℕ TxnRow)
    → Among named names
    → Among left more
    → Pending names left rows
    → Pending named more rows
Pending-weaken names named left more [] a b p = tt
Pending-weaken names named left more ((i, t) ∷ rows) a b (h, p) = (
  ground (
    arith,
    h,
    a t.tt_transaction_id,
    b t.tt_transaction_id,
    Bool-cases (listed t.tt_transaction_id named),
  ),
  Pending-weaken names named left more rows a b p,
)

pending_row :
    (names : List String) (before rows after : List ActivityRow) (t u : TxnRow)
    → u.tt_transaction_id ≡ t.tt_transaction_id
    → (t.trade_group_id ≡ none) ⊎ (is_some u.trade_group_id ≡ true)
    → (listed u.tt_transaction_id (ids_of rows) ≡ false) ⊎ (is_some u.trade_group_id ≡ true)
    → (listed t.tt_transaction_id names ≡ false)
      ⊎ ((listed t.tt_transaction_id (ids_of (before ++ (rows ++ after))) ≡ true)
          ⊎ (is_some t.trade_group_id ≡ true))
    → (listed u.tt_transaction_id names ≡ false)
      ⊎ ((listed u.tt_transaction_id (ids_of (before ++ after)) ≡ true)
          ⊎ (is_some u.trade_group_id ≡ true))
pending_row names before rows after t u same stays h q =
    rw (same, listed-append t.tt_transaction_id before after)
      (ground (
        arith,
        stays,
        subst (λ n. (listed n (ids_of rows) ≡ false) ⊎ (is_some u.trade_group_id ≡ true)) same h,
        q,
        listed-append t.tt_transaction_id before (rows ++ after),
        listed-append t.tt_transaction_id rows after,
      ))

-- Some of the rows that are left get their groups.
pub Pending-Grouped :
    (names held : List String) (before rows after : List ActivityRow) (a b : Assoc ℕ TxnRow)
    → Regrouped held a b
    → Grouped (ids_of rows) b
    → Pending names (ids_of (before ++ (rows ++ after))) a
    → Pending names (ids_of (before ++ after)) b
Pending-Grouped names held before rows after [] [] r g p = tt
Pending-Grouped names held before rows after ((i, t) ∷ a) ((j, u) ∷ b) (e, m, r) (h, g) (q, p) = (
  pending_row names before rows after t u (MayRegroup-id held t u m) m.stays h q,
  Pending-Grouped names held before rows after a b r g p,
)
Pending-Grouped names held before rows after [] (_ ∷ _) r g p = absurd r
Pending-Grouped names held before rows after (_ ∷ _) [] r g p = absurd r
