-- ===== src/Store/Regrouped.antt =====
-- What attaching transactions to groups may change (tt_ledger/store/memory.py,
-- `attach_transactions_to_trade_group`): the group of the transactions that it names, and no more.
use tt_ledger.Base.{
  ℕ, String, Bool, true, false, none, List, [], ◌∷◌, ◌≡◌, ◌⊎◌, refl, sym, ap, subst, ◌∙◌, inl, inr,
  is_some, any_of, Bool-cases, arith,
}
use tt_ledger.Base.Assoc.{Assoc, text_eq}
use tt_ledger.Base.Text.{str_eq}
use tt_ledger.Rows.{TxnRow}
use tt_ledger.Store.Links.{relink, attached_txn}

-- `name in names`
abbrev pub listed : String → List String → Bool
listed name names = any_of (str_eq name) names

-- A row may have got a group where its id is listed; it is the same otherwise, and it keeps being
-- in a group.
pub record MayRegroup (names : List String) (t u : TxnRow) : Type 0 where
  pub same : u ≡ record t { trade_group_id = u.trade_group_id }
  pub named : (listed t.tt_transaction_id names ≡ true) ⊎ (u.trade_group_id ≡ t.trade_group_id)
  pub stays : (t.trade_group_id ≡ none) ⊎ (is_some u.trade_group_id ≡ true)

-- The rows under the same ids in the same order, each as it may be regrouped.
abbrev pub Regrouped : List String → Assoc ℕ TxnRow → Assoc ℕ TxnRow → Type 0
Regrouped names [] [] = Unit
Regrouped names ((i, t) ∷ before) ((j, u) ∷ after) =
    (i ≡ j) × MayRegroup names t u × Regrouped names before after
Regrouped names _ _ = ⊥

-- Every row whose id is listed is in a group.
abbrev pub Grouped : List String → Assoc ℕ TxnRow → Type 0
Grouped names [] = Unit
Grouped names ((_, t) ∷ rows) =
    ((listed t.tt_transaction_id names ≡ false) ⊎ (is_some t.trade_group_id ≡ true))
    × Grouped names rows

pub MayRegroup-refl : (names : List String) (t : TxnRow) → MayRegroup names t t
MayRegroup-refl names t = record { same = refl; named = inr refl; stays = ground arith }

pub MayRegroup-id :
    (names : List String) (t u : TxnRow)
    → MayRegroup names t u
    → u.tt_transaction_id ≡ t.tt_transaction_id
MayRegroup-id names t u p = ap (λ (r : TxnRow). r.tt_transaction_id) p.same

pub MayRegroup-trans :
    (names : List String) (t u v : TxnRow)
    → MayRegroup names t u
    → MayRegroup names u v
    → MayRegroup names t v
MayRegroup-trans names t u v p q = record {
  same = rw (q.same, p.same) refl;
  named = elim q.named [
    | inl l ↦ inl (subst (λ n. listed n names ≡ true) (MayRegroup-id names t u p) l)
    | inr e ↦ elim p.named [ inl l ↦ inl l | inr e' ↦ inr (e ∙ e') ]
  ];
  stays = ground (arith, p.stays, q.stays);
}

pub Regrouped-refl : (names : List String) (rows : Assoc ℕ TxnRow) → Regrouped names rows rows
Regrouped-refl names [] = tt
Regrouped-refl names ((i, t) ∷ rows) = (refl, MayRegroup-refl names t, Regrouped-refl names rows)

pub Regrouped-trans :
    (names : List String) (a b c : Assoc ℕ TxnRow)
    → Regrouped names a b
    → Regrouped names b c
    → Regrouped names a c
Regrouped-trans names [] [] [] p q = tt
Regrouped-trans names ((i, t) ∷ a) ((j, u) ∷ b) ((k, v) ∷ c) (e, m, p) (f, n, q) =
    (ground arith, MayRegroup-trans names t u v m n, Regrouped-trans names a b c p q)
Regrouped-trans names [] [] (_ ∷ _) p q = absurd q
Regrouped-trans names [] (_ ∷ _) c p q = absurd p
Regrouped-trans names (_ ∷ _) [] c p q = absurd p
Regrouped-trans names (_ ∷ _) (_ ∷ _) [] p q = absurd q

-- A row in a group keeps being in one.
pub Regrouped-Grouped :
    (names held : List String) (a b : Assoc ℕ TxnRow)
    → Regrouped names a b
    → Grouped held a
    → Grouped held b
Regrouped-Grouped names held [] [] r g = tt
Regrouped-Grouped names held ((i, t) ∷ a) ((j, u) ∷ b) (e, m, r) (h, g) = (
  elim h [
    | inl out ↦ inl (subst (λ n. listed n held ≡ false) (sym (MayRegroup-id names t u m)) out)
    | inr in_group ↦ inr (ground (arith, m.stays))
  ],
  Regrouped-Grouped names held a b r g,
)
Regrouped-Grouped names held [] (_ ∷ _) r g = absurd r
Regrouped-Grouped names held (_ ∷ _) [] r g = absurd r

-- all of some ids are among others
abbrev pub Among : List String → List String → Type 0
Among names others = (name : String) → listed name names ≡ true → listed name others ≡ true

module _ (names ids : List String) (group : ℕ) (among : Among ids names) where
  -- Attaching rows regroups none but those that are named.
  pub attach-Regrouped :
      (rows : Assoc ℕ TxnRow) → Regrouped names rows (relink (attached_txn ids group) rows).0
  unfolding relink attached_txn
  attach-Regrouped [] = tt
  attach-Regrouped ((i, t) ∷ rows) = elim (Bool-cases (listed t.tt_transaction_id ids)) [
    | inl named ↦
        rw (named, Regrouped)
          (
            refl,
            record { same = refl; named = inl (among t.tt_transaction_id named); stays = inr refl },
            attach-Regrouped rows,
          )
    | inr out ↦ rw (out, Regrouped) (refl, MayRegroup-refl names t, attach-Regrouped rows)
  ]

-- Afterwards every row that was named is in a group.
pub attach-Grouped :
    (ids : List String) (group : ℕ) (rows : Assoc ℕ TxnRow)
    → Grouped ids (relink (attached_txn ids group) rows).0
unfolding relink attached_txn
attach-Grouped ids group [] = tt
attach-Grouped ids group ((i, t) ∷ rows) = elim (Bool-cases (listed t.tt_transaction_id ids)) [
  | inl named ↦ rw (named, Grouped) (inr refl, attach-Grouped ids group rows)
  | inr out ↦ rw (out, Grouped) (inl out, attach-Grouped ids group rows)
]
