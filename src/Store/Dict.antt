-- ===== src/Store/Dict.antt =====
-- A keyed table as a dict (tt_ledger/store/memory.py, `_Table`).
use tt_ledger.Base.{
  ◌≡◌, refl, sym, ap, ◌∙◌, Option, some, List, [], ◌∷◌, if◌then◌else◌, inl, inr, Option-cases,
  Bool-cases, eqb, false, arith,
}
use tt_ledger.Base.Assoc.{Eq, Assoc, lookup, insert, id_eq, lookup-insert}
use tt_ledger.Store.Table.{Table, empty_table, get_by_key, upsert_keyed, upsert}
use tt_ledger.Store.Keys.{IsIndexed, IsIndexed-empty_table, upsert-IsIndexed, upsert-get_by_key}

module _ {K R : Type 0} ⦃e : Eq K⦄ (key : R → K) where
  -- The table after some upserts, and the dict after the same assignments.
  abbrev pub upserts : Table K R → List R → Table K R
  upserts t [] = t
  upserts t (row ∷ rows) = upserts (upsert (λ r. some (key r)) t row).0 rows

  abbrev pub assigned : Assoc K R → List R → Assoc K R
  assigned d [] = d
  assigned d (row ∷ rows) = assigned (insert (key row) row d) rows

  -- another key's row
  other_key :
      (t : Table K R) (v : IsIndexed (λ r. some (key r)) t) (row : R) (k : K)
      → e.beq (key row) k ≡ false
      → get_by_key (upsert (λ r. some (key r)) t row).0 k ≡ get_by_key t k
  unfolding upsert get_by_key
  other_key t v row k other = elim (Option-cases (lookup (key row) t.index)) [
    | inl fresh ↦
        rw (fresh, upsert_keyed, get_by_key, lookup-insert (key row) k t.next_id t.index, other)
          (elim (Option-cases (lookup k t.index)) [
            | inl absent ↦ rw (get_by_key, absent) refl
            | inr (i, held) ↦
                let (r, p, q) = v.sound k i held in
                rw
                  (
                    get_by_key,
                    held,
                    upsert,
                    fresh,
                    upsert_keyed,
                    lookup-insert t.next_id i row t.rows,
                  )
                  (ground (arith, v.below i r p))
          ])
    | inr (row_id, found) ↦
        rw (found, upsert_keyed, get_by_key)
          (elim (Option-cases (lookup k t.index)) [
            | inl absent ↦ rw (get_by_key, absent) refl
            | inr (i, held) ↦
                let (r, p, q) = v.sound k i held in
                let (old, at, old_key) = v.sound (key row) row_id found in
                rw
                  (get_by_key, held, upsert, found, upsert_keyed, lookup-insert row_id i row t.rows)
                  (elim (Bool-cases (eqb row_id i)) [
                    | inl same ↦ absurd (ground (arith, p, q, at, old_key, e.beq_iff (key row) k))
                    | inr apart ↦ rw apart refl
                  ])
          ])
  ]

  -- what one upsert does to every key
  pub get_by_key-upsert :
      (t : Table K R) (v : IsIndexed (λ r. some (key r)) t) (row : R) (k : K)
      → get_by_key (upsert (λ r. some (key r)) t row).0 k
        ≡ (if e.beq (key row) k then some row else get_by_key t k)
  get_by_key-upsert t v row k = elim (Bool-cases (e.beq (key row) k)) [
    | inl same ↦
        rw (same, ← (e.beq_iff (key row) k).0 same)
          (upsert-get_by_key (λ r. some (key r)) t row (key row) 0 refl).0
    | inr other ↦ rw other (other_key t v row k other)
  ]

  refines_rows :
      (rows : List R) (t : Table K R) (d : Assoc K R)
      → IsIndexed (λ r. some (key r)) t
      → ((k : K) → get_by_key t k ≡ lookup k d)
      → (k : K) → get_by_key (upserts t rows) k ≡ lookup k (assigned d rows)
  refines_rows [] t d v h k = h k
  refines_rows (row ∷ rows) t d v h k =
      refines_rows rows (upsert (λ r. some (key r)) t row).0 (insert (key row) row d)
        (upsert-IsIndexed (λ r. some (key r)) t v row)
        (λ j.
          get_by_key-upsert t v row j
          ∙ ap (λ (o : Option R). if e.beq (key row) j then some row else o) (h j)
          ∙ sym (lookup-insert (key row) j row d))
        k

  -- Whatever rows are upserted into an empty table, in whatever order and with whatever keys
  -- repeated, each key finds the row that a dict has under it after the same assignments.
  pub upserts-assigned :
      (rows : List R) (k : K)
      → get_by_key (upserts empty_table rows) k ≡ lookup k (assigned [] rows)
  unfolding get_by_key lookup
  upserts-assigned rows k =
      refines_rows rows empty_table [] (IsIndexed-empty_table (λ r. some (key r))) (λ j. refl) k
