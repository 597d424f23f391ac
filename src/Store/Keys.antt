-- ===== src/Store/Keys.antt =====
-- A table's rows and its index agree, and every upsert keeps it so (tt_ledger/store/memory.py).
use tt_ledger.Base.{
  ℕ, ◌+◌, ◌<◌, ◌≡◌, get_or_else, is_some, if◌then◌else◌, Option, none, some, inl, inr, Option-cases,
  Bool-cases, eqb, arith,
}
use tt_ledger.Base.Assoc.{Eq, lookup, insert, id_eq, lookup-insert, lookup-insert_self}
use tt_ledger.Store.Table.{
  Table, empty_table, insert_row, get, id_of, get_by_key, upsert_keyed, upsert,
}

-- Ids below the next one; the index leads to the row with that key, and leads to each keyed row.
pub record IsIndexed {K R : Type 0} ⦃e : Eq K⦄ (key : R → Option K) (t : Table K R) : Type 0 where
  pub below : (i : ℕ) (r : R) → lookup i t.rows ≡ some r → i < t.next_id
  pub sound :
      (k : K) (i : ℕ)
      → lookup k t.index ≡ some i
      → (r : R) × (lookup i t.rows ≡ some r) × (key r ≡ some k)
  pub complete :
      (i : ℕ) (r : R) (k : K)
      → lookup i t.rows ≡ some r
      → key r ≡ some k
      → lookup k t.index ≡ some i

module _ {K R : Type 0} ⦃e : Eq K⦄ (key : R → Option K) where
  pub IsIndexed-empty_table : IsIndexed key empty_table
  unfolding lookup
  IsIndexed-empty_table = record {
    below = λ i r h. cc;
    sound = λ k i h. cc;
    complete = λ i r k h g. cc;
  }

  module _ (t : Table K R) (v : IsIndexed key t) (row : R) where
    -- an id in use is not the next one
    still_there :
        (k : K) (i : ℕ)
        → lookup k t.index ≡ some i
        → (r : R) × (lookup i (insert t.next_id row t.rows) ≡ some r) × (key r ≡ some k)
    still_there k i h =
        let (r, p, q) = v.sound k i h in
        (r, ground (arith, lookup-insert t.next_id i row t.rows, v.below i r p), q)

    insert_row-IsIndexed : key row ≡ none → IsIndexed key (insert_row t row).0
    unfolding insert_row
    insert_row-IsIndexed nk = record {
      below = λ i r h. ground (arith, v.below i r, lookup-insert t.next_id i row t.rows);
      sound = λ k i h. still_there k i h;
      complete =
          λ i r k h g. ground (arith, v.complete i r k, lookup-insert t.next_id i row t.rows);
    }

    new_key-IsIndexed :
        (k : K)
        → key row ≡ some k
        → lookup k t.index ≡ none
        → IsIndexed key (upsert_keyed t k row).0
    unfolding upsert_keyed
    new_key-IsIndexed k ek fresh =
        rw (fresh, upsert_keyed)
          (record {
            below = λ i r h. ground (arith, v.below i r, lookup-insert t.next_id i row t.rows);
            sound = λ j i h. elim (Bool-cases (e.beq k j)) [
              | inl same ↦ (
                row,
                ground (
                  arith,
                  lookup-insert k j t.next_id t.index,
                  lookup-insert t.next_id i row t.rows,
                ),
                ground (arith, e.beq_iff k j),
              )
              | inr other ↦ still_there j i (ground (arith, lookup-insert k j t.next_id t.index))
            ];
            complete = λ i r j h g. ground (
              arith,
              v.complete i r j,
              lookup-insert t.next_id i row t.rows,
              lookup-insert k j t.next_id t.index,
              e.beq_iff k j,
            );
          })

    old_key-IsIndexed :
        (k : K) (row_id : ℕ)
        → key row ≡ some k
        → lookup k t.index ≡ some row_id
        → IsIndexed key (upsert_keyed t k row).0
    unfolding upsert_keyed
    old_key-IsIndexed k row_id ek found =
        let (old, at, old_key) = v.sound k row_id found in
        rw (found, upsert_keyed)
          (record {
            below = λ i r h.
                ground
                  (arith, v.below i r, v.below row_id old at, lookup-insert row_id i row t.rows);
            sound = λ j i h. elim (Bool-cases (eqb row_id i)) [
              | inl same ↦ (
                row,
                ground (arith, lookup-insert row_id i row t.rows),
                let (r, p, q) = v.sound j i h in ground (arith, p, q, at, old_key),
              )
              | inr other ↦
                  let (r, p, q) = v.sound j i h in
                  (r, ground (arith, lookup-insert row_id i row t.rows), q)
            ];
            complete =
                λ i r j h g. ground (arith, v.complete i r j, lookup-insert row_id i row t.rows);
          })

    -- An upsert keeps the rows and the index in agreement, whether the row has a key or not and
    -- whether its key is new or known.
    pub upsert-IsIndexed : IsIndexed key (upsert key t row).0
    unfolding upsert
    upsert-IsIndexed = elim (Option-cases (key row)) [
      | inl nk ↦ rw (nk, upsert) (insert_row-IsIndexed nk)
      | inr (k, ek) ↦ elim (Option-cases (lookup k t.index)) [
        | inl fresh ↦ rw (ek, upsert) (new_key-IsIndexed k ek fresh)
        | inr (row_id, found) ↦ rw (ek, upsert) (old_key-IsIndexed k row_id ek found)
      ]
    ]

module _ {K R : Type 0} ⦃e : Eq K⦄ (key : R → Option K) (t : Table K R) (row : R) where
  -- A row with a key is read back by the key and by the id that the upsert returned, that id is
  -- the key's id before where it had one and the next id where it had none, only a new key takes
  -- an id, and every other id keeps its row.
  pub upsert-get_by_key :
      (k : K) (i : ℕ)
      → key row ≡ some k
      → let (t', row_id) = upsert key t row in
        (get_by_key t' k ≡ some row)
        × (get t' row_id ≡ some row)
        × (id_of t' k ≡ some row_id)
        × (row_id ≡ get_or_else (id_of t k) t.next_id)
        × (t'.next_id ≡ (if is_some (id_of t k) then t.next_id else t.next_id + 1))
        × (get t' i ≡ (if eqb row_id i then some row else get t i))
  unfolding upsert get_by_key get id_of
  upsert-get_by_key k i ek = elim (Option-cases (lookup k t.index)) [
    | inl fresh ↦
        rw (ek, upsert, fresh, upsert_keyed)
          (
            ground (
              arith,
              lookup-insert_self k t.next_id t.index,
              lookup-insert_self t.next_id row t.rows,
            ),
            lookup-insert_self t.next_id row t.rows,
            lookup-insert_self k t.next_id t.index,
            ground arith,
            ground arith,
            lookup-insert t.next_id i row t.rows,
          )
    | inr (row_id, found) ↦
        rw (ek, upsert, found, upsert_keyed)
          (
            ground
                (arith, lookup-insert_self k row_id t.index, lookup-insert_self row_id row t.rows),
            lookup-insert_self row_id row t.rows,
            found,
            ground arith,
            ground arith,
            lookup-insert row_id i row t.rows,
          )
  ]
