-- ===== src/Store/Table.antt =====
-- `_Table` of the in-memory store (tt_ledger/store/memory.py): rows by surrogate id, and an index
-- from the natural key. `key` is the table's key function; `none` is "no natural key".
use tt_ledger.Base.{ℕ, ◌+◌, Option, none, some, []}
use tt_ledger.Base.Assoc.{Eq, Assoc, lookup, insert, id_eq}

pub record Table (K R : Type 0) : Type 0 where
  pub rows : Assoc ℕ R
  pub index : Assoc K ℕ
  pub next_id : ℕ

-- `__init__`
abbrev pub empty_table : {K R : Type 0} → Table K R
empty_table = record { rows = []; index = []; next_id = 1 }

module _ {K R : Type 0} where
  -- `insert`: a new row under the next id
  unfoldable pub insert_row : Table K R → R → Table K R × ℕ
  insert_row t row =
      (record t { rows = insert t.next_id row t.rows; next_id = t.next_id + 1 }, t.next_id)

  -- `get`
  unfoldable pub get : Table K R → ℕ → Option R
  get t row_id = lookup row_id t.rows

module _ {K R : Type 0} ⦃e : Eq K⦄ where
  -- `id_of`
  unfoldable pub id_of : Table K R → K → Option ℕ
  id_of t k = lookup k t.index

  -- `get_by_key`
  unfoldable pub get_by_key : Table K R → K → Option R
  get_by_key t k = elim (lookup k t.index) [ none ↦ none | some row_id ↦ lookup row_id t.rows ]

  -- `upsert` of a row whose key is known
  unfoldable pub upsert_keyed : Table K R → K → R → Table K R × ℕ
  upsert_keyed t k row = elim (lookup k t.index) [
    | none ↦ (
      record {
        rows = insert t.next_id row t.rows;
        index = insert k t.next_id t.index;
        next_id = t.next_id + 1;
      },
      t.next_id,
    )
    | some row_id ↦ (record t { rows = insert row_id row t.rows }, row_id)
  ]

  -- `upsert`
  unfoldable pub upsert : (R → Option K) → Table K R → R → Table K R × ℕ
  unfolding upsert_keyed insert_row
  upsert key t row = elim (key row) [ none ↦ insert_row t row | some k ↦ upsert_keyed t k row ]
