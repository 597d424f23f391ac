-- ===== src/Remap/Replaced.antt =====
-- The header of one group in the place of another (tt_ledger/ingest/remap.py).
use tt_ledger.Base.{
  String, Bool, true, none, some, ◌≡◌, refl, sym, ap, subst, ◌∙◌, inl, inr, if◌then◌else◌,
  Option-cases, arith,
}
use tt_ledger.Base.Assoc.{lookup, text_eq, id_eq}
use tt_ledger.Base.Text.{str_eq, eq_iff}
use tt_ledger.Rows.{TradeGroupRow, TradeRow}
use tt_ledger.Store.Table.{Table, get_by_key}
use tt_ledger.Store.Keys.{IsIndexed}
use tt_ledger.Store.Dict.{get_by_key-upsert}
use tt_ledger.Store.Memory.{InMemoryStore, upsert_trade_group}
use tt_ledger.Store.Reads.{get_trade_group, trade_group_to_row}
use tt_ledger.Reconcile.Stamped.{group_key}
use tt_ledger.Remap.Edits.{Edited, edited, refused}

-- The groups by name, with the one of the given name replaced.
abbrev pub Replaces : String → TradeGroupRow → InMemoryStore → InMemoryStore → Type 0
Replaces group_id new before after =
    (name : String)
    → get_trade_group after name
      ≡ (if str_eq group_id name then some new else get_trade_group before name)

-- An edit of the group of a name. A refused one leaves the store as it was, and is refused only
-- where it may be. One that is made is allowed; the group is there before and after, changed as the
-- edit says, and its row is returned; the other groups and the transactions are as they were.
abbrev pub IsWhole :
    InMemoryStore
    → String
    → Type 0
    → Type 0
    → (TradeGroupRow → TradeGroupRow → Type 0)
    → Edited TradeRow
    → Type 0
IsWhole store group_id Refuses Allows Changed (refused store' why) = (store' ≡ store) × Refuses
IsWhole store group_id Refuses Allows Changed (edited store' row) =
    Allows
    × ((old : TradeGroupRow) × ((new : TradeGroupRow) × ((get_trade_group store group_id ≡ some old)
            × (get_trade_group store' group_id ≡ some new)
            × (Replaces group_id new store store')
            × (Changed old new)
            × (row ≡ trade_group_to_row new)
            × (store'.transactions ≡ store.transactions))))

-- the group of the name is not there
abbrev pub IsMissing : InMemoryStore → String → Type 0
IsMissing store group_id = get_trade_group store group_id ≡ none

get_trade_group-name :
    (store : InMemoryStore) (group_id : String) (tg : TradeGroupRow)
    → IsIndexed group_key store.trade_groups
    → get_trade_group store group_id ≡ some tg
    → tg.group_id ≡ group_id
unfolding get_trade_group get_by_key
get_trade_group-name store group_id tg v found =
    elim (Option-cases (lookup group_id store.trade_groups.index)) [
      | inl missing ↦ ground (arith, missing, found)
      | inr (i, known) ↦
          let (r, at, named) = v.sound group_id i known in ground (arith, known, found, at, named)
    ]

get_trade_group-upsert :
    (store : InMemoryStore) (tg : TradeGroupRow) (name : String)
    → IsIndexed group_key store.trade_groups
    → get_trade_group (upsert_trade_group store tg).0 name
      ≡ (if str_eq tg.group_id name then some tg else get_trade_group store name)
unfolding get_trade_group upsert_trade_group
get_trade_group-upsert store tg name v =
    get_by_key-upsert (λ (r : TradeGroupRow). r.group_id) store.trade_groups v tg name

-- a stored header that takes the place of the one with its name
pub upserted-IsWhole :
    (store after : InMemoryStore) (group_id : String) (Refuses Allows : Type 0)
    (Changed : TradeGroupRow → TradeGroupRow → Type 0) (old new : TradeGroupRow)
    → IsIndexed group_key store.trade_groups
    → get_trade_group store group_id ≡ some old
    → new.group_id ≡ old.group_id
    → Allows
    → Changed old new
    → after.trade_groups ≡ (upsert_trade_group store new).0.trade_groups
    → after.transactions ≡ store.transactions
    → IsWhole store group_id Refuses Allows Changed (edited after (trade_group_to_row new))
unfolding get_trade_group
upserted-IsWhole store after group_id Refuses Allows Changed old new v found same allows changed
      groups txns =
    let named = same ∙ get_trade_group-name store group_id old v found in
    let reads = λ (name : String).
      ap (λ (t : Table String TradeGroupRow). get_by_key t name) groups
      ∙ get_trade_group-upsert store new name v in
    let own = λ (name : String) (b : Bool) (e : str_eq new.group_id name ≡ b).
      reads name ∙ ap (λ t. if t then some new else get_by_key store.trade_groups name) e in
    (
      allows,
      (
        old,
        (
          new,
          (
            found,
            own group_id true ((eq_iff new.group_id group_id).1 named),
            λ name. own name (str_eq group_id name) (ap (λ (n : String). str_eq n name) named),
            changed,
            refl,
            txns,
          ),
        ),
      ),
    )

-- an edit, described by what it is equal to
pub as_outcome :
    (store : InMemoryStore) (group_id : String) (Refuses Allows : Type 0)
    (Changed : TradeGroupRow → TradeGroupRow → Type 0) (a b : Edited TradeRow)
    → a ≡ b
    → IsWhole store group_id Refuses Allows Changed b
    → IsWhole store group_id Refuses Allows Changed a
as_outcome store group_id Refuses Allows Changed a b e h =
    subst (IsWhole store group_id Refuses Allows Changed) (sym e) h
