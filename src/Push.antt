-- ===== src/Push.antt =====
-- The stream consumer (tt_ledger/ingest/push.py): fills and the throttled balance series. The
-- consumer's maps are part of its state, and the hook is the list of messages that it was given.
pub mod Throttle
pub mod Run
use tt_ledger.Base.{
  ℕ, ◌+◌, String, Bool, true, false, not, ◌&&◌, ◌||◌, Option, none, some, List, [], ◌∷◌, ◌++◌,
  get_or_else, if◌then◌else◌, leb,
}
use tt_ledger.Base.Assoc.{Assoc, lookup, insert, text_eq}
use tt_ledger.Base.Int.{eqb_ℤ}
use tt_ledger.Rows.{OrderRow}
use tt_ledger.Rows.Units.{Instant, Cash}
use tt_ledger.Accounts.{AccountMapper, to_nickname}
use tt_ledger.Broker.{BalanceMessage, FillEvent}
use tt_ledger.Store.Memory.{InMemoryStore}
use tt_ledger.Repositories.Orders.{apply_fill_event}
use tt_ledger.Repositories.Balances.{ensure_account, record_balance}

pub record StreamConsumer : Type 0 where
  pub store : InMemoryStore
  pub accounts : AccountMapper
  pub has_hook : Bool
  pub persist_balances : Bool
  pub balance_min_interval : ℕ
  pub balance_last : Assoc String (Instant × Option Cash)
  pub ensured_accounts : List String
  pub forwarded : List BalanceMessage

unfoldable pub apply_fill : StreamConsumer → FillEvent → StreamConsumer × Option OrderRow
apply_fill c evt =
    let (store, updated) = apply_fill_event c.store evt in (record c { store = store }, updated)

abbrev pub same_cash : Option Cash → Option Cash → Bool
same_cash none none = true
same_cash (some a) (some b) = eqb_ℤ a b
same_cash _ _ = false

-- `due or nlv_changed`
unfoldable pub is_recorded : ℕ → Option (Instant × Option Cash) → Instant → Option Cash → Bool
is_recorded interval none now nlv = true
is_recorded interval (some (at, last_nlv)) now nlv =
    leb (at + interval) now || not (same_cash nlv last_nlv)

-- `if self._on_balance is not None: self._on_balance(msg)`
abbrev pub forward : StreamConsumer → BalanceMessage → StreamConsumer
forward c msg = if c.has_hook then record c { forwarded = c.forwarded ++ msg ∷ [] } else c

-- the account is seeded; `clock` and `clock'` are the readings of this method and of `record`
unfoldable pub note_balance :
    StreamConsumer → Instant → Instant → String → BalanceMessage → StreamConsumer
note_balance c clock clock' account msg =
    let now = get_or_else msg.captured_at clock in
    if is_recorded c.balance_min_interval (lookup account c.balance_last) now
      msg.net_liquidating_value
    then record c {
      store = record_balance c.store clock' msg account "stream";
      balance_last = insert account (now, msg.net_liquidating_value) c.balance_last;
    }
    else c

-- `none` is an error, which the consumer's loop logs and passes over
unfoldable pub apply_balance :
    StreamConsumer → Instant → Instant → BalanceMessage → Option StreamConsumer
unfolding note_balance
apply_balance c clock clock' msg =
    if c.persist_balances
    then elim (to_nickname c.accounts msg.account_number) [
      | none ↦ none
      | some account ↦ elim (ensure_account c.store c.accounts account c.ensured_accounts) [
        | none ↦ none
        | some (store, ensured) ↦
            let seeded : StreamConsumer = record c { store = store; ensured_accounts = ensured } in
            some (forward (note_balance seeded clock clock' account msg) msg)
      ]
    ]
    else some (forward c msg)
