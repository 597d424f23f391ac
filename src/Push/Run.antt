-- ===== src/Push/Run.antt =====
-- The consumer's loop (tt_ledger/ingest/push.py, `StreamConsumer.run` and `_apply_position`). The
-- transport is outside: what it yields is a list, each message with the readings of the clock and
-- whether `stop` was called before it came.
use tt_ledger.Base.{Bool, none, some, List, [], ◌∷◌, get_or_else, if◌then◌else◌}
use tt_ledger.Rows.Units.{Instant}
use tt_ledger.Accounts.{to_nickname}
use tt_ledger.Broker.{BrokerPosition, BalanceMessage, FillEvent}
use tt_ledger.Repositories.Balances.{ensure_account}
use tt_ledger.Repositories.Securities.{SecurityResolver}
use tt_ledger.Repositories.Snapshots.{import_positions}
use tt_ledger.Push.{StreamConsumer, apply_fill, apply_balance}

pub data Message : Type 0 where
  fill : FillEvent → Message
  position : BrokerPosition → Message
  balance : BalanceMessage → Message

pub record Arrival : Type 0 where
  pub message : Message
  pub is_stopped : Bool
  pub clock : Instant
  pub clock' : Instant

module _ (resolve : SecurityResolver) where
  -- an error ends the method; what it wrote before stays
  unfoldable pub apply_position : StreamConsumer → BrokerPosition → StreamConsumer
  apply_position c pos = elim (to_nickname c.accounts pos.account_number) [
    | none ↦ c
    | some account ↦ elim (ensure_account c.store c.accounts account c.ensured_accounts) [
      | none ↦ c
      | some (store, ensured) ↦ record c {
        store = (import_positions resolve store (pos ∷ []) account).0;
        ensured_accounts = ensured;
      }
    ]
  ]

  -- one message: an error is logged, and the message is passed over
  unfoldable pub apply_message : StreamConsumer → Arrival → StreamConsumer
  unfolding apply_position
  apply_message c arrival = elim arrival.message [
    | fill evt ↦ (apply_fill c evt).0
    | position pos ↦ apply_position c pos
    | balance msg ↦ get_or_else (apply_balance c arrival.clock arrival.clock' msg) c
  ]

  -- until it is stopped or the source ends
  unfoldable pub run : StreamConsumer → List Arrival → StreamConsumer
  unfolding apply_message
  run c [] = c
  run c (arrival ∷ arrivals) =
      let rest = run (apply_message c arrival) arrivals in if arrival.is_stopped then c else rest
