-- ===== src/Repositories/Balances.antt =====
-- Account seeding and balance snapshots (tt_ledger/repositories/__init__.py, `ensure_account` and
-- `BalanceRepository`). `clock` is a reading of the clock.
use tt_ledger.Base.{String, Option, none, some, List, ◌∷◌, get_or_else, if◌then◌else◌, any_of}
use tt_ledger.Base.Text.{str_eq}
use tt_ledger.Rows.Units.{Instant}
use tt_ledger.Accounts.{AccountMapper, to_account_number, login_for, env_for}
use tt_ledger.Broker.{BalanceMessage}
use tt_ledger.Store.Memory.{InMemoryStore, upsert_account, upsert_balance_snapshot}

-- the store and the set of accounts that are seeded; `none` is a nickname without a number
unfoldable pub ensure_account :
    InMemoryStore → AccountMapper → String → List String → Option (InMemoryStore × List String)
ensure_account store accounts nickname cache =
    if any_of (str_eq nickname) cache
    then some (store, cache)
    else elim (to_account_number accounts nickname) [
      | none ↦ none
      | some number ↦ some (
        upsert_account store (record {
          nickname = nickname;
          account_number = number;
          login = some (get_or_else (login_for accounts nickname) "");
          env = env_for accounts nickname;
          source_system = "tastytrade";
        }),
        nickname ∷ cache,
      )
    ]

unfoldable pub record_balance :
    InMemoryStore → Instant → BalanceMessage → String → String → InMemoryStore
record_balance store clock msg account source = upsert_balance_snapshot store (record {
  account = account;
  captured_at = get_or_else msg.captured_at clock;
  source = source;
  net_liquidating_value = msg.net_liquidating_value;
  cash_balance = msg.cash_balance;
  equity_buying_power = msg.equity_buying_power;
  derivative_buying_power = msg.derivative_buying_power;
  maintenance_requirement = msg.maintenance_requirement;
  pending_cash = msg.pending_cash;
  day_trading_buying_power = msg.day_trading_buying_power;
  raw = some msg.raw;
})
