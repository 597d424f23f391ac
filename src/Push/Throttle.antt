-- ===== src/Push/Throttle.antt =====
-- What the throttle on balances keeps (tt_ledger/ingest/push.py, `_apply_balance`).
use tt_ledger.Base.{
  sym, subst, ℕ, ◌+◌, ◌<◌, String, true, false, Option, none, some, get_or_else, ◌≡◌, refl, ap,
  Bool-cases, inl, inr, arith, ◌∙◌, List, ◌∷◌, any_of,
}
use tt_ledger.Base.Text.{str_eq}
use tt_ledger.Rows.{BalanceSnapshotRow}
use tt_ledger.Store.Table.{Table, get, upsert}
use tt_ledger.Store.Keys.{upsert-get_by_key}
use tt_ledger.Store.Memory.{
  InMemoryStore, SnapshotKey, snapshot_key, snapshot_key_eq, upsert_account,
  upsert_balance_snapshot,
}
use tt_ledger.Base.Assoc.{lookup, text_eq, lookup-insert_self}
use tt_ledger.Base.Int.{eq_of_parts}
use tt_ledger.Rows.Units.{Instant, Cash}
use tt_ledger.Accounts.{AccountMapper, login_for, env_for, to_nickname, to_account_number}
use tt_ledger.Broker.{BalanceMessage}
use tt_ledger.Repositories.Balances.{ensure_account, record_balance}
use tt_ledger.Push.{StreamConsumer, is_recorded, note_balance, apply_balance, forward, same_cash}

-- `nlv` of the account's last row
abbrev pub last_nlv : StreamConsumer → String → Option (Option Cash)
last_nlv c account = elim (lookup account c.balance_last) [
  | none ↦ none
  | some (at, nlv) ↦ some nlv
]

same_cash_lem : (a b : Option Cash) → same_cash a b ≡ true → a ≡ b
same_cash_lem none none h = refl
same_cash_lem none (some b) h = cc
same_cash_lem (some a) none h = cc
same_cash_lem (some a) (some b) h = ground (arith, eq_of_parts a b)

is_recorded_skip :
    (interval : ℕ) (last : Option (Instant × Option Cash)) (now : Instant) (nlv : Option Cash)
    → is_recorded interval last now nlv ≡ false
    → (at : Instant) × (last ≡ some (at, nlv)) × (now < at + interval)
unfolding is_recorded
is_recorded_skip interval none now nlv h = cc
is_recorded_skip interval (some (at, old)) now nlv h =
    (at, ground (arith, same_cash_lem nlv old), ground arith)

same_cash_refl : (a : Option Cash) → same_cash a a ≡ true
same_cash_refl none = refl
same_cash_refl (some a) = ground arith

early_is_skipped :
    (interval : ℕ) (at now : Instant) (nlv : Option Cash)
    → now < at + interval
    → is_recorded interval (some (at, nlv)) now nlv ≡ false
unfolding is_recorded
early_is_skipped interval at now nlv early = ground (arith, same_cash_refl nlv)

-- a stored snapshot of the account, from the stream, with the value
abbrev pub IsRecorded : Table SnapshotKey BalanceSnapshotRow → String → Option Cash → Type 0
IsRecorded snapshots account nlv =
    (i : ℕ) × ((row : BalanceSnapshotRow) × ((get snapshots i ≡ some row)
        × ((row.account ≡ account)
            × ((row.source ≡ "stream") × (row.net_liquidating_value ≡ nlv)))))

-- the value that is remembered of the account, if any, is in the store
abbrev pub IsBacked : Table SnapshotKey BalanceSnapshotRow → String → Option (Option Cash) → Type 0
IsBacked snapshots account none = Unit
IsBacked snapshots account (some nlv) = IsRecorded snapshots account nlv

-- what the throttle remembers of the account is in the store
abbrev pub IsTruthful : StreamConsumer → String → Type 0
IsTruthful c account = IsBacked c.store.balance_snapshots account (last_nlv c account)

upsert_balance_snapshot-IsRecorded :
    (store : InMemoryStore) (row : BalanceSnapshotRow)
    → row.source ≡ "stream"
    → IsRecorded
        (upsert_balance_snapshot store row).balance_snapshots
        row.account
        row.net_liquidating_value
unfolding upsert_balance_snapshot
upsert_balance_snapshot-IsRecorded store row streamed =
    let key : SnapshotKey = (row.account, (row.captured_at, row.source)) in
    let stored = (upsert-get_by_key snapshot_key store.balance_snapshots row key 0 refl).1 in
    ((upsert snapshot_key store.balance_snapshots row).1, (row, (stored, (refl, (streamed, refl)))))

module _ (c : StreamConsumer) (clock clock' : Instant) (account : String)
    (msg : BalanceMessage) where
  note_balance-last :
      last_nlv (note_balance c clock clock' account msg) account ≡ some msg.net_liquidating_value
  unfolding note_balance
  note_balance-last =
      let now = get_or_else msg.captured_at clock in
      let last = lookup account c.balance_last in
      let nlv = msg.net_liquidating_value in
      elim (Bool-cases (is_recorded c.balance_min_interval last now nlv)) [
        | inl due ↦ rw due (
            ap
              (λ (o : Option (Instant × Option Cash)). elim o [
                | none ↦ none
                | some (at, n) ↦ some n
              ])
              (lookup-insert_self account (now, nlv) c.balance_last))
        | inr skip ↦
            let (at, same, early) = is_recorded_skip c.balance_min_interval last now nlv skip in
            ground (arith, skip, same)
      ]

  note_balance-IsRecorded :
      IsTruthful c account
      → IsRecorded
          (note_balance c clock clock' account msg).store.balance_snapshots
          account
          msg.net_liquidating_value
  unfolding note_balance record_balance
  note_balance-IsRecorded truthful =
      let now = get_or_else msg.captured_at clock in
      let last = lookup account c.balance_last in
      let nlv = msg.net_liquidating_value in
      elim (Bool-cases (is_recorded c.balance_min_interval last now nlv)) [
        | inl due ↦ rw due (upsert_balance_snapshot-IsRecorded c.store _ refl)
        | inr skip ↦
            let (at, same, early) = is_recorded_skip c.balance_min_interval last now nlv skip in
            rw skip (
              subst (IsBacked c.store.balance_snapshots account)
                (ap
                  (λ (o : Option (Instant × Option Cash)). elim o [
                    | none ↦ none
                    | some (t, n) ↦ some n
                  ])
                  same)
                truthful)
      ]

  note_balance-skip :
      (at : Instant)
      → lookup account c.balance_last ≡ some (at, msg.net_liquidating_value)
      → get_or_else msg.captured_at clock < at + c.balance_min_interval
      → note_balance c clock clock' account msg ≡ c
  unfolding note_balance is_recorded
  note_balance-skip at same early =
      rw
        (
          same,
          early_is_skipped c.balance_min_interval at (get_or_else msg.captured_at clock)
              msg.net_liquidating_value early,
        )
        refl

ensure_account-known :
    (store : InMemoryStore) (accounts : AccountMapper) (account number : String)
    (cache : List String)
    → to_account_number accounts account ≡ some number
    → (store' : InMemoryStore) × (cache' : List String) × (ensure_account store accounts account
          cache
        ≡ some (store', cache'))
      × (store'.balance_snapshots ≡ store.balance_snapshots)
unfolding ensure_account upsert_account
ensure_account-known store accounts account number cache known =
    elim (Bool-cases (any_of (str_eq account) cache)) [
      | inl seeded ↦ (store, cache, ground arith, refl)
      | inr fresh ↦ (
        upsert_account store (record {
          nickname = account;
          account_number = number;
          login = some (get_or_else (login_for accounts account) "");
          env = env_for accounts account;
          source_system = "tastytrade";
        }),
        account ∷ cache,
        ground arith,
        refl,
      )
    ]

forward-last :
    (c : StreamConsumer) (msg : BalanceMessage) (account : String)
    → last_nlv (forward c msg) account ≡ last_nlv c account
forward-last c msg account = ground arith

forward-balance_snapshots :
    (c : StreamConsumer) (msg : BalanceMessage)
    → (forward c msg).store.balance_snapshots ≡ c.store.balance_snapshots
forward-balance_snapshots c msg = ground arith

remembered :
    (c : StreamConsumer) (account : String) (nlv : Option Cash)
    → last_nlv c account ≡ some nlv
    → IsRecorded c.store.balance_snapshots account nlv
    → IsTruthful c account
remembered c account nlv last recorded =
    subst (IsBacked c.store.balance_snapshots account) (sym last) recorded

-- Where what the throttle remembers of an account has a snapshot of the stream, a balance message of
-- the account, which is known, is applied, and afterwards the stream's snapshots of the account have
-- the message's value, that value is what the throttle remembers, and again this has a snapshot.
pub apply_balance-latest :
    (c : StreamConsumer) (clock clock' : Instant) (account number : String) (msg : BalanceMessage)
    → c.persist_balances ≡ true
    → to_nickname c.accounts msg.account_number ≡ some account
    → to_account_number c.accounts account ≡ some number
    → IsTruthful c account
    → (c' : StreamConsumer) × (apply_balance c clock clock' msg ≡ some c')
      × (IsRecorded c'.store.balance_snapshots account msg.net_liquidating_value)
      × (last_nlv c' account ≡ some msg.net_liquidating_value)
      × (IsTruthful c' account)
unfolding apply_balance
apply_balance-latest c clock clock' account number msg persists named known truthful =
    let (store, cache, ensured, kept) =
      ensure_account-known c.store c.accounts account number c.ensured_accounts known in
    let seeded : StreamConsumer = record c { store = store; ensured_accounts = cache } in
    let noted = note_balance seeded clock clock' account msg in
    let nlv = msg.net_liquidating_value in
    let recorded =
      subst (λ (t : Table SnapshotKey BalanceSnapshotRow). IsRecorded t account nlv)
        (sym (forward-balance_snapshots noted msg))
        (note_balance-IsRecorded seeded clock clock' account msg (
          subst
            (λ (t : Table SnapshotKey BalanceSnapshotRow). IsBacked t account (last_nlv c account))
            (sym kept) truthful)) in
    let last = forward-last noted msg account ∙ note_balance-last seeded clock clock' account msg in
    (
      forward noted msg,
      ground (arith, persists, named, ensured),
      recorded,
      last,
      remembered (forward noted msg) account nlv last recorded,
    )

-- A message that repeats the account's last recorded value before the interval has passed is
-- applied and leaves the snapshots as they were.
pub apply_balance-throttled :
    (c : StreamConsumer) (clock clock' : Instant) (account number : String) (msg : BalanceMessage)
    (at : Instant)
    → c.persist_balances ≡ true
    → to_nickname c.accounts msg.account_number ≡ some account
    → to_account_number c.accounts account ≡ some number
    → lookup account c.balance_last ≡ some (at, msg.net_liquidating_value)
    → get_or_else msg.captured_at clock < at + c.balance_min_interval
    → (c' : StreamConsumer) × (apply_balance c clock clock' msg ≡ some c')
      × (c'.store.balance_snapshots ≡ c.store.balance_snapshots)
unfolding apply_balance
apply_balance-throttled c clock clock' account number msg at persists named known same early =
    let (store, cache, ensured, kept) =
      ensure_account-known c.store c.accounts account number c.ensured_accounts known in
    let seeded : StreamConsumer = record c { store = store; ensured_accounts = cache } in
    (
      forward (note_balance seeded clock clock' account msg) msg,
      ground (arith, persists, named, ensured),
      ground (arith, note_balance-skip seeded clock clock' account msg at same early, kept),
    )
