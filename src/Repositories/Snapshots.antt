-- ===== src/Repositories/Snapshots.antt =====
-- Positions from the broker's snapshot (tt_ledger/repositories/__init__.py, `PositionRepository`).
use tt_ledger.Base.{ℕ, String, Option, none, some, List, [], ◌∷◌, length}
use tt_ledger.Rows.{PositionRow}
use tt_ledger.Broker.{BrokerPosition}
use tt_ledger.Store.Memory.{InMemoryStore}
use tt_ledger.Store.Writes.{upsert_positions}
use tt_ledger.Store.Reads.{get_position}
use tt_ledger.Repositories.Positions.{derive_unrealized_pnl, apply_effect}
use tt_ledger.Repositories.Securities.{Attempt, ok, raised, SecurityResolver, Seen, note_security}

-- `existing.f if existing else None`
abbrev pub kept {ℓ} : {A : Type ℓ} → (PositionRow → Option A) → Option PositionRow → Option A
kept field none = none
kept field (some existing) = field existing

-- the broker's figures, with the attribution that is stored
unfoldable pub position_row : Option PositionRow → BrokerPosition → String → String → PositionRow
position_row existing p account security_id = record {
  account = account;
  security_id = security_id;
  quantity = p.quantity;
  quantity_direction = p.quantity_direction;
  average_open_price = p.average_open_price;
  mark_price = p.mark_price;
  close_price = p.close_price;
  unrealized_pnl = derive_unrealized_pnl p;
  realized_day_gain = apply_effect p.realized_day_gain p.realized_day_gain_effect;
  multiplier = p.multiplier;
  expires_at = p.expires_at;
  strategy_id = kept (λ (r : PositionRow). r.strategy_id) existing;
  opening_order_id = kept (λ (r : PositionRow). r.opening_order_id) existing;
  trade_group_id = kept (λ (r : PositionRow). r.trade_group_id) existing;
  position_opened_at = kept (λ (r : PositionRow). r.position_opened_at) existing;
}

unfoldable pub resolve_positions :
    SecurityResolver → String → Seen → List BrokerPosition → Seen × Attempt (List PositionRow)
unfolding note_security position_row
resolve_positions resolve account seen [] = (seen, ok [])
resolve_positions resolve account seen (p ∷ ps) = elim (resolve p.symbol p.instrument_type) [
  | raised text ↦ (seen, raised text)
  | ok resolved ↦
      let seen' = note_security seen resolved p.symbol in
      let row =
        position_row (get_position seen'.store account resolved.security_id) p account
          resolved.security_id in
      let (seen'', rest) = resolve_positions resolve account seen' ps in
      elim rest [ raised text ↦ (seen'', raised text) | ok rows ↦ (seen'', ok (row ∷ rows)) ]
]

-- `PositionRepository.upsert`
unfoldable pub import_positions :
    SecurityResolver → InMemoryStore → List BrokerPosition → String → InMemoryStore × Attempt ℕ
unfolding resolve_positions
import_positions resolve store positions account =
    let (seen, resolved) =
      resolve_positions resolve account (record { store = store; ids = [] }) positions in
    elim resolved [
      | raised text ↦ (seen.store, raised text)
      | ok rows ↦ (upsert_positions seen.store rows, ok (length rows))
    ]
