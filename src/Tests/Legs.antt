-- ===== src/Tests/Legs.antt =====
-- The theorems on the fold of open legs (tt_ledger/rows.py) at concrete records.
use tt_ledger.Base.{◌≡◌, refl, none, some, true, [], ◌∷◌, select, get_or_else, arith}
use tt_ledger.Base.Assoc.{lookup}
use tt_ledger.Base.Int.{pos}
use tt_ledger.Legs.{
  LegRecord, LegKey, leg_key_eq, empty_slot, slot_step, fold_records, is_to_open,
  is_position_removal, action_nets_as_trade, strips_to,
}
use tt_ledger.Replay.Rules.{is_to_close}
use tt_ledger.Legs.Totals.{AddsUp, IsLargest}
use tt_ledger.Legs.Basis.{is_of, slot_at-fold_records, slot_step-removal_again}

abbrev opened : LegRecord
opened = record {
  account = "main";
  security_id = some "XSP 773P";
  trade_group_id = some 7;
  action = some "Sell to Open";
  transaction_sub_type = some "Sell to Open";
  quantity = some (pos 2);
  price = some (pos 3);
}

-- the two rows of one cash settlement
abbrev removed : LegRecord
removed = record opened {
  action = none;
  transaction_sub_type = some "Assignment";
  quantity = some (pos 2);
}

abbrev paid : LegRecord
paid = record removed { transaction_sub_type = some "Cash Settled Assignment" }

abbrev leg : LegKey
leg = record { account = "main"; security_id = "XSP 773P"; trade_group_id = 7 }

slot_at-fold_records_example :
    let rs = opened ∷ removed ∷ paid ∷ [] in
    let own = select (is_of leg) rs in
    let slot = get_or_else (lookup leg (fold_records [] rs)) empty_slot in
    AddsUp own slot × IsLargest own slot.removal
slot_at-fold_records_example = slot_at-fold_records (opened ∷ removed ∷ paid ∷ []) leg

removed_removes : is_position_removal removed.action removed.transaction_sub_type ≡ true
unfolding is_position_removal action_nets_as_trade is_to_open strips_to is_to_close
removed_removes = refl

paid_removes : is_position_removal paid.action paid.transaction_sub_type ≡ true
unfolding is_position_removal action_nets_as_trade is_to_open strips_to is_to_close
paid_removes = refl

slot_step-removal_again_example :
    slot_step (slot_step empty_slot removed) paid ≡ slot_step empty_slot removed
slot_step-removal_again_example =
    slot_step-removal_again empty_slot removed paid removed_removes paid_removes (omega arith)
