-- ===== src/Replay/Agreement.antt =====
-- The quantity walk (`net_open_quantities`) and the lot walk (`_replay_security`) agree on rows
-- that carry what both read.
use tt_ledger.Base.{
  ℕ, String, ◌≡◌, refl, subst, Option, true, false, not, ◌&&◌, ◌||◌, List, [], ◌∷◌, AllOf, is_some,
  get_or_else, none, some, ◌⊎◌, inl, inr, Bool-cases, Option-cases, arith,
}
use tt_ledger.Base.Int.{pos, abs, eqb_ℤ, ◌+ℤ◌}
use tt_ledger.Rows.{ActivityRow, PositionRow}
use tt_ledger.Rows.Units.{Quantity, Price, Cash, zero_decimal}
use tt_ledger.Replay.Rules.{
  is_settlement, is_money_movement, quantity_of, effective_delta_price, is_to_close, offset,
  signed_delta,
}
use tt_ledger.Replay.Walk.{
  WalkState, start_state, direction_of, replay_step, replay_effect, replay_rows, replay_security,
}
use tt_ledger.Replay.Reduced.{NetState, start_net, net_step, net_rows}
use tt_ledger.Replay.Steps.{
  offset_nonzero, signed_delta_nonzero, apply_delta-quantity, apply_delta-had_position,
}

-- A row that both walks see alike: a trade has a price, and no quantity is zero.
pub record IsRegular (row : ActivityRow) : Type 0 where
  pub priced : (is_money_movement row || is_settlement row || is_some row.price) ≡ true
  pub moves : eqb_ℤ (quantity_of row) (pos 0) ≡ false

pub record Agrees (s : WalkState) (n : NetState) : Type 0 where
  pub quantity : s.lot.signed_quantity ≡ n.signed_quantity
  pub had : s.had_position ≡ n.had_position

module _ (divide : Cash → Quantity → Price) (account security_id : String) (multiplier : ℕ) where
  abbrev stepped : WalkState → ActivityRow → WalkState
  stepped s row = (replay_step divide account security_id multiplier s row).0

  abbrev net_view : WalkState → NetState
  net_view s = record { signed_quantity = s.lot.signed_quantity; had_position = s.had_position }

  skip-Agrees :
      (s : WalkState) (row : ActivityRow)
      → effective_delta_price row s.lot s.had_position ≡ (zero_decimal, none)
      → net_step (net_view s) row ≡ net_view s
      → Agrees (stepped s row) (net_step (net_view s) row)
  unfolding replay_step replay_effect
  skip-Agrees s row e n = ground arith

  move-Agrees :
      (s : WalkState) (row : ActivityRow) (delta : Quantity) (price : Price)
      → effective_delta_price row s.lot s.had_position ≡ (delta, some price)
      → eqb_ℤ delta (pos 0) ≡ false
      → net_step (net_view s) row
        ≡ record { signed_quantity = s.lot.signed_quantity +ℤ delta; had_position = true }
      → Agrees (stepped s row) (net_step (net_view s) row)
  unfolding replay_step replay_effect
  move-Agrees s row delta price e m n = ground (
    arith,
    apply_delta-quantity divide account security_id multiplier s row delta price,
    apply_delta-had_position divide account security_id multiplier s row delta price,
  )

  settlement-Agrees :
      (s : WalkState) (row : ActivityRow)
      → IsRegular row
      → is_money_movement row ≡ false
      → is_settlement row ≡ true
      → Agrees (stepped s row) (net_step (net_view s) row)
  unfolding net_step effective_delta_price
  settlement-Agrees s row r m t = elim (Bool-cases (eqb_ℤ s.lot.signed_quantity (pos 0))) [
    | inl flat ↦ skip-Agrees s row (ground arith) (ground arith)
    | inr held ↦
        move-Agrees s row (offset (quantity_of row) s.lot.signed_quantity)
          (get_or_else row.price zero_decimal) (ground arith)
          (offset_nonzero (quantity_of row) s.lot.signed_quantity r.moves held) (ground arith)
  ]

  trade-Agrees :
      (s : WalkState) (row : ActivityRow) (price : Price)
      → IsRegular row
      → is_money_movement row ≡ false
      → is_settlement row ≡ false
      → row.price ≡ some price
      → Agrees (stepped s row) (net_step (net_view s) row)
  unfolding net_step effective_delta_price
  trade-Agrees s row price r m t p =
      elim (Bool-cases
        (eqb_ℤ s.lot.signed_quantity (pos 0) && not s.had_position && is_to_close row.action)) [
          | inl early ↦ skip-Agrees s row (ground arith) (ground arith)
          | inr trades ↦
              move-Agrees s row (signed_delta row.action (quantity_of row)) price (ground arith)
                (signed_delta_nonzero (quantity_of row) row r.moves) (ground arith)
        ]

  step-Agrees :
      (s : WalkState) (row : ActivityRow)
      → IsRegular row
      → Agrees (stepped s row) (net_step (net_view s) row)
  unfolding net_step effective_delta_price
  step-Agrees s row r = elim (Bool-cases (is_money_movement row)) [
    | inl cash ↦ skip-Agrees s row (ground arith) (ground arith)
    | inr m ↦ elim (Bool-cases (is_settlement row)) [
      | inl t ↦ settlement-Agrees s row r m t
      | inr t ↦ elim (Option-cases row.price) [
        | inl absent ↦ absurd (ground (arith, r.priced))
        | inr (price, p) ↦ trade-Agrees s row price r m t p
      ]
    ]
  ]

  walk-Agrees :
      (s : WalkState) (rows : List ActivityRow)
      → AllOf IsRegular rows
      → Agrees
          (replay_rows divide account security_id multiplier s rows).0
          (net_rows (net_view s) rows)
  unfolding replay_rows net_rows
  walk-Agrees s [] r = record { quantity = refl; had = refl }
  walk-Agrees s (row ∷ rows) r =
      let s' = stepped s row in
      let a = step-Agrees s row r.0 in
      let e : net_view s' ≡ net_step (net_view s) row =
        λ i. record { signed_quantity = a.quantity i; had_position = a.had i } in
      subst
        (λ n.
          Agrees (replay_rows divide account security_id multiplier s' rows).0 (net_rows n rows))
        e (walk-Agrees s' rows r.1)

  -- On rows that are regular, the position that replay writes has the quantity of the net that
  -- `net_open_quantities` computes over the same rows in the same order, and its direction where
  -- that is not zero.
  pub replay_security-net_rows :
      (rows : List ActivityRow) (existing : Option PositionRow)
      → AllOf IsRegular rows
      → let net = (net_rows start_net rows).signed_quantity in
        let position = (replay_security divide account security_id multiplier rows existing).0 in
        (position.quantity ≡ abs net)
        × ((net ≡ pos 0) ⊎ (position.quantity_direction ≡ direction_of net))
  unfolding replay_security
  replay_security-net_rows rows existing r =
      let a = walk-Agrees start_state rows r in
      let held =
        (replay_rows divide account security_id multiplier start_state
          rows).0.lot.signed_quantity in
      rw (← a.quantity) (
        refl,
        elim (Bool-cases (eqb_ℤ held (pos 0))) [
          | inl flat ↦ inl (ground arith)
          | inr holds ↦ inr (ground arith)
        ],
      )
