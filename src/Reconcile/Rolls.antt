-- ===== src/Reconcile/Rolls.antt =====
-- Rolls and deliveries (tt_ledger/ingest/reconcile.py): whether closes and opens belong together,
-- and the links between groups that record it.
use tt_ledger.Base.{
  ℕ, ◌+◌, ◌-◌, String, Bool, true, false, not, ◌&&◌, ◌||◌, Option, none, some, List, [], ◌∷◌, map,
  eqb, leb, any_of, all_of, select, get_or_else, if◌then◌else◌,
}
use tt_ledger.Base.Assoc.{text_eq}
use tt_ledger.Base.Int.{eqb_ℤ}
use tt_ledger.Base.Text.{codes, strip, starts_with, str_eq, member}
use tt_ledger.Enums.{roll, trade_group_event_type_value}
use tt_ledger.Rows.{ActivityRow, SecurityRow}
use tt_ledger.Rows.Units.{Instant, Quantity, zero_decimal, seconds}
use tt_ledger.Store.Memory.{InMemoryStore}
use tt_ledger.Store.Reads.{get_security}
use tt_ledger.Reconcile.Rules.{is_nontrade_close, is_delivery, event_of_subtype}
use tt_ledger.Reconcile.Members.{largest, sizes_of, earliest}
use tt_ledger.Reconcile.Exit.{Outside, AppliedExit, event_of, emit, is_delivery_event}

-- `_ROLL_TOLERANCE`
abbrev pub roll_tolerance : ℕ
roll_tolerance = seconds 60

-- `{r.underlying for r in rows if r.underlying}`, as a list with repeats
unfoldable pub underlyings : List ActivityRow → List String
underlyings [] = []
underlyings (r ∷ rows) = elim r.underlying [
  | none ↦ underlyings rows
  | some u ↦ let rest = underlyings rows in if str_eq u "" then rest else u ∷ rest
]

unfoldable pub same_underlying : List ActivityRow → List ActivityRow → Bool
unfolding underlyings
same_underlying close_rows open_rows =
    any_of (λ u. member u (underlyings open_rows)) (underlyings close_rows)

abbrev pub upper_case : ℕ → ℕ
upper_case c = c - 32

-- `value.lstrip("/")` and `upper`
unfoldable pub drop_slashes : List ℕ → List ℕ
drop_slashes [] = []
drop_slashes (c ∷ s) = let rest = drop_slashes s in if eqb c b'/' then rest else c ∷ s

unfoldable pub upper : List ℕ → List ℕ
upper = map (λ c. if leb b'a' c && leb c b'z' then upper_case c else c)

-- `_norm_underlying`: nothing left is no root
unfoldable pub norm_underlying : Option String → List ℕ
unfolding drop_slashes upper codes strip
norm_underlying none = []
norm_underlying (some value) = upper (strip (drop_slashes (codes value)))

abbrev pub is_blank : List ℕ → Bool
is_blank [] = true
is_blank (_ ∷ _) = false

unfoldable pub roots_relate : List ℕ → List ℕ → Bool
unfolding starts_with
roots_relate a b = not (is_blank a) && not (is_blank b) && (starts_with a b || starts_with b a)

-- `await store.get_security(id) if id else None`
unfoldable pub security_named : InMemoryStore → Option String → Option SecurityRow
security_named store none = none
security_named store (some sid) = if str_eq sid "" then none else get_security store sid

unfoldable pub security_underlying : InMemoryStore → Option String → Option String
unfolding security_named
security_underlying store sid = elim (security_named store sid) [
  | none ↦ none
  | some s ↦ s.underlying
]

-- a row of an assignment or an exercise
unfoldable pub is_assigned : ActivityRow → Bool
is_assigned r = is_nontrade_close r && elim (event_of_subtype r.transaction_sub_type) [
  | none ↦ false
  | some ev ↦ is_delivery_event (trade_group_event_type_value ev)
]

-- the underlyings of the rows' securities, and the roots of the rows' own ones
unfoldable pub security_underlyings : InMemoryStore → List ActivityRow → List String
security_underlyings store [] = []
security_underlyings store (r ∷ rows) = elim (security_underlying store r.security_id) [
  | none ↦ security_underlyings store rows
  | some u ↦ let rest = security_underlyings store rows in if str_eq u "" then rest else u ∷ rest
]

unfoldable pub roots_of : List ActivityRow → List (List ℕ)
unfolding norm_underlying
roots_of rows =
    select (λ s. not (is_blank s)) (map (λ (r : ActivityRow). norm_underlying r.underlying) rows)

abbrev pub opt_listed : Option String → List String → Bool
opt_listed none names = false
opt_listed (some s) names = member s names

-- `norm(r.underlying) or norm(delivered.underlying …)`
unfoldable pub delivered_root : ActivityRow → Option SecurityRow → List ℕ
delivered_root r delivered =
    let own = norm_underlying r.underlying in
    if is_blank own
    then norm_underlying (elim delivered [ none ↦ none | some s ↦ s.underlying ])
    else own

unfoldable pub is_delivered : InMemoryStore → List ActivityRow → ActivityRow → Bool
unfolding security_named security_underlyings roots_of delivered_root roots_relate
is_delivered store assigned r =
    let delivered = security_named store r.security_id in
    let named = security_underlyings store assigned in
    elim delivered [
      | none ↦ false
      | some s ↦ opt_listed s.underlying named || member s.security_id named
    ]
    || any_of (roots_relate (delivered_root r delivered)) (roots_of assigned)

unfoldable pub delivers_underlying : InMemoryStore → List ActivityRow → List ActivityRow → Bool
unfolding is_delivered is_assigned
delivers_underlying store close_rows rest_rows =
    any_of (is_delivered store (select is_assigned close_rows)) (select is_delivery rest_rows)

unfoldable pub max_quantity : List ActivityRow → Quantity
max_quantity rows = get_or_else (largest (sizes_of rows)) zero_decimal

-- the option types of the rows' securities, as a list with repeats
unfoldable pub option_types : InMemoryStore → List ActivityRow → List String
option_types store [] = []
option_types store (r ∷ rows) = elim r.security_id [
  | none ↦ option_types store rows
  | some sid ↦ elim (get_security store sid) [
    | none ↦ option_types store rows
    | some sec ↦ elim sec.option_type [
      | none ↦ option_types store rows
      | some t ↦ t ∷ option_types store rows
    ]
  ]
]

abbrev pub is_within : List String → List String → Bool
is_within a b = all_of (λ t. member t b) a

abbrev pub none_in : List String → Bool
none_in [] = true
none_in (_ ∷ _) = false

unfoldable pub same_option_types : InMemoryStore → List ActivityRow → List ActivityRow → Bool
unfolding option_types
same_option_types store a_rows b_rows =
    let a = option_types store a_rows in
    let b = option_types store b_rows in
    if none_in a || none_in b then true else is_within a b && is_within b a

pub record CreatedGroup : Type 0 where
  pub pk : ℕ
  pub rows : List ActivityRow

-- the opening follows the exit within the tolerance, on the same structure
unfoldable pub is_roll : InMemoryStore → AppliedExit → Instant → CreatedGroup → Bool
unfolding same_underlying max_quantity same_option_types
is_roll store ex closed_at cg = elim (earliest cg.rows) [
  | none ↦ false
  | some opened_at ↦
      leb closed_at opened_at
      && leb opened_at (closed_at + roll_tolerance)
      && same_underlying ex.rows cg.rows
      && eqb_ℤ (max_quantity ex.rows) (max_quantity cg.rows)
      && same_option_types store ex.rows cg.rows
]

module _ (out : Outside) where
  -- the inner loop, up to the first group that the exit rolled into
  unfoldable pub link_roll :
      InMemoryStore → AppliedExit → Instant → List CreatedGroup → InMemoryStore
  unfolding is_roll
  link_roll store ex closed_at [] = store
  link_roll store ex closed_at (cg ∷ created) =
      let more = link_roll store ex closed_at created in
      if is_roll store ex closed_at cg
      then emit out store (record (event_of ex.pk roll) {
        event_at = earliest cg.rows;
        rolled_to_group_id = some cg.pk;
      })
      else more

  unfoldable pub link_cross_cluster_rolls :
      InMemoryStore → List AppliedExit → List CreatedGroup → InMemoryStore
  unfolding link_roll
  link_cross_cluster_rolls store [] created = store
  link_cross_cluster_rolls store (ex ∷ exits) created =
      link_cross_cluster_rolls
        (if ex.rolled
          then store
          else elim ex.closed_at [ none ↦ store | some at ↦ link_roll store ex at created ])
        exits created
