-- ===== src/Enums.antt =====
-- The domain enums (tt_ledger/enums.py) with the text value that each member is stored as.
use tt_ledger.Base.{String}

pub data Origin : Type 0 where
  zts broker : Origin

-- `Origin.value`
unfoldable pub origin_value : Origin → String
origin_value Origin.zts = "zts"
origin_value Origin.broker = "broker"

pub data Ingest : Type 0 where
  oms_submit order_history import : Ingest

-- `Ingest.value`
unfoldable pub ingest_value : Ingest → String
ingest_value Ingest.oms_submit = "oms_submit"
ingest_value Ingest.order_history = "order_history"
ingest_value Ingest.import = "import"

pub data ReviewStatus : Type 0 where
  needs_review confirmed ignored invalid : ReviewStatus

-- `ReviewStatus.value`
unfoldable pub review_status_value : ReviewStatus → String
review_status_value ReviewStatus.needs_review = "needs_review"
review_status_value ReviewStatus.confirmed = "confirmed"
review_status_value ReviewStatus.ignored = "ignored"
review_status_value ReviewStatus.invalid = "invalid"

pub data OrderStatus : Type 0 where
  pending submitted working filled partially_filled cancelled rejected expired : OrderStatus

-- `OrderStatus.value`
unfoldable pub order_status_value : OrderStatus → String
order_status_value OrderStatus.pending = "pending"
order_status_value OrderStatus.submitted = "submitted"
order_status_value OrderStatus.working = "working"
order_status_value OrderStatus.filled = "filled"
order_status_value OrderStatus.partially_filled = "partially_filled"
order_status_value OrderStatus.cancelled = "cancelled"
order_status_value OrderStatus.rejected = "rejected"
order_status_value OrderStatus.expired = "expired"

pub data TradeGroupStatus : Type 0 where
  opened closed expired assigned exercised mixed unfilled : TradeGroupStatus

-- `TradeGroupStatus.value`
unfoldable pub trade_group_status_value : TradeGroupStatus → String
trade_group_status_value TradeGroupStatus.opened = "open"
trade_group_status_value TradeGroupStatus.closed = "closed"
trade_group_status_value TradeGroupStatus.expired = "expired"
trade_group_status_value TradeGroupStatus.assigned = "assigned"
trade_group_status_value TradeGroupStatus.exercised = "exercised"
trade_group_status_value TradeGroupStatus.mixed = "mixed"
trade_group_status_value TradeGroupStatus.unfilled = "unfilled"

pub data StrategyType : Type 0 where
  single vertical calendar diagonal iron_condor iron_butterfly straddle strangle butterfly condor
        ratio covered collar custom future future_spread :
      StrategyType

-- `StrategyType.value`
unfoldable pub strategy_type_value : StrategyType → String
strategy_type_value StrategyType.single = "single"
strategy_type_value StrategyType.vertical = "vertical"
strategy_type_value StrategyType.calendar = "calendar"
strategy_type_value StrategyType.diagonal = "diagonal"
strategy_type_value StrategyType.iron_condor = "iron_condor"
strategy_type_value StrategyType.iron_butterfly = "iron_butterfly"
strategy_type_value StrategyType.straddle = "straddle"
strategy_type_value StrategyType.strangle = "strangle"
strategy_type_value StrategyType.butterfly = "butterfly"
strategy_type_value StrategyType.condor = "condor"
strategy_type_value StrategyType.ratio = "ratio"
strategy_type_value StrategyType.covered = "covered"
strategy_type_value StrategyType.collar = "collar"
strategy_type_value StrategyType.custom = "custom"
strategy_type_value StrategyType.future = "future"
strategy_type_value StrategyType.future_spread = "future_spread"

pub data TradeGroupEventType : Type 0 where
  entry partial_exit full_exit roll adjustment expiration assignment exercise : TradeGroupEventType

-- `TradeGroupEventType.value`
unfoldable pub trade_group_event_type_value : TradeGroupEventType → String
trade_group_event_type_value TradeGroupEventType.entry = "entry"
trade_group_event_type_value TradeGroupEventType.partial_exit = "partial_exit"
trade_group_event_type_value TradeGroupEventType.full_exit = "full_exit"
trade_group_event_type_value TradeGroupEventType.roll = "roll"
trade_group_event_type_value TradeGroupEventType.adjustment = "adjustment"
trade_group_event_type_value TradeGroupEventType.expiration = "expiration"
trade_group_event_type_value TradeGroupEventType.assignment = "assignment"
trade_group_event_type_value TradeGroupEventType.exercise = "exercise"
