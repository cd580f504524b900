-- ===== src/Domain/MarketState.antt =====
-- src/domain/market_state.rs
use signalguard_rs.Common.{ℕ, Option, none}
use signalguard_rs.External.{Externals, Decimal, F64, DateTime}
use signalguard_rs.Domain.Symbol.{Symbol}

module _ ⦃x : Externals⦄ where
  pub record MarketSignals : Type 0 where
    pub spread_pct : Option F64
    pub price_change_1m_pct : Option F64
    pub trades_per_minute : Option F64

  pub record MarketState : Type 0 where
    pub symbol : Symbol
    pub last_trade_price : Option Decimal
    pub last_trade_quantity : Option Decimal
    pub best_bid_price : Option Decimal
    pub best_bid_quantity : Option Decimal
    pub best_ask_price : Option Decimal
    pub best_ask_quantity : Option Decimal
    pub top_bid_quantity : Option Decimal
    pub top_ask_quantity : Option Decimal
    pub top_bid_liquidity : Option Decimal
    pub top_ask_liquidity : Option Decimal
    pub book_imbalance : Option Decimal
    pub depth_sequence_gap_count : ℕ
    pub last_depth_event_time : Option DateTime
    pub last_depth_ingest_time : Option DateTime
    pub signals : MarketSignals
    pub last_event_time : Option DateTime
    pub last_ingest_time : Option DateTime

  -- `MarketState::new`
  unfoldable pub new_market_state : Symbol → MarketState
  new_market_state symbol = record {
    symbol = symbol;
    last_trade_price = none;
    last_trade_quantity = none;
    best_bid_price = none;
    best_bid_quantity = none;
    best_ask_price = none;
    best_ask_quantity = none;
    top_bid_quantity = none;
    top_ask_quantity = none;
    top_bid_liquidity = none;
    top_ask_liquidity = none;
    book_imbalance = none;
    depth_sequence_gap_count = 0;
    last_depth_event_time = none;
    last_depth_ingest_time = none;
    signals = record { spread_pct = none; price_change_1m_pct = none; trades_per_minute = none };
    last_event_time = none;
    last_ingest_time = none;
  }
