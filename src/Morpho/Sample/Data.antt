-- ===== src/Morpho/Sample/Data.antt =====
-- A market, an address book and positions for tests and witnesses.
use nest_protocol.Base.{List, [], true}
use nest_protocol.Base.Text.{txt}
use nest_protocol.Base.Int.{pos}
use nest_protocol.Base.Outcome.{Result, ok, err}
use nest_protocol.Morpho.Types.{
  MarketParams, AddressBook, Position, MarketState, ExtraInputs, Quote, Call, MorphoError,
}

abbrev pub sample_market : MarketParams
sample_market = record {
  loan_token = txt "0xL";
  collateral_token = txt "0xC";
  oracle = txt "0xO";
  irm = txt "0xI";
  lltv = 860;
}

-- Two adapters.
abbrev pub sample_book : AddressBook
sample_book = record {
  bundler = txt "0xb";
  general_adapter = txt "0xGa";
  nest_adapter = txt "0xNa";
  morpho = txt "0xm";
  vault = txt "0xv";
  initiator = txt "0xi";
  position_owner = txt "0xi";
  deposit_receiver = txt "0xi";
  redeem_receiver = txt "0xi";
}

abbrev pub sample_state : MarketState
sample_state = record { total_borrow_assets = 2_000_000; total_borrow_shares = 3_000_000 }

abbrev pub low_position : Position
low_position = record { borrow_shares = 100; collateral = 500 }

abbrev pub high_position : Position
high_position = record { borrow_shares = 301; collateral = 590 }

abbrev pub sample_extra : ExtraInputs
sample_extra = record {
  extra_loan_assets = 40;
  extra_collateral = 10;
  token_transferred_back_to_user = 5;
}

-- Borrow 101 assets and supply 90 of collateral, or the reverse.
abbrev pub up_quote : Quote
up_quote = record {
  borrow_shares_delta = 201;
  repay_shares_delta = 0;
  supply_collateral_delta = 90;
  withdraw_collateral_delta = 0;
  borrow_assets_delta = 101;
  repay_assets_delta = 0;
  current_net_value = pos 449;
  target_net_value = pos 439;
  extra_provided_value = 50;
  expected_token_transferred_back = pos 60;
  invariant_holds = true;
}

abbrev pub down_quote : Quote
down_quote = record {
  borrow_shares_delta = 0;
  repay_shares_delta = 201;
  supply_collateral_delta = 0;
  withdraw_collateral_delta = 90;
  borrow_assets_delta = 0;
  repay_assets_delta = 101;
  current_net_value = pos 439;
  target_net_value = pos 449;
  extra_provided_value = 50;
  expected_token_transferred_back = pos 40;
  invariant_holds = true;
}

-- The calls of a build that returned.
abbrev pub calls_of : Result MorphoError (List Call) → List Call
calls_of (ok cs) = cs
calls_of (err _) = []
