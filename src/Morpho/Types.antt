-- ===== src/Morpho/Types.antt =====
-- The data of tools/morpho/common.ts. Amounts are natural numbers, since `bi` refuses negative
-- input and the chain returns unsigned words; only the net values of a quote are signed.
use nest_protocol.Base.{ℕ, ◌-◌, ◌^◌, Bool}
use nest_protocol.Base.Int.{ℤ}
use nest_protocol.Base.Text.{Text, txt}

abbrev pub Hex : Type 0
Hex = Text

pub data DecreaseRoute : Type 0 where
  instant redeem : DecreaseRoute

-- "increase", "decrease-instant", "decrease-redeem"
pub data BundleRoute : Type 0 where
  increase : BundleRoute
  decrease : DecreaseRoute → BundleRoute

pub record MarketParams : Type 0 where
  pub loan_token : Text
  pub collateral_token : Text
  pub oracle : Text
  pub irm : Text
  pub lltv : ℕ

pub record Position : Type 0 where
  pub borrow_shares : ℕ
  pub collateral : ℕ

pub record MarketState : Type 0 where
  pub total_borrow_assets : ℕ
  pub total_borrow_shares : ℕ

pub record ExtraInputs : Type 0 where
  pub extra_loan_assets : ℕ
  pub extra_collateral : ℕ
  pub token_transferred_back_to_user : ℕ

pub record Quote : Type 0 where
  pub borrow_shares_delta : ℕ
  pub repay_shares_delta : ℕ
  pub supply_collateral_delta : ℕ
  pub withdraw_collateral_delta : ℕ
  pub borrow_assets_delta : ℕ
  pub repay_assets_delta : ℕ
  pub current_net_value : ℤ
  pub target_net_value : ℤ
  pub extra_provided_value : ℕ
  pub expected_token_transferred_back : ℤ
  pub invariant_holds : Bool

-- `callData` is the field `data` of the source.
pub record Call : Type 0 where
  pub to : Text
  pub call_data : Hex
  pub value : ℕ
  pub skip_revert : Bool
  pub callback_hash : Hex

pub record AddressBook : Type 0 where
  pub bundler : Text
  pub general_adapter : Text
  pub nest_adapter : Text
  pub morpho : Text
  pub vault : Text
  pub initiator : Text
  pub position_owner : Text
  pub deposit_receiver : Text
  pub redeem_receiver : Text

pub record IncreaseParams : Type 0 where
  pub flash_loan_assets : ℕ
  pub flash_loan_to_nest_assets : ℕ
  pub extra_loan_to_nest_assets : ℕ
  pub deposit_assets : ℕ
  pub collateral_from_initiator_assets : ℕ
  pub supply_collateral_assets : ℕ
  pub borrow_assets : ℕ
  pub min_borrow_share_price_e27 : ℕ

pub record DecreaseParams : Type 0 where
  pub flash_loan_assets : ℕ
  pub repay_assets : ℕ
  pub max_repay_share_price_e27 : ℕ
  pub withdraw_collateral_assets : ℕ
  pub redeem_shares : ℕ
  pub loan_from_initiator_assets : ℕ

abbrev pub virtual_shares : ℕ
virtual_shares = 1_000_000

abbrev pub virtual_assets : ℕ
virtual_assets = 1

abbrev pub max_uint256 : ℕ
max_uint256 = 2 ^ 256 - 1

abbrev pub default_min_borrow_share_price_e27 : ℕ
default_min_borrow_share_price_e27 = 0

abbrev pub default_max_repay_share_price_e27 : ℕ
default_max_repay_share_price_e27 = max_uint256

abbrev pub zero_hash : Hex
zero_hash = txt "0x0000000000000000000000000000000000000000000000000000000000000000"

abbrev pub zero_address : Hex
zero_address = txt "0x0000000000000000000000000000000000000000"

-- One constructor for each `throw`, and `range_error` for the engine's on a division of bigints
-- by zero.
pub data MorphoError : Type 0 where
  range_error : MorphoError
  division_by_zero : MorphoError
  oracle_price_scale_zero : MorphoError
  already_at_target : MorphoError
  mixed_route : MorphoError
  increase_expects_non_decreasing : MorphoError
  increase_needs_borrow : MorphoError
  decrease_expects_non_increasing : MorphoError
  decrease_needs_repay : MorphoError
  flash_loan_to_nest_exceeds_flash_loan : MorphoError
  deposit_exceeds_available : MorphoError
  not_enough_shares_for_redeem : MorphoError
  would_reduce_net_exposure : MorphoError
  abi_error : MorphoError
  missing_config_argument : MorphoError
  missing_route_argument : MorphoError
  unsupported_route : MorphoError
  invalid_address : MorphoError
  invalid_bytes32 : MorphoError
  invalid_bigint : MorphoError
  market_id_mismatch : MorphoError
  rpc_url_required : MorphoError
  rpc_error : MorphoError
