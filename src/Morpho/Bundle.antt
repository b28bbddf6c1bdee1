-- ===== src/Morpho/Bundle.antt =====
-- `buildIncreaseBundle` and `buildDecreaseBundle` of tools/morpho/common.ts. A `push` under a test
-- is `push_when`; the calls of the flash loan's callback are built by a function of their own.
pub mod Flow
pub mod Legs
pub mod Increase
pub mod IncreaseRun
pub mod Decrease
pub mod Settlement
pub mod Properties
use nest_protocol.Base.{
  ℕ, Bool, true, false, ◌&&◌, ◌||◌, not, ◌==◌, List, [], ◌∷◌, ◌++◌, if◌then◌else◌,
}
use nest_protocol.Base.Text.{Text, txt, text_eq, to_lower}
use nest_protocol.Base.Outcome.{Result, ok, err, ◌>>=◌, ◌>>◌, throw_if}
use nest_protocol.Morpho.Types.{
  Hex, MarketParams, AddressBook, ExtraInputs, Quote, Call, IncreaseParams, DecreaseParams,
  DecreaseRoute, instant, redeem, MorphoError, max_uint256, increase_expects_non_decreasing,
  increase_needs_borrow, decrease_expects_non_increasing, decrease_needs_repay,
}
use nest_protocol.Morpho.Abi.{
  Ethers, NestFn, erc20_transfer_from, morpho_flash_loan, morpho_supply_collateral, morpho_borrow,
  morpho_repay, morpho_withdraw_collateral, erc20_transfer, nest_deposit, nest_instant_redeem,
  nest_redeem, morpho_withdraw_collateral_on_behalf, encoded, mk_call, general_call, core_call,
  nest_call, encode_call_array, same_address,
}
use nest_protocol.Morpho.Params.{derive_increase_params, derive_decrease_params}

-- `if (test) bundle.push(call)`, as the calls pushed.
abbrev pub push_when : Bool → Result MorphoError Call → Result MorphoError (List Call)
push_when true m = m >>= λ c. ok (c ∷ [])
push_when false m = ok []

abbrev pub empty_bytes : Hex
empty_bytes = txt "0x"

abbrev pub adapters_are_shared : AddressBook → Bool
adapters_are_shared a = same_address a.general_adapter a.nest_adapter

abbrev pub nest_execution_adapter : AddressBook → Text
nest_execution_adapter a = if adapters_are_shared a then a.general_adapter else a.nest_adapter

module _ (e : Ethers) (addresses : AddressBook) (market : MarketParams) where
  -- The flash loan that ends a bundle and carries the callback.
  unfoldable pub flash_loan_call : ℕ → Hex → Result MorphoError Call
  flash_loan_call flash_loan_assets callback_data = do
    h ←
        encoded
          (e.encode_general (morpho_flash_loan market.loan_token flash_loan_assets callback_data))
    ok (mk_call addresses.general_adapter h (e.keccak256 callback_data))

  unfoldable pub increase_callback : IncreaseParams → Result MorphoError (List Call)
  increase_callback params = do
    let general = addresses.general_adapter
    let nest = nest_execution_adapter addresses
    move ←
        push_when
          (not (params.flash_loan_to_nest_assets == 0) && not (adapters_are_shared addresses))
          (core_call e general
            (erc20_transfer market.loan_token nest params.flash_loan_to_nest_assets))
    deposit ← push_when (not (params.deposit_assets == 0)) (
        nest_call e nest (
          nest_deposit addresses.vault params.deposit_assets max_uint256
            addresses.deposit_receiver))
    pull ← push_when (not (params.collateral_from_initiator_assets == 0)) (
        general_call e general (
          erc20_transfer_from market.collateral_token general
            params.collateral_from_initiator_assets))
    supply ← push_when (not (params.supply_collateral_assets == 0)) (
        general_call e general (
          morpho_supply_collateral market params.supply_collateral_assets addresses.initiator
            empty_bytes))
    borrow ← push_when (not (params.borrow_assets == 0)) (
        general_call e general
          (morpho_borrow market params.borrow_assets 0 params.min_borrow_share_price_e27 general))
    ok (move ++ (deposit ++ (pull ++ (supply ++ borrow))))

  unfoldable pub build_increase_bundle : Quote → ExtraInputs → ℕ → Result MorphoError (List Call)
  build_increase_bundle quote extra min_borrow_share_price_e27 = do
    throw_if (not (quote.repay_assets_delta == 0) || not (quote.withdraw_collateral_delta == 0))
        increase_expects_non_decreasing
    throw_if (quote.borrow_assets_delta == 0) increase_needs_borrow
    params ←
        derive_increase_params quote extra min_borrow_share_price_e27
          (adapters_are_shared addresses)
    callback_bundle ← increase_callback params
    callback_data ← encode_call_array e callback_bundle
    extra_loan ← push_when (not (params.extra_loan_to_nest_assets == 0)) (
        general_call e addresses.general_adapter (
          erc20_transfer_from market.loan_token (nest_execution_adapter addresses)
            params.extra_loan_to_nest_assets))
    flash ← flash_loan_call params.flash_loan_assets callback_data
    ok (extra_loan ++ flash ∷ [])

  abbrev pub use_solver_withdraw_collateral : Bool
  use_solver_withdraw_collateral =
      not (text_eq (to_lower addresses.position_owner) (to_lower addresses.initiator))

  -- The redemption of the chosen route.
  abbrev pub redeem_fn : DecreaseRoute → ℕ → NestFn
  redeem_fn instant shares =
      nest_instant_redeem addresses.vault shares 0 addresses.redeem_receiver
        addresses.position_owner
  redeem_fn redeem shares =
      nest_redeem addresses.vault shares 0 addresses.redeem_receiver addresses.position_owner

  unfoldable pub withdraw_collateral_call : ℕ → Result MorphoError Call
  withdraw_collateral_call assets =
      if use_solver_withdraw_collateral
      then nest_call e (nest_execution_adapter addresses) (
          morpho_withdraw_collateral_on_behalf market assets addresses.position_owner
            addresses.position_owner)
      else general_call e addresses.general_adapter
          (morpho_withdraw_collateral market assets addresses.initiator)

  unfoldable pub decrease_callback : DecreaseRoute → DecreaseParams → Result MorphoError (List Call)
  decrease_callback route params = do
    let general = addresses.general_adapter
    repay ← general_call e general (
        morpho_repay market params.repay_assets 0 params.max_repay_share_price_e27
          addresses.position_owner empty_bytes)
    withdraw ←
        push_when (not (params.withdraw_collateral_assets == 0))
          (withdraw_collateral_call params.withdraw_collateral_assets)
    redeemed ←
        push_when (not (params.redeem_shares == 0))
          (nest_call e (nest_execution_adapter addresses) (redeem_fn route params.redeem_shares))
    pull ← push_when (not (params.loan_from_initiator_assets == 0)) (
        general_call e general
          (erc20_transfer_from market.loan_token general params.loan_from_initiator_assets))
    ok (repay ∷ (withdraw ++ (redeemed ++ pull)))

  unfoldable pub build_decrease_bundle :
      DecreaseRoute → Quote → ExtraInputs → ℕ → Result MorphoError (List Call)
  build_decrease_bundle route quote extra max_repay_share_price_e27 = do
    throw_if (not (quote.borrow_assets_delta == 0) || not (quote.supply_collateral_delta == 0))
        decrease_expects_non_increasing
    throw_if (quote.repay_assets_delta == 0) decrease_needs_repay
    params ← derive_decrease_params quote extra max_repay_share_price_e27
    callback_bundle ← decrease_callback route params
    callback_data ← encode_call_array e callback_bundle
    flash ← flash_loan_call params.flash_loan_assets callback_data
    ok (flash ∷ [])
