-- ===== src/Morpho/Params.antt =====
-- `deriveIncreaseParams` and `deriveDecreaseParams` of tools/morpho/common.ts.
pub mod Laws
pub mod Properties
use nest_protocol.Base.{ℕ, ◌+◌, ◌-◌, Bool, true, false, ◌&&◌, not, ◌==◌, ltb, if◌then◌else◌}
use nest_protocol.Base.Outcome.{Result, ok, ◌>>=◌, ◌>>◌, throw_if}
use nest_protocol.Morpho.Types.{
  ExtraInputs, Quote, IncreaseParams, DecreaseParams, MorphoError,
  default_min_borrow_share_price_e27, default_max_repay_share_price_e27,
  flash_loan_to_nest_exceeds_flash_loan, deposit_exceeds_available, not_enough_shares_for_redeem,
  would_reduce_net_exposure,
}

-- `min` of the source; `a > b ? a - b : 0n` is written out as `excess`.
unfoldable pub smaller : ℕ → ℕ → ℕ
smaller a b = if ltb a b then a else b

unfoldable pub excess : ℕ → ℕ → ℕ
excess a b = if ltb b a then a - b else 0

-- `depositAssets - extraLoanToNestAssets` is a bigint that is never negative: the deposit is at
-- least what is required of the extra loan (`smaller-le-deposit`).
unfoldable pub derive_increase_params :
    Quote → ExtraInputs → ℕ → Bool → Result MorphoError IncreaseParams
derive_increase_params quote extra min_borrow_share_price_e27 adapters_are_shared = do
  let supply_collateral_assets = quote.supply_collateral_delta
  let borrow_assets = quote.borrow_assets_delta
  let flash_loan_assets = borrow_assets
  let deposit_assets = excess supply_collateral_assets extra.extra_collateral
  let required_extra_loan_to_nest_assets = excess deposit_assets flash_loan_assets
  let extra_loan_to_nest_assets = smaller extra.extra_loan_assets required_extra_loan_to_nest_assets
  let flash_loan_to_nest_assets =
      if adapters_are_shared then 0 else deposit_assets - extra_loan_to_nest_assets
  throw_if (not adapters_are_shared && ltb flash_loan_assets flash_loan_to_nest_assets)
      flash_loan_to_nest_exceeds_flash_loan
  throw_if
      (adapters_are_shared && ltb (flash_loan_assets + extra_loan_to_nest_assets) deposit_assets)
      deposit_exceeds_available
  ok (record {
    flash_loan_assets = flash_loan_assets;
    flash_loan_to_nest_assets = flash_loan_to_nest_assets;
    extra_loan_to_nest_assets = extra_loan_to_nest_assets;
    deposit_assets = deposit_assets;
    collateral_from_initiator_assets = supply_collateral_assets;
    supply_collateral_assets = supply_collateral_assets;
    borrow_assets = borrow_assets;
    min_borrow_share_price_e27 =
        if min_borrow_share_price_e27 == 0
        then default_min_borrow_share_price_e27
        else min_borrow_share_price_e27;
  })

unfoldable pub derive_decrease_params : Quote → ExtraInputs → ℕ → Result MorphoError DecreaseParams
derive_decrease_params quote extra max_repay_share_price_e27 = do
  let repay_assets = quote.repay_assets_delta
  let flash_loan_assets = repay_assets
  let loan_from_initiator_assets = flash_loan_assets
  let redeem_shares = excess loan_from_initiator_assets extra.extra_loan_assets
  let available_shares_for_redeem = quote.withdraw_collateral_delta + extra.extra_collateral
  throw_if (ltb available_shares_for_redeem redeem_shares) not_enough_shares_for_redeem
  throw_if (ltb (repay_assets + extra.extra_collateral) redeem_shares) would_reduce_net_exposure
  ok (record {
    flash_loan_assets = flash_loan_assets;
    repay_assets = repay_assets;
    max_repay_share_price_e27 =
        if max_repay_share_price_e27 == 0
        then default_max_repay_share_price_e27
        else max_repay_share_price_e27;
    withdraw_collateral_assets = quote.withdraw_collateral_delta;
    redeem_shares = redeem_shares;
    loan_from_initiator_assets = loan_from_initiator_assets;
  })
