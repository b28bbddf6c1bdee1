-- ===== src/Morpho/Quote.antt =====
-- `quoteAndCheckInvariant` of tools/morpho/common.ts, and the arithmetic under it.
pub mod Rounding
pub mod Laws
pub mod Properties
use nest_protocol.Base.{ℕ, ◌+◌, ◌-◌, ◌*◌, ◌/◌, Bool, ◌||◌, ◌==◌, leb, ltb, if◌then◌else◌}
use nest_protocol.Base.Int.{ℤ, pos, ◌+ℤ◌, ◌-ℤ◌, leb_ℤ}
use nest_protocol.Base.Outcome.{Result, ok, err, ◌>>=◌, ◌>>◌, throw_if}
use nest_protocol.Morpho.Types.{
  Position, MarketState, ExtraInputs, Quote, MorphoError, division_by_zero, range_error,
  oracle_price_scale_zero, virtual_assets, virtual_shares,
}

unfoldable pub mul_div_up : ℕ → ℕ → ℕ → Result MorphoError ℕ
mul_div_up x y d = do throw_if (d == 0) division_by_zero; ok ((x * y + (d - 1)) / d)

unfoldable pub to_assets_up : ℕ → ℕ → ℕ → Result MorphoError ℕ
to_assets_up shares total_assets total_shares =
    if shares == 0
    then ok 0
    else mul_div_up shares (total_assets + virtual_assets) (total_shares + virtual_shares)

unfoldable pub collateral_to_loan_value : ℕ → ℕ → ℕ → Result MorphoError ℕ
collateral_to_loan_value collateral price scale =
    if collateral == 0 || price == 0
    then ok 0
    else throw_if (scale == 0) range_error >> ok (collateral * price / scale)

-- borrowSharesDelta, repaySharesDelta, borrowAssetsDelta, repayAssetsDelta
unfoldable pub borrow_deltas :
    Position → Position → MarketState → Result MorphoError (ℕ × ℕ × ℕ × ℕ)
borrow_deltas current target market =
    if leb current.borrow_shares target.borrow_shares
    then (do
      let shares = target.borrow_shares - current.borrow_shares
      assets ← to_assets_up shares market.total_borrow_assets market.total_borrow_shares
      ok (shares, 0, assets, 0))
    else (do
      let shares = current.borrow_shares - target.borrow_shares
      assets ← to_assets_up shares market.total_borrow_assets market.total_borrow_shares
      ok (0, shares, 0, assets))

unfoldable pub quote_and_check_invariant :
    Position → Position → MarketState → ℕ → ℕ → ExtraInputs → Result MorphoError Quote
quote_and_check_invariant current target market collateral_price oracle_price_scale extra = do
  throw_if (oracle_price_scale == 0) oracle_price_scale_zero
  deltas ← borrow_deltas current target market
  let total_assets = market.total_borrow_assets
  let total_shares = market.total_borrow_shares
  let supply =
      if leb current.collateral target.collateral then target.collateral - current.collateral else 0
  let withdraw =
      if ltb target.collateral current.collateral then current.collateral - target.collateral else 0
  current_borrow ← to_assets_up current.borrow_shares total_assets total_shares
  target_borrow ← to_assets_up target.borrow_shares total_assets total_shares
  current_value ← collateral_to_loan_value current.collateral collateral_price oracle_price_scale
  target_value ← collateral_to_loan_value target.collateral collateral_price oracle_price_scale
  extra_value ← collateral_to_loan_value extra.extra_collateral collateral_price oracle_price_scale
  let current_net_value = pos current_value -ℤ pos current_borrow
  let target_net_value = pos target_value -ℤ pos target_borrow
  let extra_provided_value = extra.extra_loan_assets + extra_value
  let available_value = current_net_value +ℤ pos extra_provided_value
  let required_value = target_net_value +ℤ pos extra.token_transferred_back_to_user
  ok (record {
    borrow_shares_delta = deltas.0;
    repay_shares_delta = deltas.1;
    supply_collateral_delta = supply;
    withdraw_collateral_delta = withdraw;
    borrow_assets_delta = deltas.2;
    repay_assets_delta = deltas.3;
    current_net_value = current_net_value;
    target_net_value = target_net_value;
    extra_provided_value = extra_provided_value;
    expected_token_transferred_back = available_value -ℤ target_net_value;
    invariant_holds = leb_ℤ required_value available_value;
  })
