-- ===== src/Morpho/Params/Laws.antt =====
-- When the derived parameters exist, and that the loan tokens they move balance.
use nest_protocol.Base.{
  min, refl, if◌then◌else◌, ◌==◌, ℕ, ◌+◌, ◌-◌, ◌≤◌, ◌≡◌, Bool, true, false, arith,
}
use nest_protocol.Base.Outcome.{ok, err}
use nest_protocol.Morpho.Types.{
  ExtraInputs, Quote, IncreaseParams, DecreaseParams, not_enough_shares_for_redeem, max_uint256,
  flash_loan_to_nest_exceeds_flash_loan, deposit_exceeds_available,
}
use nest_protocol.Morpho.Params.{smaller, excess, derive_increase_params, derive_decrease_params}

excess-eq-sub : (a b : ℕ) → excess a b ≡ a - b
unfolding excess
excess-eq-sub a b = ground arith

smaller-eq-min : (a b : ℕ) → smaller a b ≡ min a b
unfolding smaller
smaller-eq-min a b = ground arith

if_refl : (b : Bool) → (if b then true else true) ≡ true
if_refl true = refl
if_refl false = refl

module _ (q : Quote) (extra : ExtraInputs) (price : ℕ) where
  -- The collateral to supply is worth no more than the borrowed assets and the extra inputs. It is
  -- the same test for one shared adapter as for two.
  abbrev pub IsFunded : Type 0
  IsFunded =
      q.supply_collateral_delta
      ≤ q.borrow_assets_delta + extra.extra_loan_assets + extra.extra_collateral

  abbrev pub to_deposit : ℕ
  to_deposit = q.supply_collateral_delta - extra.extra_collateral

  -- The parameters of an increase in closed form.
  abbrev pub exact_increase : Bool → IncreaseParams
  exact_increase shared =
      let from_extra = min extra.extra_loan_assets (to_deposit - q.borrow_assets_delta) in
      record {
        flash_loan_assets = q.borrow_assets_delta;
        flash_loan_to_nest_assets = if shared then 0 else to_deposit - from_extra;
        extra_loan_to_nest_assets = from_extra;
        deposit_assets = to_deposit;
        collateral_from_initiator_assets = q.supply_collateral_delta;
        supply_collateral_assets = q.supply_collateral_delta;
        borrow_assets = q.borrow_assets_delta;
        min_borrow_share_price_e27 = price;
      }

  pub increase-eq-ok :
      (shared : Bool)
      → IsFunded
      → derive_increase_params q extra price shared ≡ ok (exact_increase shared)
  unfolding derive_increase_params
  increase-eq-ok true h = simp (excess-eq-sub, smaller-eq-min) (ground arith)
  increase-eq-ok false h = simp (excess-eq-sub, smaller-eq-min) (ground arith)

  pub increase-eq-err :
      (shared : Bool)
      → ¬ IsFunded
      → derive_increase_params q extra price shared
        ≡ err (if shared then deposit_exceeds_available else flash_loan_to_nest_exceeds_flash_loan)
  unfolding derive_increase_params
  increase-eq-err true h = simp (excess-eq-sub, smaller-eq-min) (ground arith)
  increase-eq-err false h = simp (excess-eq-sub, smaller-eq-min) (ground arith)

  -- The parameters of a decrease in closed form.
  abbrev pub exact_decrease : DecreaseParams
  exact_decrease = record {
    flash_loan_assets = q.repay_assets_delta;
    repay_assets = q.repay_assets_delta;
    max_repay_share_price_e27 = if price == 0 then max_uint256 else price;
    withdraw_collateral_assets = q.withdraw_collateral_delta;
    redeem_shares = q.repay_assets_delta - extra.extra_loan_assets;
    loan_from_initiator_assets = q.repay_assets_delta;
  }

  -- The flash loan can be paid back from the withdrawn collateral and the extra inputs.
  abbrev pub IsRefilled : Type 0
  IsRefilled =
      q.repay_assets_delta
      ≤ q.withdraw_collateral_delta + extra.extra_collateral + extra.extra_loan_assets

  pub decrease-eq-ok : IsRefilled → derive_decrease_params q extra price ≡ ok exact_decrease
  unfolding derive_decrease_params
  decrease-eq-ok h = simp excess-eq-sub (ground arith)

  pub decrease-eq-err :
      ¬ IsRefilled → derive_decrease_params q extra price ≡ err not_enough_shares_for_redeem
  unfolding derive_decrease_params
  decrease-eq-err h = simp excess-eq-sub (ground arith)
