-- ===== src/Morpho/Params/Properties.antt =====
-- When the derived parameters exist, and that what they move balances.
use native.Mathlib.Decide.{dec_le}
use nest_protocol.Base.{
  ℕ, ◌+◌, ◌-◌, ◌⊎◌, ◌≤◌, ◌≡◌, ◌≢◌, ◌↔◌, Bool, true, false, arith, if◌then◌else◌,
}
use nest_protocol.Base.Outcome.{ok, err}
use nest_protocol.Morpho.Types.{
  ExtraInputs, Quote, IncreaseParams, DecreaseParams, would_reduce_net_exposure,
}
use nest_protocol.Morpho.Params.{derive_increase_params, derive_decrease_params}
use nest_protocol.Morpho.Params.Laws.{
  IsFunded, exact_increase, increase-eq-ok, increase-eq-err, exact_decrease, decrease-eq-ok,
  decrease-eq-err,
}

module _ (q : Quote) (extra : ExtraInputs) (price : ℕ) where
  -- Whether one adapter is shared or two are used, an increase is accepted exactly when the
  -- collateral to supply is at most the borrowed assets, the extra loan assets and the extra
  -- collateral together.
  pub increase_accepted_iff :
      (shared : Bool)
      → ((p : IncreaseParams) × (derive_increase_params q extra price shared ≡ ok p)) ↔ (
          q.supply_collateral_delta
          ≤ q.borrow_assets_delta + extra.extra_loan_assets + extra.extra_collateral)
  increase_accepted_iff shared = (
    λ accepted.
        elim (dec_le q.supply_collateral_delta
          (q.borrow_assets_delta + extra.extra_loan_assets + extra.extra_collateral)) [
            | yes funded ↦ funded
            | no short ↦ absurd (cc (increase-eq-err q extra price shared short, accepted.1))
          ],
    λ funded. (exact_increase q extra price shared, increase-eq-ok q extra price shared funded),
  )

  -- An accepted increase balances: the flash loan is what the borrow brings back, the deposit and
  -- the extra collateral cover what is supplied, the deposit is paid from the flash loan and the
  -- initiator's extra loan assets, of which no more is taken than is offered nor than the flash
  -- loan leaves open, and with two adapters the two transfers to the Nest adapter make up the
  -- deposit exactly.
  pub increase_balances :
      (shared : Bool) (p : IncreaseParams)
      → derive_increase_params q extra price shared ≡ ok p
      → (p.flash_loan_assets ≡ q.borrow_assets_delta)
        × (p.borrow_assets ≡ p.flash_loan_assets)
        × (p.supply_collateral_assets ≡ q.supply_collateral_delta)
        × (p.supply_collateral_assets ≤ p.deposit_assets + extra.extra_collateral)
        × (p.deposit_assets ≤ p.flash_loan_assets + p.extra_loan_to_nest_assets)
        × (p.extra_loan_to_nest_assets ≤ extra.extra_loan_assets)
        × (p.extra_loan_to_nest_assets ≤ p.deposit_assets)
        × ((p.extra_loan_to_nest_assets ≡ 0) ⊎ (p.flash_loan_assets ≤ p.deposit_assets))
        × (p.flash_loan_to_nest_assets
            ≡ (if shared then 0 else p.deposit_assets - p.extra_loan_to_nest_assets))
        × (p.flash_loan_to_nest_assets ≤ p.flash_loan_assets)
  increase_balances shared p e =
      let funded = (increase_accepted_iff shared).0 (p, e) in
      let same : p ≡ exact_increase q extra price shared =
        cc (increase-eq-ok q extra price shared funded) in
      rw same (balance shared funded)
    where
      balance :
          (s : Bool)
          → IsFunded q extra price
          → let x : IncreaseParams = exact_increase q extra price s in
            (x.flash_loan_assets ≡ q.borrow_assets_delta)
            × (x.borrow_assets ≡ x.flash_loan_assets)
            × (x.supply_collateral_assets ≡ q.supply_collateral_delta)
            × (x.supply_collateral_assets ≤ x.deposit_assets + extra.extra_collateral)
            × (x.deposit_assets ≤ x.flash_loan_assets + x.extra_loan_to_nest_assets)
            × (x.extra_loan_to_nest_assets ≤ extra.extra_loan_assets)
            × (x.extra_loan_to_nest_assets ≤ x.deposit_assets)
            × ((x.extra_loan_to_nest_assets ≡ 0) ⊎ (x.flash_loan_assets ≤ x.deposit_assets))
            × (x.flash_loan_to_nest_assets
                ≡ (if s then 0 else x.deposit_assets - x.extra_loan_to_nest_assets))
            × (x.flash_loan_to_nest_assets ≤ x.flash_loan_assets)
      balance true h = ground arith
      balance false h = ground arith

  -- A decrease is accepted exactly when the repaid assets are at most the withdrawn collateral, the
  -- extra collateral and the extra loan assets together; no quote and no input makes the code throw
  -- its error on a reduced share exposure, since that test only asks whether more is redeemed than
  -- repaid.
  pub decrease_accepted_iff :
      (((p : DecreaseParams) × (derive_decrease_params q extra price ≡ ok p)) ↔ (
        q.repay_assets_delta
        ≤ q.withdraw_collateral_delta + extra.extra_collateral + extra.extra_loan_assets))
      × (derive_decrease_params q extra price ≢ err would_reduce_net_exposure)
  decrease_accepted_iff =
      elim (dec_le q.repay_assets_delta
        (q.withdraw_collateral_delta + extra.extra_collateral + extra.extra_loan_assets)) [
          | yes enough ↦
              let accepted = decrease-eq-ok q extra price enough in
              ((λ _. enough, λ _. (exact_decrease q extra price, accepted)), λ e. cc)
          | no short ↦
              let refused = decrease-eq-err q extra price short in
              ((λ accepted. absurd (cc accepted.1), λ enough. absurd (short enough)), λ e. cc)
        ]

  -- An accepted decrease balances: the flash loan is what is repaid and what the initiator pays
  -- back, the redeemed shares and the extra loan assets cover it, no more is redeemed than the
  -- withdrawn and the extra collateral, nor than is repaid.
  pub decrease_balances :
      (p : DecreaseParams)
      → derive_decrease_params q extra price ≡ ok p
      → (p.flash_loan_assets ≡ q.repay_assets_delta)
        × (p.repay_assets ≡ p.flash_loan_assets)
        × (p.loan_from_initiator_assets ≡ p.flash_loan_assets)
        × (p.loan_from_initiator_assets ≤ p.redeem_shares + extra.extra_loan_assets)
        × (p.withdraw_collateral_assets ≡ q.withdraw_collateral_delta)
        × (p.redeem_shares ≤ p.withdraw_collateral_assets + extra.extra_collateral)
        × (p.redeem_shares ≤ p.repay_assets)
  decrease_balances p e =
      let enough = decrease_accepted_iff.0.0 (p, e) in
      let same : p ≡ exact_decrease q extra price = cc (decrease-eq-ok q extra price enough) in
      rw same (omega arith)
