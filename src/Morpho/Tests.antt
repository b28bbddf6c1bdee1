-- ===== src/Morpho/Tests.antt =====
-- Runs of the bundle builder at concrete inputs, and its theorems there.
use nest_protocol.Base.{
  ℕ, ◌+◌, ◌-◌, ◌*◌, ◌≤◌, ◌<◌, ◌≡◌, refl, ◌≢◌, ◌⊎◌, ◌↔◌, true, false, arith, if◌then◌else◌,
}
use nest_protocol.Base.Int.{pos, ◌+ℤ◌, ◌-ℤ◌, ◌≤ℤ◌}
use nest_protocol.Base.Outcome.{ok, err}
use nest_protocol.Morpho.Types.{
  Quote, IncreaseParams, DecreaseParams, oracle_price_scale_zero, would_reduce_net_exposure,
}
use nest_protocol.Morpho.Quote.{
  quote_and_check_invariant, borrow_deltas, to_assets_up, mul_div_up, collateral_to_loan_value,
}
use nest_protocol.Morpho.Quote.Laws.{debt}
use nest_protocol.Morpho.Quote.Properties.{
  quote_reaches_target, quote_rounds_up, quote_covers_debt, quote_invariant_iff, quote_throws_iff,
}
use nest_protocol.Morpho.Params.{derive_increase_params, derive_decrease_params, excess, smaller}
use nest_protocol.Morpho.Params.Laws.{exact_increase, exact_decrease}
use nest_protocol.Morpho.Params.Properties.{
  increase_accepted_iff, increase_balances, decrease_accepted_iff, decrease_balances,
}
use nest_protocol.Morpho.Sample.Data.{
  sample_state, low_position, high_position, sample_extra, up_quote, down_quote,
}

quote_up :
    quote_and_check_invariant low_position high_position sample_state 1 1 sample_extra ≡ ok up_quote
unfolding quote_and_check_invariant borrow_deltas to_assets_up mul_div_up collateral_to_loan_value
    ◌+ℤ◌ ◌-ℤ◌
quote_up = refl

quote_down :
    quote_and_check_invariant high_position low_position sample_state 1 1 sample_extra
    ≡ ok down_quote
unfolding quote_and_check_invariant borrow_deltas to_assets_up mul_div_up collateral_to_loan_value
    ◌+ℤ◌ ◌-ℤ◌
quote_down = refl

quote_reaches_target_example :
    (q : Quote) × (quote_and_check_invariant low_position high_position sample_state 1 1
        sample_extra
      ≡ ok q)
    × (100 + q.borrow_shares_delta ≡ 301 + q.repay_shares_delta)
    × ((q.borrow_shares_delta ≡ 0) ⊎ (q.repay_shares_delta ≡ 0))
    × (500 + q.supply_collateral_delta ≡ 590 + q.withdraw_collateral_delta)
    × ((q.supply_collateral_delta ≡ 0) ⊎ (q.withdraw_collateral_delta ≡ 0))
quote_reaches_target_example =
    quote_reaches_target low_position high_position sample_state 1 1 sample_extra (omega arith)

quote_rounds_up_example :
    (q : Quote) × (quote_and_check_invariant low_position high_position sample_state 1 1
        sample_extra
      ≡ ok q)
    × (q.borrow_shares_delta * 2_000_001 ≤ q.borrow_assets_delta * 4_000_000)
    × (q.borrow_assets_delta * 4_000_000 < q.borrow_shares_delta * 2_000_001 + 4_000_000)
    × (q.repay_shares_delta * 2_000_001 ≤ q.repay_assets_delta * 4_000_000)
    × (q.repay_assets_delta * 4_000_000 < q.repay_shares_delta * 2_000_001 + 4_000_000)
quote_rounds_up_example =
    quote_rounds_up low_position high_position sample_state 1 1 sample_extra (omega arith)

quote_covers_debt_example :
    (q : Quote) × (quote_and_check_invariant low_position high_position sample_state 1 1
        sample_extra
      ≡ ok q)
    × (debt sample_state 301 ≤ debt sample_state 100 + q.borrow_assets_delta)
    × (debt sample_state 100 ≤ debt sample_state 301 + q.repay_assets_delta)
quote_covers_debt_example =
    quote_covers_debt low_position high_position sample_state 1 1 sample_extra (omega arith)

quote_invariant_iff_example :
    (q : Quote) × (quote_and_check_invariant low_position high_position sample_state 1 1
        sample_extra
      ≡ ok q)
    × (q.expected_token_transferred_back
        ≡ q.current_net_value +ℤ pos q.extra_provided_value -ℤ q.target_net_value)
    × ((q.invariant_holds ≡ true) ↔ (pos 5 ≤ℤ q.expected_token_transferred_back))
quote_invariant_iff_example =
    quote_invariant_iff low_position high_position sample_state 1 1 sample_extra (omega arith)

quote_throws_iff_example :
    (quote_and_check_invariant low_position high_position sample_state 1 0 sample_extra
      ≡ err oracle_price_scale_zero)
    ↔ ((◌≡◌ {A = ℕ} 0 0) × (oracle_price_scale_zero ≡ oracle_price_scale_zero))
quote_throws_iff_example =
    quote_throws_iff low_position high_position sample_state 1 0 sample_extra
      oracle_price_scale_zero

increase_accepted_iff_example :
    ((p : IncreaseParams) × (derive_increase_params up_quote sample_extra 0 false ≡ ok p))
    ↔ (90 ≤ up_quote.borrow_assets_delta + 40 + 10)
increase_accepted_iff_example = increase_accepted_iff up_quote sample_extra 0 false

increase_derived :
    derive_increase_params up_quote sample_extra 0 false
    ≡ ok (exact_increase up_quote sample_extra 0 false)
unfolding derive_increase_params excess smaller
increase_derived = refl

increase_balances_example :
    let p : IncreaseParams = exact_increase up_quote sample_extra 0 false in
    (p.flash_loan_assets ≡ up_quote.borrow_assets_delta)
    × (p.borrow_assets ≡ p.flash_loan_assets)
    × (p.supply_collateral_assets ≡ up_quote.supply_collateral_delta)
    × (p.supply_collateral_assets ≤ p.deposit_assets + 10)
    × (p.deposit_assets ≤ p.flash_loan_assets + p.extra_loan_to_nest_assets)
    × (p.extra_loan_to_nest_assets ≤ 40)
    × (p.extra_loan_to_nest_assets ≤ p.deposit_assets)
    × ((p.extra_loan_to_nest_assets ≡ 0) ⊎ (p.flash_loan_assets ≤ p.deposit_assets))
    × (p.flash_loan_to_nest_assets
        ≡ (if false then 0 else p.deposit_assets - p.extra_loan_to_nest_assets))
    × (p.flash_loan_to_nest_assets ≤ p.flash_loan_assets)
increase_balances_example =
    increase_balances up_quote sample_extra 0 false (exact_increase up_quote sample_extra 0 false)
      increase_derived

decrease_accepted_iff_example :
    (((p : DecreaseParams) × (derive_decrease_params down_quote sample_extra 0 ≡ ok p))
      ↔ (101 ≤ down_quote.withdraw_collateral_delta + 10 + 40))
    × (derive_decrease_params down_quote sample_extra 0 ≢ err would_reduce_net_exposure)
decrease_accepted_iff_example = decrease_accepted_iff down_quote sample_extra 0

decrease_derived :
    derive_decrease_params down_quote sample_extra 0 ≡ ok (exact_decrease down_quote sample_extra 0)
unfolding derive_decrease_params excess
decrease_derived = refl

decrease_balances_example :
    let p : DecreaseParams = exact_decrease down_quote sample_extra 0 in
    (p.flash_loan_assets ≡ down_quote.repay_assets_delta)
    × (p.repay_assets ≡ p.flash_loan_assets)
    × (p.loan_from_initiator_assets ≡ p.flash_loan_assets)
    × (p.loan_from_initiator_assets ≤ p.redeem_shares + 40)
    × (p.withdraw_collateral_assets ≡ down_quote.withdraw_collateral_delta)
    × (p.redeem_shares ≤ p.withdraw_collateral_assets + 10)
    × (p.redeem_shares ≤ p.repay_assets)
decrease_balances_example =
    decrease_balances down_quote sample_extra 0 (exact_decrease down_quote sample_extra 0)
      decrease_derived
