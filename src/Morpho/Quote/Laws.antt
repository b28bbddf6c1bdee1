-- ===== src/Morpho/Quote/Laws.antt =====
-- What a quote says of the two positions.
use native.Mathlib.Nat.{sub-eq-zero_of_le}
use nest_protocol.Base.{
  ℕ, ◌+◌, ◌-◌, ◌*◌, ◌/◌, ◌≡◌, ◌≢◌, arith, ◌==◌, if◌then◌else◌, Bool-cases, inl, inr, ==_iff, leb,
  ltb, true, leb→le, le_of_leb-false,
}
use nest_protocol.Base.Int.{ℤ, pos, ◌+ℤ◌, ◌-ℤ◌, leb_ℤ}
use nest_protocol.Base.Outcome.{ok, err}
use nest_protocol.Morpho.Types.{Position, MarketState, ExtraInputs, Quote, oracle_price_scale_zero}
use nest_protocol.Morpho.Quote.{borrow_deltas, quote_and_check_invariant}
use nest_protocol.Morpho.Quote.Rounding.{
  ceil_assets, ceil_assets_zero, to_assets_up-eq-ok, collateral_to_loan_value-eq-ok,
}

module _ (market : MarketState) where
  -- The assets that a number of shares stands for in this market.
  abbrev pub debt : ℕ → ℕ
  debt shares = ceil_assets shares market.total_borrow_assets market.total_borrow_shares

module _ (current target : Position) (market : MarketState) where
  pub borrow_deltas-eq-ok :
      borrow_deltas current target market
      ≡ ok (
        target.borrow_shares - current.borrow_shares,
        current.borrow_shares - target.borrow_shares,
        debt market (target.borrow_shares - current.borrow_shares),
        debt market (current.borrow_shares - target.borrow_shares),
      )
  unfolding borrow_deltas
  borrow_deltas-eq-ok = elim (Bool-cases (leb current.borrow_shares target.borrow_shares)) [
    | inl up ↦ simp (up, to_assets_up-eq-ok, sub-eq-zero_of_le (leb→le _ _ up), ceil_assets_zero)
    | inr down ↦
        simp
          (down, to_assets_up-eq-ok, sub-eq-zero_of_le (le_of_leb-false _ _ down), ceil_assets_zero)
  ]

module _ (current target : Position) (market : MarketState) (price scale : ℕ)
    (extra : ExtraInputs) where
  abbrev net_value : Position → ℤ
  net_value p = pos (p.collateral * price / scale) -ℤ pos (debt market p.borrow_shares)

  abbrev provided : ℕ
  provided = extra.extra_loan_assets + extra.extra_collateral * price / scale

  -- The quote in closed form.
  abbrev pub exact_quote : Quote
  exact_quote = record {
    borrow_shares_delta = target.borrow_shares - current.borrow_shares;
    repay_shares_delta = current.borrow_shares - target.borrow_shares;
    supply_collateral_delta = target.collateral - current.collateral;
    withdraw_collateral_delta = current.collateral - target.collateral;
    borrow_assets_delta = debt market (target.borrow_shares - current.borrow_shares);
    repay_assets_delta = debt market (current.borrow_shares - target.borrow_shares);
    current_net_value = net_value current;
    target_net_value = net_value target;
    extra_provided_value = provided;
    expected_token_transferred_back = net_value current +ℤ pos provided -ℤ net_value target;
    invariant_holds =
        leb_ℤ (net_value target +ℤ pos extra.token_transferred_back_to_user)
          (net_value current +ℤ pos provided);
  }

  supply_branch : (c t : ℕ) → (if leb c t then t - c else 0) ≡ t - c
  supply_branch c t = ground arith

  withdraw_branch : (c t : ℕ) → (if ltb t c then c - t else 0) ≡ c - t
  withdraw_branch c t = ground arith

  pub quote-eq-ok :
      scale ≢ 0 → quote_and_check_invariant current target market price scale extra ≡ ok exact_quote
  unfolding quote_and_check_invariant
  quote-eq-ok h = elim (Bool-cases (scale == 0)) [
    | inl e ↦ absurd (h ((==_iff scale 0).0 e))
    | inr e ↦ simp (
      e,
      borrow_deltas-eq-ok current target market,
      to_assets_up-eq-ok,
      λ (c : ℕ). collateral_to_loan_value-eq-ok c price scale h,
      supply_branch,
      withdraw_branch,
    )
  ]

  pub quote_zero_scale :
      (scale == 0) ≡ true
      → quote_and_check_invariant current target market price scale extra
        ≡ err oracle_price_scale_zero
  unfolding quote_and_check_invariant
  quote_zero_scale e = simp e
