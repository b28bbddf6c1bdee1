-- ===== src/Morpho/Quote/Properties.antt =====
-- What the deltas, the roundings and the invariant flag of a quote promise.
use native.Mathlib.Nat.{le_trans}
use nest_protocol.Base.{
  ap, sym, ◌∙◌, ◌-◌, ℕ, ◌+◌, ◌*◌, ◌≤◌, ◌<◌, ◌≡◌, ◌≢◌, ◌↔◌, ◌⊎◌, refl, arith, true, Bool-cases, inl,
  inr, ==_iff, ◌==◌,
}
use nest_protocol.Base.Int.{ℤ, pos, ◌+ℤ◌, ◌-ℤ◌, ◌≤ℤ◌, int_laws, leb_ℤ, leb_ℤ_iff}
use nest_protocol.Base.Outcome.{ok, err}
use nest_protocol.Morpho.Types.{
  Position, MarketState, ExtraInputs, Quote, MorphoError, oracle_price_scale_zero,
}
use nest_protocol.Morpho.Quote.{quote_and_check_invariant}
use nest_protocol.Morpho.Quote.Rounding.{ceil_assets-add, ceil_assets_mono, ceil_div_bounds}
use nest_protocol.Morpho.Quote.Laws.{debt, exact_quote, quote-eq-ok, quote_zero_scale}

debt_reached :
    (market : MarketState) (t c : ℕ) → debt market t ≤ debt market c + debt market (t - c)
debt_reached market t c =
    le_trans
      (ceil_assets_mono t (c + (t - c)) market.total_borrow_assets market.total_borrow_shares
        (omega arith))
      (ceil_assets-add c (t - c) market.total_borrow_assets market.total_borrow_shares)

flag_iff : (n e t u : ℤ) → (leb_ℤ (t +ℤ u) (n +ℤ e) ≡ true) ↔ (u ≤ℤ n +ℤ e -ℤ t)
flag_iff n e t u = (
  λ h. omega (int_laws, (leb_ℤ_iff (t +ℤ u) (n +ℤ e)).0 h),
  λ h. (leb_ℤ_iff (t +ℤ u) (n +ℤ e)).1 (omega int_laws),
)

module _ (current target : Position) (market : MarketState) (price scale : ℕ)
    (extra : ExtraInputs) where
  -- With an oracle scale other than zero the code returns a quote whose deltas lead from the
  -- current position to the target: of borrowing and repaying shares at most one is not zero, and
  -- so for supplying and withdrawing collateral.
  pub quote_reaches_target :
      scale ≢ 0
      → (q : Quote) × (quote_and_check_invariant current target market price scale extra ≡ ok q)
        × (current.borrow_shares + q.borrow_shares_delta
            ≡ target.borrow_shares + q.repay_shares_delta)
        × ((q.borrow_shares_delta ≡ 0) ⊎ (q.repay_shares_delta ≡ 0))
        × (current.collateral + q.supply_collateral_delta
            ≡ target.collateral + q.withdraw_collateral_delta)
        × ((q.supply_collateral_delta ≡ 0) ⊎ (q.withdraw_collateral_delta ≡ 0))
  quote_reaches_target h = (
    exact_quote current target market price scale extra,
    quote-eq-ok current target market price scale extra h,
    omega arith,
    omega arith,
    omega arith,
    omega arith,
  )

  -- With an oracle scale other than zero the code returns a quote whose borrowed and repaid assets
  -- are the shares' worth rounded up: they cover it, and exceed it by less than one asset.
  pub quote_rounds_up :
      scale ≢ 0
      → (q : Quote) × (quote_and_check_invariant current target market price scale extra ≡ ok q)
        × (q.borrow_shares_delta * (market.total_borrow_assets + 1)
            ≤ q.borrow_assets_delta * (market.total_borrow_shares + 1_000_000))
        × (q.borrow_assets_delta * (market.total_borrow_shares + 1_000_000)
            < q.borrow_shares_delta * (market.total_borrow_assets + 1)
              + (market.total_borrow_shares + 1_000_000))
        × (q.repay_shares_delta * (market.total_borrow_assets + 1)
            ≤ q.repay_assets_delta * (market.total_borrow_shares + 1_000_000))
        × (q.repay_assets_delta * (market.total_borrow_shares + 1_000_000)
            < q.repay_shares_delta * (market.total_borrow_assets + 1)
              + (market.total_borrow_shares + 1_000_000))
  quote_rounds_up h =
      let q : Quote = exact_quote current target market price scale extra in
      let d : ℕ = market.total_borrow_shares + 1_000_000 in
      let up =
        ceil_div_bounds (q.borrow_shares_delta * (market.total_borrow_assets + 1)) d
          (omega arith) in
      let down =
        ceil_div_bounds (q.repay_shares_delta * (market.total_borrow_assets + 1)) d (omega arith) in
      (q, quote-eq-ok current target market price scale extra h, up.0, up.1, down.0, down.1)

  -- With an oracle scale other than zero the code returns a quote whose rounded deltas never lose
  -- debt: the target's debt is at most the current debt and the assets borrowed, and the current
  -- debt is at most the target's and the assets repaid.
  pub quote_covers_debt :
      scale ≢ 0
      → (q : Quote) × (quote_and_check_invariant current target market price scale extra ≡ ok q)
        × (debt market target.borrow_shares
            ≤ debt market current.borrow_shares + q.borrow_assets_delta)
        × (debt market current.borrow_shares
            ≤ debt market target.borrow_shares + q.repay_assets_delta)
  quote_covers_debt h = (
    exact_quote current target market price scale extra,
    quote-eq-ok current target market price scale extra h,
    debt_reached market target.borrow_shares current.borrow_shares,
    debt_reached market current.borrow_shares target.borrow_shares,
  )

  -- With an oracle scale other than zero the code returns a quote whose flag is set exactly when
  -- the token amount promised to the user is at most the amount that the quote expects to be left,
  -- and that amount is the current net value and the extra value less the target's net value.
  pub quote_invariant_iff :
      scale ≢ 0
      → (q : Quote) × (quote_and_check_invariant current target market price scale extra ≡ ok q)
        × (q.expected_token_transferred_back
            ≡ q.current_net_value +ℤ pos q.extra_provided_value -ℤ q.target_net_value)
        × ((q.invariant_holds ≡ true)
            ↔ (pos extra.token_transferred_back_to_user ≤ℤ q.expected_token_transferred_back))
  quote_invariant_iff h =
      let q : Quote = exact_quote current target market price scale extra in
      (
        q,
        quote-eq-ok current target market price scale extra h,
        refl,
        flag_iff q.current_net_value (pos q.extra_provided_value) q.target_net_value
            (pos extra.token_transferred_back_to_user),
      )

  -- The code throws exactly when the oracle scale is zero, and then only for that.
  pub quote_throws_iff :
      (e : MorphoError)
      → (quote_and_check_invariant current target market price scale extra ≡ err e)
        ↔ ((scale ≡ 0) × (e ≡ oracle_price_scale_zero))
  quote_throws_iff e = elim (Bool-cases (scale == 0)) [
    | inl zero_scale ↦
        let thrown = quote_zero_scale current target market price scale extra zero_scale in
        (λ h. ((==_iff scale 0).0 zero_scale, cc), λ h. thrown ∙ ap err (sym h.1))
    | inr other ↦
        let good : scale ≢ 0 = ground arith in
        let returned = quote-eq-ok current target market price scale extra good in
        (λ h. cc, λ h. absurd (good h.0))
  ]
