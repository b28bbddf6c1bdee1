-- ===== src/Morpho/Route/Laws.antt =====
-- Which positions take which route.
use nest_protocol.Base.{ℕ, ◌-◌, ◌≤◌, ◌<◌, ◌≡◌, ◌≢◌, ◌↔◌, ◌⊎◌, arith}
use nest_protocol.Base.Outcome.{Result, ok, err, ◌>>=◌}
use nest_protocol.Morpho.Types.{
  Position, MarketState, ExtraInputs, Quote, DecreaseRoute, BundleRoute, MorphoError, increase,
  decrease, already_at_target, mixed_route,
}
use nest_protocol.Morpho.Quote.{quote_and_check_invariant}
use nest_protocol.Morpho.Quote.Rounding.{ceil_assets_sign}
use nest_protocol.Morpho.Quote.Laws.{exact_quote, quote-eq-ok}
use nest_protocol.Morpho.Route.{resolve_position_route}

module _ (q : Quote) (r : DecreaseRoute) where
  increase_iff : (resolve_position_route q r ≡ ok increase) ↔ (
      ((0 < q.borrow_assets_delta) ⊎ (0 < q.supply_collateral_delta))
      × (q.repay_assets_delta ≡ 0)
      × (q.withdraw_collateral_delta ≡ 0))
  unfolding resolve_position_route
  increase_iff = (λ e. ground arith, λ h. ground arith)

  decrease_iff : (resolve_position_route q r ≡ ok (decrease r)) ↔ (
      ((0 < q.repay_assets_delta) ⊎ (0 < q.withdraw_collateral_delta))
      × (q.borrow_assets_delta ≡ 0)
      × (q.supply_collateral_delta ≡ 0))
  unfolding resolve_position_route
  decrease_iff = (λ e. ground arith, λ h. ground arith)

  mixed_iff : (resolve_position_route q r ≡ err mixed_route) ↔ (
      ((0 < q.borrow_assets_delta) ⊎ (0 < q.supply_collateral_delta))
      × ((0 < q.repay_assets_delta) ⊎ (0 < q.withdraw_collateral_delta)))
  unfolding resolve_position_route
  mixed_iff = (λ e. ground arith, λ h. ground arith)

  at_target_iff : (resolve_position_route q r ≡ err already_at_target) ↔ (
      (q.borrow_assets_delta ≡ 0)
      × (q.supply_collateral_delta ≡ 0)
      × (q.repay_assets_delta ≡ 0)
      × (q.withdraw_collateral_delta ≡ 0))
  unfolding resolve_position_route
  at_target_iff = (λ e. ground arith, λ h. ground arith)

-- Quoting and then choosing, as `runPositionScript` does.
abbrev pub quoted_route :
    Position
    → Position
    → MarketState
    → ℕ
    → ℕ
    → ExtraInputs
    → DecreaseRoute
    → Result MorphoError BundleRoute
quoted_route current target market price scale extra r = do
  q ← quote_and_check_invariant current target market price scale extra
  resolve_position_route q r

module _ (current target : Position) (market : MarketState) (price scale : ℕ) (extra : ExtraInputs)
    (r : DecreaseRoute) where
  abbrev route : Result MorphoError BundleRoute
  route = quoted_route current target market price scale extra r

  -- With an oracle scale other than zero the chosen route depends on the two positions alone. It is
  -- the increase exactly when neither amount falls and one grows, the requested decrease exactly
  -- when neither grows and one falls, an error on a mixed route exactly when one grows and one
  -- falls, and an error on a reached target exactly when both are equal: rounding never hides a
  -- change of the debt.
  pub quoted_route_iff :
      scale ≢ 0
      → ((route ≡ ok increase) ↔ (
          (current.borrow_shares ≤ target.borrow_shares)
          × (current.collateral ≤ target.collateral)
          × ((current.borrow_shares < target.borrow_shares)
              ⊎ (current.collateral < target.collateral))))
        × ((route ≡ ok (decrease r)) ↔ (
            (target.borrow_shares ≤ current.borrow_shares)
            × (target.collateral ≤ current.collateral)
            × ((target.borrow_shares < current.borrow_shares)
                ⊎ (target.collateral < current.collateral))))
        × ((route ≡ err mixed_route) ↔ (
            ((current.borrow_shares < target.borrow_shares)
              ⊎ (current.collateral < target.collateral))
            × ((target.borrow_shares < current.borrow_shares)
                ⊎ (target.collateral < current.collateral))))
        × ((route ≡ err already_at_target) ↔ (
            (current.borrow_shares ≡ target.borrow_shares)
            × (current.collateral ≡ target.collateral)))
  quoted_route_iff h =
      let q : Quote = exact_quote current target market price scale extra in
      let up =
        ceil_assets_sign (target.borrow_shares - current.borrow_shares) market.total_borrow_assets
          market.total_borrow_shares in
      let down =
        ceil_assets_sign (current.borrow_shares - target.borrow_shares) market.total_borrow_assets
          market.total_borrow_shares in
      rw (quote-eq-ok current target market price scale extra h) (
        (
          λ e. omega (arith, up, down, (increase_iff q r).0 e),
          λ e. (increase_iff q r).1 (omega (arith, up, down)),
        ),
        (
          λ e. omega (arith, up, down, (decrease_iff q r).0 e),
          λ e. (decrease_iff q r).1 (omega (arith, up, down)),
        ),
        (
          λ e. omega (arith, up, down, (mixed_iff q r).0 e),
          λ e. (mixed_iff q r).1 (omega (arith, up, down)),
        ),
        (
          λ e. omega (arith, up, down, (at_target_iff q r).0 e),
          λ e. (at_target_iff q r).1 (omega (arith, up, down)),
        ),
      )
