-- ===== src/Morpho/Bundle/Properties.antt =====
-- The bundles as a whole: what they leave behind, and when they are refused.
use nest_protocol.Base.{
  ℕ, ◌-◌, ◌<◌, ◌≡◌, ◌∙◌, false, not, ◌||◌, ◌==◌, some, List, [], ◌∷◌, ◌++◌, All, if◌then◌else◌,
  arith,
}
use nest_protocol.Base.Text.{text_eq}
use nest_protocol.Base.Outcome.{ok, throw_if-ok_inv, >>=-ok_inv}
use nest_protocol.Morpho.Types.{
  MarketParams, AddressBook, Call, ExtraInputs, Quote, increase_expects_non_decreasing,
  increase_needs_borrow, decrease_expects_non_increasing, decrease_needs_repay, DecreaseRoute,
}
use nest_protocol.Morpho.Abi.{Ethers, encode_call_array}
use nest_protocol.Morpho.Abi.Laws.{IsChecksummed, IsAbi, market_addresses}
use nest_protocol.Morpho.Params.{derive_increase_params, derive_decrease_params}
use nest_protocol.Morpho.Params.Laws.{exact_increase, increase-eq-ok}
use nest_protocol.Morpho.Params.Properties.{increase_accepted_iff, decrease_balances}
use nest_protocol.Morpho.Bundle.{
  push_when, adapters_are_shared, flash_loan_call, increase_callback, build_increase_bundle,
  decrease_callback, build_decrease_bundle,
}
use nest_protocol.Morpho.Bundle.Flow.{Balances, run_bundle, credit, debit, ◌>>=◌}
use nest_protocol.Morpho.Bundle.Legs.{IsCanonicalBook, same_address_refl}
use nest_protocol.Morpho.Bundle.Settlement.{
  increase_runs, settle_exact, run_flash_bundle, callback_read,
}
use nest_protocol.Morpho.Bundle.Decrease.{decrease_callback-runs}

-- The loan pays the debt, and the initiator's tokens the loan.
pay_back :
    (a : AddressBook) (n : ℕ)
    → let start : Balances =
        credit a a.general_adapter n (record { in_general = 0; in_nest = 0 }) in
      ((debit a a.general_adapter n start
          >>= (λ b. if not (n == 0) then some (credit a a.general_adapter n b) else some b))
        >>= debit a a.general_adapter n)
      ≡ some (record { in_general = 0; in_nest = 0 })
pay_back a n = ground (arith, same_address_refl a.general_adapter)

module _ (e : Ethers) (laws : IsAbi e) (a : AddressBook) (market : MarketParams)
    (book : IsCanonicalBook e a) (spelled : All (IsChecksummed e) (market_addresses market)) where
  -- On a market whose collateral token is not its loan token, with the address book and the market's
  -- addresses in their checksummed spelling and an ethers package that obeys IsAbi: a bundle that the
  -- increase route returns can be carried out from empty adapters: no call takes more loan tokens
  -- than its adapter holds and the flash loan is paid back. The quote then has nothing to repay or
  -- withdraw and something to borrow. The Nest adapter ends empty; the general adapter keeps the
  -- borrowed assets beyond the deposit, which no call of the bundle passes on.
  pub increase_settles :
      (q : Quote) (extra : ExtraInputs) (price : ℕ) (bundle : List Call)
      → text_eq market.collateral_token market.loan_token ≡ false
      → build_increase_bundle e a market q extra price ≡ ok bundle
      → (q.repay_assets_delta ≡ 0)
        × (q.withdraw_collateral_delta ≡ 0)
        × (0 < q.borrow_assets_delta)
        × (run_bundle e a market.loan_token bundle (record { in_general = 0; in_nest = 0 })
            ≡ some (record {
              in_general =
                  q.borrow_assets_delta - (q.supply_collateral_delta - extra.extra_collateral);
              in_nest = 0;
            }))
  unfolding build_increase_bundle
  increase_settles q extra price bundle other_token made =
      let (guard₁, made₁) =
        throw_if-ok_inv (not (q.repay_assets_delta == 0) || not (q.withdraw_collateral_delta == 0))
          increase_expects_non_decreasing _ made in
      let (guard₂, made₂) =
        throw_if-ok_inv (q.borrow_assets_delta == 0) increase_needs_borrow _ made₁ in
      let (p, derived, made₃) =
        >>=-ok_inv (derive_increase_params q extra price (adapters_are_shared a)) _ made₂ in
      let (cs, callback, made₄) = >>=-ok_inv (increase_callback e a market p) _ made₃ in
      let (callback_data, encoding, made₅) = >>=-ok_inv (encode_call_array e cs) _ made₄ in
      let (xs, extra_loan, made₆) = >>=-ok_inv (push_when _ _) _ made₅ in
      let (c, flash, made₇) =
        >>=-ok_inv (flash_loan_call e a market p.flash_loan_assets callback_data) _ made₆ in
      let joined : xs ++ c ∷ [] ≡ bundle = cc in
      let funded = (increase_accepted_iff q extra price (adapters_are_shared a)).0 (p, derived) in
      let exact : p ≡ exact_increase q extra price (adapters_are_shared a) =
        cc (increase-eq-ok q extra price (adapters_are_shared a) funded) in
      (
        ground arith,
        ground arith,
        ground arith,
        rw (← joined) (
            increase_runs e laws a market book spelled q extra price p cs callback_data xs c
              other_token callback encoding extra_loan flash
            ∙ rw exact (settle_exact a q extra price funded)),
      )

  -- With the address book and the market's addresses in their checksummed spelling and an ethers
  -- package that obeys IsAbi: a bundle that a decrease route returns can be carried out from empty
  -- adapters, and leaves them empty: the flash loan pays the debt, and what is pulled from the initiator pays the loan back.
  -- The quote then has nothing to borrow or supply and something to repay.
  pub decrease_settles :
      (route : DecreaseRoute) (q : Quote) (extra : ExtraInputs) (price : ℕ) (bundle : List Call)
      → build_decrease_bundle e a market route q extra price ≡ ok bundle
      → (q.borrow_assets_delta ≡ 0)
        × (q.supply_collateral_delta ≡ 0)
        × (0 < q.repay_assets_delta)
        × (run_bundle e a market.loan_token bundle (record { in_general = 0; in_nest = 0 })
            ≡ some (record { in_general = 0; in_nest = 0 }))
  unfolding build_decrease_bundle
  decrease_settles route q extra price bundle made =
      let (guard₁, made₁) =
        throw_if-ok_inv (not (q.borrow_assets_delta == 0) || not (q.supply_collateral_delta == 0))
          decrease_expects_non_increasing _ made in
      let (guard₂, made₂) =
        throw_if-ok_inv (q.repay_assets_delta == 0) decrease_needs_repay _ made₁ in
      let (p, derived, made₃) = >>=-ok_inv (derive_decrease_params q extra price) _ made₂ in
      let (cs, callback, made₄) = >>=-ok_inv (decrease_callback e a market route p) _ made₃ in
      let (callback_data, encoding, made₅) = >>=-ok_inv (encode_call_array e cs) _ made₄ in
      let (c, flash, made₆) =
        >>=-ok_inv (flash_loan_call e a market p.flash_loan_assets callback_data) _ made₅ in
      let joined : c ∷ [] ≡ bundle = cc in
      let ran = decrease_callback-runs e laws a market book spelled route p cs callback in
      let read = callback_read e laws a market book spelled cs callback_data ran.0 encoding in
      let balance = decrease_balances q extra price p derived in
      (
        ground arith,
        ground arith,
        ground arith,
        rw (← joined) (
            run_flash_bundle e laws a market book spelled p.flash_loan_assets callback_data c cs _
              read.1 flash read.0
            ∙ rw (ran.1, balance.1, balance.2) (pay_back a p.flash_loan_assets)),
      )
