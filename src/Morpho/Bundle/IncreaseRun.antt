-- ===== src/Morpho/Bundle/IncreaseRun.antt =====
-- Carrying out the callback of an increase.
use nest_protocol.Base.{
  ◌+◌, ◌-◌, ◌≤◌, ◌≡◌, refl, ◌∙◌, Bool, true, false, ◌&&◌, not, ◌==◌, Option, some, List, All,
  if◌then◌else◌, arith,
}
use nest_protocol.Base.Text.{text_eq, text_eq_refl}
use nest_protocol.Morpho.Types.{MarketParams, AddressBook, Call, IncreaseParams}
use nest_protocol.Morpho.Abi.{Ethers, same_address}
use nest_protocol.Morpho.Abi.Laws.{IsChecksummed, IsAbi, market_addresses}
use nest_protocol.Morpho.Bundle.{adapters_are_shared, nest_execution_adapter}
use nest_protocol.Morpho.Bundle.Flow.{Balances, perform, run_calls, credit, debit, ◌>>=◌}
use nest_protocol.Morpho.Bundle.Legs.{
  IsCanonicalBook, leg_then, same_address_refl, same_address_sym,
}
use nest_protocol.Morpho.Bundle.Increase.{Legs}

if_same : {A : Type 0} (b : Bool) (x : A) → (if b then x else x) ≡ x
if_same true x = refl
if_same false x = refl

module _ (a : AddressBook) (p : IncreaseParams) where
  abbrev move_step : Balances → Option Balances
  move_step b =
      if not (p.flash_loan_to_nest_assets == 0) && not (adapters_are_shared a)
      then debit a a.general_adapter p.flash_loan_to_nest_assets b
        >>= (λ b'. some (credit a (nest_execution_adapter a) p.flash_loan_to_nest_assets b'))
      else some b

  abbrev deposit_step : Balances → Option Balances
  deposit_step b =
      if not (p.deposit_assets == 0)
      then debit a (nest_execution_adapter a) p.deposit_assets b
      else some b

  abbrev borrow_step : Balances → Option Balances
  borrow_step b =
      if not (p.borrow_assets == 0)
      then some (credit a a.general_adapter p.borrow_assets b)
      else some b

  -- What the callback does to the loan tokens of the adapters.
  abbrev pub increase_effect : Balances → Option Balances
  increase_effect b = move_step b >>= λ b₁. deposit_step b₁ >>= borrow_step

module _ (e : Ethers) (laws : IsAbi e) (a : AddressBook) (market : MarketParams)
    (book : IsCanonicalBook e a) (spelled : All (IsChecksummed e) (market_addresses market)) where
  pub run_callback-eq :
      (p : IncreaseParams) (cs : List Call) (b : Balances)
      → Legs e laws a market book spelled p cs
      → text_eq market.collateral_token market.loan_token ≡ false
      → run_calls e a market.loan_token cs b ≡ increase_effect a p b
  unfolding perform
  run_callback-eq p cs b legs other_token = rw legs.joined (
      leg_then e a market.loan_token _ _ _ legs.move _ _ legs.moves
        (leg_then e a market.loan_token _ _ _ legs.deposit _ _ legs.deposits (
          leg_then e a market.loan_token _ _ _ legs.pull _ _ legs.pulls
            (leg_then e a market.loan_token _ _ _ legs.supply _ _ legs.supplies legs.borrows.runs)))
        b
      ∙ simp (other_token, text_eq_refl, if_same))

module _ (a : AddressBook) (p : IncreaseParams) where
  -- From the flash loan and what the initiator sent, the callback leaves what repays the loan and
  -- what was not deposited.
  pub effect_shared :
      adapters_are_shared a ≡ true
      → p.deposit_assets ≤ p.flash_loan_assets + p.extra_loan_to_nest_assets
      → increase_effect a p
          (record { in_general = p.extra_loan_to_nest_assets + p.flash_loan_assets; in_nest = 0 })
        ≡ some (record {
          in_general =
              p.extra_loan_to_nest_assets + p.flash_loan_assets - p.deposit_assets
              + p.borrow_assets;
          in_nest = 0;
        })
  effect_shared shared funded =
      let self = same_address_refl a.general_adapter in ground (arith, self)

  pub effect_apart :
      adapters_are_shared a ≡ false
      → p.deposit_assets ≤ p.flash_loan_assets + p.extra_loan_to_nest_assets
      → p.deposit_assets ≡ p.flash_loan_to_nest_assets + p.extra_loan_to_nest_assets
      → increase_effect a p
          (record { in_general = p.flash_loan_assets; in_nest = p.extra_loan_to_nest_assets })
        ≡ some (record {
          in_general = p.flash_loan_assets - p.flash_loan_to_nest_assets + p.borrow_assets;
          in_nest = 0;
        })
  effect_apart apart funded exact =
      let self = same_address_refl a.general_adapter in
      let nest_self = same_address_refl a.nest_adapter in
      let apart' : same_address a.nest_adapter a.general_adapter ≡ false =
        same_address_sym a.nest_adapter a.general_adapter ∙ apart in
      ground (arith, self, nest_self, apart')
