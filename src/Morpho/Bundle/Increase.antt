-- ===== src/Morpho/Bundle/Increase.antt =====
-- The calls of an increase, leg by leg.
use nest_protocol.Base.{◌≡◌, Bool, ◌&&◌, not, ◌==◌, List, ◌++◌, All}
use nest_protocol.Base.Text.{Text}
use nest_protocol.Base.Outcome.{ok, >>=-ok_inv}
use nest_protocol.Morpho.Types.{MarketParams, AddressBook, Call, IncreaseParams, max_uint256}
use nest_protocol.Morpho.Abi.{
  Ethers, Decoded, erc20_transfer_from, morpho_supply_collateral, morpho_borrow, erc20_transfer,
  nest_deposit, general, core, nest,
}
use nest_protocol.Morpho.Abi.Laws.{
  IsChecksummed, IsAbi, market_addresses, general_call-Carries, core_call-Carries,
  nest_call-Carries,
}
use nest_protocol.Morpho.Bundle.{
  push_when, empty_bytes, adapters_are_shared, nest_execution_adapter, increase_callback,
}
use nest_protocol.Morpho.Bundle.Legs.{
  IsLeg, push_when-IsLeg, IsCanonicalBook, nest_execution_adapter-IsChecksummed,
  empty_bytes-IsLower,
}

module _ (e : Ethers) (laws : IsAbi e) (addresses : AddressBook) (market : MarketParams)
    (book : IsCanonicalBook e addresses)
    (spelled : All (IsChecksummed e) (market_addresses market)) where
  abbrev loan : Text
  loan = market.loan_token

  abbrev G : Text
  G = addresses.general_adapter

  abbrev N : Text
  N = nest_execution_adapter addresses

  abbrev IsLegOf : Bool → Text → Decoded → List Call → Type 0
  IsLegOf = IsLeg e addresses loan

  -- The five legs of the callback.
  pub record Legs (p : IncreaseParams) (cs : List Call) : Type 0 where
    pub move : List Call
    pub deposit : List Call
    pub pull : List Call
    pub supply : List Call
    pub borrow : List Call
    pub joined : cs ≡ move ++ (deposit ++ (pull ++ (supply ++ borrow)))
    pub moves :
        IsLegOf
          (not (p.flash_loan_to_nest_assets == 0) && not (adapters_are_shared addresses))
          G
          (core (erc20_transfer loan N p.flash_loan_to_nest_assets))
          move
    pub deposits :
        IsLegOf
          (not (p.deposit_assets == 0))
          N
          (nest
            (nest_deposit addresses.vault p.deposit_assets max_uint256 addresses.deposit_receiver))
          deposit
    pub pulls :
        IsLegOf
          (not (p.collateral_from_initiator_assets == 0))
          G
          (general
            (erc20_transfer_from market.collateral_token G p.collateral_from_initiator_assets))
          pull
    pub supplies :
        IsLegOf
          (not (p.supply_collateral_assets == 0))
          G
          (general (
            morpho_supply_collateral market p.supply_collateral_assets addresses.initiator
              empty_bytes))
          supply
    pub borrows :
        IsLegOf
          (not (p.borrow_assets == 0))
          G
          (general (morpho_borrow market p.borrow_assets 0 p.min_borrow_share_price_e27 G))
          borrow

  pub increase_callback-Legs :
      (p : IncreaseParams) (cs : List Call)
      → increase_callback e addresses market p ≡ ok cs
      → Legs p cs
  unfolding increase_callback
  increase_callback-Legs p cs made =
      let (move, moved, made₁) = >>=-ok_inv (push_when _ _) _ made in
      let (deposit, deposited, made₂) = >>=-ok_inv (push_when _ _) _ made₁ in
      let (pull, pulled, made₃) = >>=-ok_inv (push_when _ _) _ made₂ in
      let (supply, supplied, made₄) = >>=-ok_inv (push_when _ _) _ made₃ in
      let (borrow, borrowed, made₅) = >>=-ok_inv (push_when _ _) _ made₄ in
      let nest_spelled = nest_execution_adapter-IsChecksummed e addresses book in
      let general_spelled = book.general_adapter in
      record {
        move = move;
        deposit = deposit;
        pull = pull;
        supply = supply;
        borrow = borrow;
        joined = cc;
        moves =
            push_when-IsLeg e addresses loan _ _ G _ move general_spelled
              (λ c. core_call-Carries e laws G _ c (spelled.0, (nest_spelled, tt))) moved;
        deposits =
            push_when-IsLeg e addresses loan _ _ N _ deposit nest_spelled
              (λ c. nest_call-Carries e laws N _ c (book.vault, (book.deposit_receiver, tt)))
              deposited;
        pulls =
            push_when-IsLeg e addresses loan _ _ G _ pull general_spelled
              (λ c. general_call-Carries e laws G _ c ((spelled.1.0, (general_spelled, tt)), tt))
              pulled;
        supplies =
            push_when-IsLeg e addresses loan _ _ G _ supply general_spelled
              (λ c.
                general_call-Carries e laws G _ c
                  ((book.initiator, spelled), (empty_bytes-IsLower, tt)))
              supplied;
        borrows =
            push_when-IsLeg e addresses loan _ _ G _ borrow general_spelled
              (λ c. general_call-Carries e laws G _ c ((general_spelled, spelled), tt)) borrowed;
      }
