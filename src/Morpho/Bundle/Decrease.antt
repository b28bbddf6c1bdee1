-- ===== src/Morpho/Bundle/Decrease.antt =====
-- The calls of a decrease, leg by leg, and carrying them out.
use nest_protocol.Base.{
  ℕ, ◌≡◌, refl, ◌∙◌, Bool, true, false, not, ◌==◌, some, List, [], ◌∷◌, ◌++◌, All, All-append,
  if◌then◌else◌, Bool-cases, inl, inr,
}
use nest_protocol.Base.Text.{Text, text_eq_refl}
use nest_protocol.Base.Outcome.{ok, >>=-ok_inv}
use nest_protocol.Morpho.Types.{
  MarketParams, AddressBook, Call, DecreaseParams, DecreaseRoute, instant, redeem,
}
use nest_protocol.Morpho.Abi.{
  Ethers, Decoded, GeneralFn, morpho_repay, morpho_withdraw_collateral, erc20_transfer_from,
  morpho_withdraw_collateral_on_behalf, general, nest, general_call, nest_call,
}
use nest_protocol.Morpho.Abi.Laws.{
  IsChecksummed, IsCanonicalCall, IsAbi, market_addresses, general_call-Carries, nest_call-Carries,
}
use nest_protocol.Morpho.Bundle.{
  push_when, empty_bytes, nest_execution_adapter, use_solver_withdraw_collateral, redeem_fn,
  withdraw_collateral_call, decrease_callback,
}
use nest_protocol.Morpho.Bundle.Flow.{
  Balances, perform, run_calls, run_calls-append, credit, debit, ◌>>=◌,
}
use nest_protocol.Morpho.Bundle.Legs.{
  IsLeg, push_when-IsLeg, singleton-IsLeg, leg_then, IsCanonicalBook,
  nest_execution_adapter-IsChecksummed, empty_bytes-IsLower,
}

if_same : {A : Type 0} (b : Bool) (x : A) → (if b then x else x) ≡ x
if_same true x = refl
if_same false x = refl

module _ (e : Ethers) (laws : IsAbi e) (a : AddressBook) (market : MarketParams)
    (book : IsCanonicalBook e a) (spelled : All (IsChecksummed e) (market_addresses market)) where
  abbrev loan : Text
  loan = market.loan_token

  -- A leg that moves no loan tokens of the adapters, whatever its test.
  record IsIdle (xs : List Call) : Type 0 where
    canonical : All (IsCanonicalCall e) xs
    idle : (b : Balances) → run_calls e a loan xs b ≡ some b

  -- A leg whose call moves no loan tokens.
  leg-IsIdle :
      (t : Bool) (to : Text) (d : Decoded) (xs : List Call)
      → IsLeg e a loan t to d xs
      → ((b : Balances) → perform a loan to d b ≡ some b)
      → IsIdle xs
  leg-IsIdle t to d xs leg still = record {
    canonical = leg.canonical;
    idle = λ b. leg.runs b ∙ rw still (if_same t (some b));
  }

  withdraw-IsIdle :
      (t : Bool) (assets : ℕ) (xs : List Call)
      → push_when t (withdraw_collateral_call e a market assets) ≡ ok xs
      → IsIdle xs
  unfolding withdraw_collateral_call perform
  withdraw-IsIdle t assets xs made = elim (Bool-cases (use_solver_withdraw_collateral e a market)) [
    | inl solver ↦
        let to = nest_execution_adapter a in
        let d =
          nest (
            morpho_withdraw_collateral_on_behalf market assets a.position_owner a.position_owner) in
        leg-IsIdle t to d xs
          (push_when-IsLeg e a loan t _ to d xs (nest_execution_adapter-IsChecksummed e a book)
            (λ c.
              nest_call-Carries e laws to _ c (book.position_owner, (book.position_owner, spelled)))
            (rw solver at made))
          (λ b. refl)
    | inr own ↦
        let to = a.general_adapter in
        let d = general (morpho_withdraw_collateral market assets a.initiator) in
        leg-IsIdle t to d xs
          (push_when-IsLeg e a loan t _ to d xs book.general_adapter
            (λ c. general_call-Carries e laws to _ c ((book.initiator, spelled), tt))
            (rw own at made))
          (λ b. refl)
  ]

  redeem_addresses : All (IsChecksummed e) (a.vault ∷ a.redeem_receiver ∷ a.position_owner ∷ [])
  redeem_addresses = (book.vault, (book.redeem_receiver, (book.position_owner, tt)))

  redeem-IsIdle :
      (route : DecreaseRoute) (t : Bool) (shares : ℕ) (xs : List Call)
      → push_when t (nest_call e (nest_execution_adapter a) (redeem_fn e a market route shares))
        ≡ ok xs
      → IsIdle xs
  unfolding perform
  redeem-IsIdle instant t shares xs made =
      let to = nest_execution_adapter a in
      let f = redeem_fn e a market instant shares in
      leg-IsIdle t to (nest f) xs
        (push_when-IsLeg e a loan t _ to (nest f) xs (nest_execution_adapter-IsChecksummed e a book)
          (λ c. nest_call-Carries e laws to _ c redeem_addresses) made)
        (λ b. refl)
  redeem-IsIdle redeem t shares xs made =
      let to = nest_execution_adapter a in
      let f = redeem_fn e a market redeem shares in
      leg-IsIdle t to (nest f) xs
        (push_when-IsLeg e a loan t _ to (nest f) xs (nest_execution_adapter-IsChecksummed e a book)
          (λ c. nest_call-Carries e laws to _ c redeem_addresses) made)
        (λ b. refl)

  abbrev repay_fn : DecreaseParams → GeneralFn
  repay_fn p =
      morpho_repay market p.repay_assets 0 p.max_repay_share_price_e27 a.position_owner empty_bytes

  -- The callback repays the debt from the general adapter, and then pulls tokens into it.
  pub decrease_callback-runs :
      (route : DecreaseRoute) (p : DecreaseParams) (cs : List Call)
      → decrease_callback e a market route p ≡ ok cs
      → All (IsCanonicalCall e) cs
        × ((b : Balances)
            → run_calls e a loan cs b ≡ (
                debit a a.general_adapter p.repay_assets b >>= (λ b'.
                  if not (p.loan_from_initiator_assets == 0)
                  then some (credit a a.general_adapter p.loan_from_initiator_assets b')
                  else some b')))
  unfolding decrease_callback perform
  decrease_callback-runs route p cs made =
      let G = a.general_adapter in
      let (c, repaid, made₁) =
        >>=-ok_inv {B = List Call} (general_call e a.general_adapter (repay_fn p)) _ made in
      let (ws, withdrawn, made₂) =
        >>=-ok_inv
          (push_when (not (p.withdraw_collateral_assets == 0))
            (withdraw_collateral_call e a market p.withdraw_collateral_assets))
          _ made₁ in
      let (rs, redeemed, made₃) =
        >>=-ok_inv
          (push_when (not (p.redeem_shares == 0))
            (nest_call e (nest_execution_adapter a) (redeem_fn e a market route p.redeem_shares)))
          _ made₂ in
      let (ps, pulled, made₄) =
        >>=-ok_inv
          (push_when (not (p.loan_from_initiator_assets == 0))
            (general_call e G (erc20_transfer_from loan G p.loan_from_initiator_assets)))
          _ made₃ in
      let joined : c ∷ (ws ++ (rs ++ ps)) ≡ cs = cc in
      let repay_leg = singleton-IsLeg e a loan G (general (repay_fn p)) c book.general_adapter (
        general_call-Carries e laws G (repay_fn p) c
          ((book.position_owner, spelled), (empty_bytes-IsLower, tt)) repaid) in
      let withdraw_leg = withdraw-IsIdle _ p.withdraw_collateral_assets ws withdrawn in
      let redeem_leg = redeem-IsIdle route _ p.redeem_shares rs redeemed in
      let pull_leg =
        push_when-IsLeg e a loan _ _ G _ ps book.general_adapter
          (λ c'. general_call-Carries e laws G _ c' ((spelled.0, (book.general_adapter, tt)), tt))
          pulled in
      rw (← joined) (
        (
          repay_leg.canonical.0,
          All-append (IsCanonicalCall e) ws (rs ++ ps) withdraw_leg.canonical
              (All-append (IsCanonicalCall e) rs ps redeem_leg.canonical pull_leg.canonical),
        ),
        λ b.
            leg_then e a loan true G (general (repay_fn p)) (c ∷ []) (ws ++ (rs ++ ps))
              (λ b'.
                if not (p.loan_from_initiator_assets == 0)
                then perform a loan G
                    (general (erc20_transfer_from loan G p.loan_from_initiator_assets)) b'
                else some b')
              repay_leg
              (λ b'.
                run_calls-append e a loan ws (rs ++ ps) b'
                ∙ rw (withdraw_leg.idle b') (
                    run_calls-append e a loan rs ps b'
                    ∙ rw (redeem_leg.idle b') (pull_leg.runs b')))
              b
            ∙ simp (text_eq_refl),
      )
