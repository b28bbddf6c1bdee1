-- ===== src/Morpho/Bundle/Settlement.antt =====
-- What a finished bundle leaves in the adapters.
use nest_protocol.Base.{
  ℕ, ◌+◌, ◌-◌, ◌≤◌, ◌≡◌, refl, ap, sym, ==_iff, ◌∙◌, true, false, not, ◌==◌, some, List, [], ◌∷◌,
  ◌++◌, All, All-append, Bool-cases, Option-cases, inl, inr, arith,
}
use nest_protocol.Base.Text.{Text, text_eq, text_eq_refl}
use nest_protocol.Base.Outcome.{ok, >>=-ok_inv}
use nest_protocol.Morpho.Types.{
  Hex, MarketParams, AddressBook, Call, IncreaseParams, ExtraInputs, Quote,
}
use nest_protocol.Morpho.Abi.{
  Ethers, decode, morpho_flash_loan, general, mk_call, general_call, erc20_transfer_from,
  encode_call_array, same_address,
}
use nest_protocol.Morpho.Abi.Laws.{
  IsChecksummed, IsCanonicalCall, IsLower, IsAbi, market_addresses, general_call-Carries,
}
use nest_protocol.Morpho.Params.Laws.{exact_increase}
use nest_protocol.Morpho.Bundle.{
  push_when, adapters_are_shared, nest_execution_adapter, flash_loan_call, increase_callback,
}
use nest_protocol.Morpho.Bundle.Flow.{
  Balances, perform, run_calls, run_bundle, credit, debit, ◌>>=◌, bind-some,
}
use nest_protocol.Morpho.Bundle.Legs.{
  IsCanonicalBook, same_address_refl, same_address_sym, nest_execution_adapter-IsChecksummed,
}
use nest_protocol.Morpho.Bundle.Increase.{Legs, increase_callback-Legs}
use nest_protocol.Morpho.Bundle.IncreaseRun.{
  run_callback-eq, effect_shared, effect_apart, increase_effect,
}

credit_zero : (a : AddressBook) (account : Text) (b : Balances) → credit a account 0 b ≡ b
credit_zero a account b = ground arith

module _ (a : AddressBook) (loan extra_loan : ℕ) where
  abbrev arrived : Balances
  arrived =
      credit a a.general_adapter loan
        (credit a (nest_execution_adapter a) extra_loan (record { in_general = 0; in_nest = 0 }))

  arrived_shared :
      adapters_are_shared a ≡ true
      → arrived ≡ record { in_general = extra_loan + loan; in_nest = 0 }
  arrived_shared shared = ground (arith, same_address_refl a.general_adapter)

  arrived_apart :
      adapters_are_shared a ≡ false → arrived ≡ record { in_general = loan; in_nest = extra_loan }
  arrived_apart apart =
      let apart' : same_address a.nest_adapter a.general_adapter ≡ false =
        same_address_sym a.nest_adapter a.general_adapter ∙ apart in
      ground (arith, apart', same_address_refl a.general_adapter, same_address_refl a.nest_adapter)

module _ (a : AddressBook) (q : Quote) (extra : ExtraInputs) (price : ℕ) where
  -- Around the callback of the derived parameters: the loan arrives, and is taken back.
  pub settle_exact :
      let p = exact_increase q extra price (adapters_are_shared a) in
      q.supply_collateral_delta
        ≤ q.borrow_assets_delta + extra.extra_loan_assets + extra.extra_collateral
      → (increase_effect a p (
            credit a a.general_adapter p.flash_loan_assets (
              credit a
                (nest_execution_adapter a)
                p.extra_loan_to_nest_assets
                (record { in_general = 0; in_nest = 0 })))
          >>= debit a a.general_adapter p.flash_loan_assets)
        ≡ some (record {
          in_general = q.borrow_assets_delta - (q.supply_collateral_delta - extra.extra_collateral);
          in_nest = 0;
        })
  settle_exact funded = elim (Bool-cases (adapters_are_shared a)) [
    | inl shared ↦
        let p = exact_increase q extra price (adapters_are_shared a) in
        rw
          (
            arrived_shared a p.flash_loan_assets p.extra_loan_to_nest_assets shared,
            effect_shared a p shared (omega arith),
          )
          (ground (arith, same_address_refl a.general_adapter))
    | inr apart ↦
        let p = exact_increase q extra price (adapters_are_shared a) in
        let exact : p.deposit_assets ≡ p.flash_loan_to_nest_assets + p.extra_loan_to_nest_assets =
          rw apart (omega arith) in
        let left : p.flash_loan_to_nest_assets ≡ p.deposit_assets - p.extra_loan_to_nest_assets =
          rw apart in
        rw
          (
            arrived_apart a p.flash_loan_assets p.extra_loan_to_nest_assets apart,
            effect_apart a p apart (omega arith) exact,
          )
          (ground (arith, left, same_address_refl a.general_adapter))
  ]

module _ (e : Ethers) (laws : IsAbi e) (a : AddressBook) (market : MarketParams)
    (book : IsCanonicalBook e a) (spelled : All (IsChecksummed e) (market_addresses market)) where
  abbrev loan : Text
  loan = market.loan_token

  -- The flash loan of a bundle is read back with its callback.
  flash_loan_call-reads :
      (assets : ℕ) (callback_data : Hex) (c : Call)
      → IsLower callback_data
      → flash_loan_call e a market assets callback_data ≡ ok c
      → (c.to ≡ a.general_adapter)
        × (decode e c.call_data ≡ general (morpho_flash_loan loan assets callback_data))
  unfolding flash_loan_call mk_call decode
  flash_loan_call-reads assets callback_data c low made =
      let f = morpho_flash_loan loan assets callback_data in
      elim (Option-cases (e.encode_general f)) [
        | inl refused ↦ absurd (cc (rw refused at made))
        | inr (h, eq) ↦
            let made' = rw eq at made in
            let same : mk_call a.general_adapter h (e.keccak256 callback_data) ≡ c = cc in
            let read = laws.general_read f h ((spelled.0, tt), (low, tt)) eq in
            rw (← same) (refl, rw (read, decode))
      ]

  -- A bundle that ends in a flash loan: its callback runs between the loan and the payback.
  pub run_flash_bundle :
      (assets : ℕ) (callback_data : Hex) (c : Call) (cs : List Call) (b : Balances)
      → IsLower callback_data
      → flash_loan_call e a market assets callback_data ≡ ok c
      → e.decode_calls callback_data ≡ some cs
      → run_bundle e a loan (c ∷ []) b ≡ (
          run_calls e a loan cs (credit a a.general_adapter assets b)
          >>= debit a a.general_adapter assets)
  unfolding run_bundle
  run_flash_bundle assets callback_data c cs b low made read =
      let carried = flash_loan_call-reads assets callback_data c low made in
      rw (carried.0, carried.1, read) (bind-some _)

  pub callback_read :
      (cs : List Call) (callback_data : Hex)
      → All (IsCanonicalCall e) cs
      → encode_call_array e cs ≡ ok callback_data
      → (e.decode_calls callback_data ≡ some cs) × IsLower callback_data
  unfolding encode_call_array
  callback_read cs callback_data canonical made = elim (Option-cases (e.encode_calls cs)) [
    | inl refused ↦ absurd (cc (rw refused at made))
    | inr (h, eq) ↦
        let made' = rw eq at made in
        let same : h ≡ callback_data = cc in
        rw (← same) (laws.calls_read cs h canonical eq, laws.calls_lower cs h eq)
  ]

  Legs-canonical :
      (p : IncreaseParams) (cs : List Call)
      → Legs e laws a market book spelled p cs
      → All (IsCanonicalCall e) cs
  Legs-canonical p cs legs = rw legs.joined (
      All-append (IsCanonicalCall e) _ _ legs.moves.canonical (
        All-append (IsCanonicalCall e) _ _ legs.deposits.canonical (
          All-append (IsCanonicalCall e) _ _ legs.pulls.canonical
            (All-append (IsCanonicalCall e) _ _ legs.supplies.canonical legs.borrows.canonical))))

  -- The initiator's extra loan tokens, if any, reach the adapter that deposits.
  extra_leg :
      (n : ℕ) (xs rest : List Call) (b : Balances)
      → push_when
          (not (n == 0))
          (general_call e a.general_adapter (erc20_transfer_from loan (nest_execution_adapter a) n))
        ≡ ok xs
      → run_bundle e a loan (xs ++ rest) b
        ≡ run_bundle e a loan rest (credit a (nest_execution_adapter a) n b)
  unfolding run_bundle perform
  extra_leg n xs rest b made = elim (Bool-cases (n == 0)) [
    | inl none_needed ↦
        let same : [] ≡ xs = cc (rw none_needed at made) in
        rw (← same, (==_iff n 0).0 none_needed)
          (ap (run_bundle e a loan rest) (sym (credit_zero a (nest_execution_adapter a) b)))
    | inr needed ↦
        let f = erc20_transfer_from loan (nest_execution_adapter a) n in
        let (c, call, made') =
          >>=-ok_inv (general_call e a.general_adapter f) _ (rw needed at made) in
        let same : c ∷ [] ≡ xs = cc in
        let nest_spelled = nest_execution_adapter-IsChecksummed e a book in
        let carried =
          general_call-Carries e laws a.general_adapter f c ((spelled.0, (nest_spelled, tt)), tt)
            call in
        rw (← same, carried.0, carried.1, text_eq_refl loan)
  ]

  pub increase_runs :
      (q : Quote) (extra : ExtraInputs) (price : ℕ) (p : IncreaseParams) (cs : List Call)
      (callback_data : Hex) (xs : List Call) (c : Call)
      → text_eq market.collateral_token loan ≡ false
      → increase_callback e a market p ≡ ok cs
      → encode_call_array e cs ≡ ok callback_data
      → push_when (not (p.extra_loan_to_nest_assets == 0)) (
          general_call e a.general_adapter
            (erc20_transfer_from loan (nest_execution_adapter a) p.extra_loan_to_nest_assets))
        ≡ ok xs
      → flash_loan_call e a market p.flash_loan_assets callback_data ≡ ok c
      → run_bundle e a loan (xs ++ c ∷ []) (record { in_general = 0; in_nest = 0 }) ≡ (
          increase_effect a p (
            credit a a.general_adapter p.flash_loan_assets (
              credit a
                (nest_execution_adapter a)
                p.extra_loan_to_nest_assets
                (record { in_general = 0; in_nest = 0 })))
          >>= debit a a.general_adapter p.flash_loan_assets)
  increase_runs q extra price p cs callback_data xs c other_token callback encoding extra_loan
        flash =
      let legs = increase_callback-Legs e laws a market book spelled p cs callback in
      let read = callback_read cs callback_data (Legs-canonical p cs legs) encoding in
      extra_leg p.extra_loan_to_nest_assets xs (c ∷ []) _ extra_loan
      ∙ run_flash_bundle p.flash_loan_assets callback_data c cs _ read.1 flash read.0
      ∙ rw (run_callback-eq e laws a market book spelled p cs _ legs other_token)
