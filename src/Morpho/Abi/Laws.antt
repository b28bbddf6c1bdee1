-- ===== src/Morpho/Abi/Laws.antt =====
-- What the bundle builder relies on in ethers: what an encoder accepts is read back unchanged, if
-- its addresses are in their checksummed spelling and its bytes in lower case; a parser refuses
-- the calldata of the other interfaces, whose selectors differ.
use nest_protocol.Base.{inl, inr, Option-cases, ◌≡◌, refl, none, some, List, [], ◌∷◌, All}
use nest_protocol.Base.Text.{Text, to_lower}
use nest_protocol.Base.Outcome.{Result, ok}
use nest_protocol.Morpho.Types.{Hex, MarketParams, Call, MorphoError, zero_hash}
use nest_protocol.Morpho.Abi.{
  GeneralFn, CoreFn, NestFn, Ethers, Decoded, erc20_transfer_from, morpho_flash_loan,
  morpho_supply_collateral, morpho_borrow, morpho_repay, morpho_withdraw_collateral, erc20_transfer,
  nest_deposit, nest_instant_redeem, nest_redeem, morpho_withdraw_collateral_on_behalf, mk_call,
  general_call, core_call, nest_call, decode, decode_core, decode_nest, general, core, nest,
}

abbrev pub IsLower : Hex → Type 0
IsLower h = to_lower h ≡ h

abbrev pub market_addresses : MarketParams → List Text
market_addresses m = m.loan_token ∷ m.collateral_token ∷ m.oracle ∷ m.irm ∷ []

abbrev pub general_addresses : GeneralFn → List Text
general_addresses (erc20_transfer_from token receiver _) = token ∷ receiver ∷ []
general_addresses (morpho_flash_loan token _ _) = token ∷ []
general_addresses (morpho_supply_collateral m _ on_behalf _) = on_behalf ∷ market_addresses m
general_addresses (morpho_borrow m _ _ _ receiver) = receiver ∷ market_addresses m
general_addresses (morpho_repay m _ _ _ on_behalf _) = on_behalf ∷ market_addresses m
general_addresses (morpho_withdraw_collateral m _ receiver) = receiver ∷ market_addresses m

abbrev pub general_bytes : GeneralFn → List Hex
general_bytes (morpho_flash_loan _ _ callback_data) = callback_data ∷ []
general_bytes (morpho_supply_collateral _ _ _ bytes) = bytes ∷ []
general_bytes (morpho_repay _ _ _ _ _ bytes) = bytes ∷ []
general_bytes _ = []

abbrev pub core_addresses : CoreFn → List Text
core_addresses (erc20_transfer token receiver _) = token ∷ receiver ∷ []

abbrev pub nest_addresses : NestFn → List Text
nest_addresses (nest_deposit vault _ _ receiver) = vault ∷ receiver ∷ []
nest_addresses (nest_instant_redeem vault _ _ receiver owner) = vault ∷ receiver ∷ owner ∷ []
nest_addresses (nest_redeem vault _ _ receiver owner) = vault ∷ receiver ∷ owner ∷ []
nest_addresses (morpho_withdraw_collateral_on_behalf m _ on_behalf receiver) =
    on_behalf ∷ receiver ∷ market_addresses m

module _ (e : Ethers) where
  -- The checksummed spelling, which `getAddress` leaves alone.
  abbrev pub IsChecksummed : Text → Type 0
  IsChecksummed a = e.get_address a ≡ some a

  abbrev pub IsCanonicalGeneral : GeneralFn → Type 0
  IsCanonicalGeneral f = All IsChecksummed (general_addresses f) × All IsLower (general_bytes f)

  abbrev pub IsCanonicalCall : Call → Type 0
  IsCanonicalCall c = IsChecksummed c.to × IsLower c.call_data × IsLower c.callback_hash

  pub record IsAbi : Type 0 where
    pub general_read :
        (f : GeneralFn) (h : Hex)
        → IsCanonicalGeneral f
        → e.encode_general f ≡ some h
        → e.parse_general h ≡ some f
    pub core_read :
        (f : CoreFn) (h : Hex)
        → All IsChecksummed (core_addresses f)
        → e.encode_core f ≡ some h
        → e.parse_core h ≡ some f
    pub nest_read :
        (f : NestFn) (h : Hex)
        → All IsChecksummed (nest_addresses f)
        → e.encode_nest f ≡ some h
        → e.parse_nest h ≡ some f
    pub core_not_general :
        (f : CoreFn) (h : Hex) → e.encode_core f ≡ some h → e.parse_general h ≡ none
    pub nest_not_general :
        (f : NestFn) (h : Hex) → e.encode_nest f ≡ some h → e.parse_general h ≡ none
    pub nest_not_core : (f : NestFn) (h : Hex) → e.encode_nest f ≡ some h → e.parse_core h ≡ none
    pub calls_read :
        (cs : List Call) (h : Hex)
        → All IsCanonicalCall cs
        → e.encode_calls cs ≡ some h
        → e.decode_calls h ≡ some cs
    pub general_lower : (f : GeneralFn) (h : Hex) → e.encode_general f ≡ some h → IsLower h
    pub core_lower : (f : CoreFn) (h : Hex) → e.encode_core f ≡ some h → IsLower h
    pub nest_lower : (f : NestFn) (h : Hex) → e.encode_nest f ≡ some h → IsLower h
    pub calls_lower : (cs : List Call) (h : Hex) → e.encode_calls cs ≡ some h → IsLower h
    pub hash_lower : (h : Hex) → IsLower (e.keccak256 h)

pub zero_hash-IsLower : IsLower zero_hash
unfolding to_lower
zero_hash-IsLower = refl

module _ (e : Ethers) where
  -- A call that the builder made: canonical, and decoded to the function that it was made for.
  abbrev pub Carries : Decoded → Text → Call → Type 0
  Carries d to c =
      (c.to ≡ to) × (decode e c.call_data ≡ d) × IsLower c.call_data × IsLower c.callback_hash

module _ (e : Ethers) (laws : IsAbi e) where
  made-Carries :
      (d : Decoded) (to : Text) (h : Hex) (c : Call)
      → decode e h ≡ d
      → IsLower h
      → ◌≡◌ {A = Result MorphoError Call} (ok (mk_call to h zero_hash)) (ok c)
      → Carries e d to c
  unfolding mk_call
  made-Carries d to h c read low made =
      let same : mk_call to h zero_hash ≡ c = cc in rw (← same) (refl, read, low, zero_hash-IsLower)

  pub general_call-Carries :
      (to : Text) (f : GeneralFn) (c : Call)
      → IsCanonicalGeneral e f
      → general_call e to f ≡ ok c
      → Carries e (general f) to c
  unfolding general_call decode
  general_call-Carries to f c canonical made = elim (Option-cases (e.encode_general f)) [
    | inl refused ↦ absurd (cc (rw refused at made))
    | inr (h, eq) ↦
        made-Carries (general f) to h c (rw (laws.general_read f h canonical eq, decode))
          (laws.general_lower f h eq) (rw eq at made)
  ]

  pub core_call-Carries :
      (to : Text) (f : CoreFn) (c : Call)
      → All (IsChecksummed e) (core_addresses f)
      → core_call e to f ≡ ok c
      → Carries e (core f) to c
  unfolding core_call decode decode_core
  core_call-Carries to f c canonical made = elim (Option-cases (e.encode_core f)) [
    | inl refused ↦ absurd (cc (rw refused at made))
    | inr (h, eq) ↦
        made-Carries (core f) to h c
          (rw (laws.core_not_general f h eq, laws.core_read f h canonical eq, decode, decode_core))
          (laws.core_lower f h eq) (rw eq at made)
  ]

  pub nest_call-Carries :
      (to : Text) (f : NestFn) (c : Call)
      → All (IsChecksummed e) (nest_addresses f)
      → nest_call e to f ≡ ok c
      → Carries e (nest f) to c
  unfolding nest_call decode decode_core decode_nest
  nest_call-Carries to f c canonical made = elim (Option-cases (e.encode_nest f)) [
    | inl refused ↦ absurd (cc (rw refused at made))
    | inr (h, eq) ↦
        made-Carries (nest f) to h c
          (rw (
            laws.nest_not_general f h eq,
            laws.nest_not_core f h eq,
            laws.nest_read f h canonical eq,
            decode,
            decode_core,
            decode_nest,
          ))
          (laws.nest_lower f h eq) (rw eq at made)
  ]
