-- ===== src/Morpho/Abi.antt =====
-- What tools/morpho/common.ts uses of the ethers library, as a parameter: one constructor for each
-- contract function in its interfaces, the encoders and parsers of calls, the hash, and the
-- checksummed spelling of an address. `none` is an exception of the library. Integers are passed
-- to the encoders as decimal text in the source, and as numbers here.
pub mod Laws
use nest_protocol.Base.{ℕ, Bool, Option, none, some, List, map}
use nest_protocol.Base.Text.{Text, text_eq, to_lower}
use nest_protocol.Base.Outcome.{Result, ok, err, ◌>>=◌}
use nest_protocol.Morpho.Types.{
  Hex, MarketParams, AddressBook, Call, MorphoError, abi_error, zero_hash,
}

-- `generalAdapterAbi`
pub data GeneralFn : Type 0 where
  erc20_transfer_from : (token receiver : Text) (amount : ℕ) → GeneralFn
  morpho_flash_loan : (token : Text) (assets : ℕ) (callback_data : Hex) → GeneralFn
  morpho_supply_collateral :
      (market : MarketParams) (assets : ℕ) (on_behalf : Text) (bytes : Hex) → GeneralFn
  morpho_borrow :
      (market : MarketParams) (assets shares min_share_price_e27 : ℕ) (receiver : Text) → GeneralFn
  morpho_repay :
      (market : MarketParams) (assets shares max_share_price_e27 : ℕ) (on_behalf : Text)
      (bytes : Hex)
      → GeneralFn
  morpho_withdraw_collateral : (market : MarketParams) (assets : ℕ) (receiver : Text) → GeneralFn

-- `coreAdapterAbi`
pub data CoreFn : Type 0 where
  erc20_transfer : (token receiver : Text) (amount : ℕ) → CoreFn

-- `nestAdapterAbi`
pub data NestFn : Type 0 where
  nest_deposit : (vault : Text) (assets max_share_price_e27 : ℕ) (receiver : Text) → NestFn
  nest_instant_redeem :
      (vault : Text) (shares min_share_price_e27 : ℕ) (receiver owner : Text) → NestFn
  nest_redeem : (vault : Text) (shares min_share_price_e27 : ℕ) (receiver owner : Text) → NestFn
  morpho_withdraw_collateral_on_behalf :
      (market : MarketParams) (assets : ℕ) (on_behalf receiver : Text) → NestFn

pub record Ethers : Type 0 where
  pub encode_general : GeneralFn → Option Hex
  pub parse_general : Hex → Option GeneralFn
  pub encode_core : CoreFn → Option Hex
  pub parse_core : Hex → Option CoreFn
  pub encode_nest : NestFn → Option Hex
  pub parse_nest : Hex → Option NestFn
  pub encode_calls : List Call → Option Hex
  pub decode_calls : Hex → Option (List Call)
  pub encode_multicall : List Call → Option Hex
  pub encode_market_params : MarketParams → Option Hex
  pub keccak256 : Hex → Hex
  pub get_address : Text → Option Text

abbrev pub encoded : Option Hex → Result MorphoError Hex
encoded none = err abi_error
encoded (some h) = ok h

unfoldable pub mk_call : Text → Hex → Hex → Call
mk_call to call_data callback_hash = record {
  to = to;
  call_data = call_data;
  value = 0;
  skip_revert = Bool.false;
  callback_hash = callback_hash;
}

unfoldable pub same_address : Text → Text → Bool
same_address a b = text_eq (to_lower a) (to_lower b)

module _ (e : Ethers) where
  unfoldable pub general_call : Text → GeneralFn → Result MorphoError Call
  general_call to f = do h ← encoded (e.encode_general f); ok (mk_call to h zero_hash)

  unfoldable pub core_call : Text → CoreFn → Result MorphoError Call
  core_call to f = do h ← encoded (e.encode_core f); ok (mk_call to h zero_hash)

  unfoldable pub nest_call : Text → NestFn → Result MorphoError Call
  nest_call to f = do h ← encoded (e.encode_nest f); ok (mk_call to h zero_hash)

  unfoldable pub encode_call_array : List Call → Result MorphoError Hex
  encode_call_array calls = encoded (e.encode_calls calls)

  unfoldable pub compute_market_id : MarketParams → Result MorphoError Hex
  compute_market_id market = do h ← encoded (e.encode_market_params market); ok (e.keccak256 h)

  unfoldable pub normalize_address : Text → Result MorphoError Text
  normalize_address value = elim (e.get_address value) [
    | none ↦ err MorphoError.invalid_address
    | some a ↦ ok a
  ]

-- The function that a call encodes, tried in the order of `decodeCall`.
pub data Decoded : Type 0 where
  general : GeneralFn → Decoded
  core : CoreFn → Decoded
  nest : NestFn → Decoded
  unknown : Decoded

module _ (e : Ethers) where
  unfoldable pub decode_nest : Hex → Decoded
  decode_nest h = elim (e.parse_nest h) [ some f ↦ nest f | none ↦ unknown ]

  unfoldable pub decode_core : Hex → Decoded
  decode_core h = elim (e.parse_core h) [ some f ↦ core f | none ↦ decode_nest h ]

  unfoldable pub decode : Hex → Decoded
  decode h = elim (e.parse_general h) [ some f ↦ general f | none ↦ decode_core h ]
