-- ===== src/Morpho/Bundle/Flow.antt =====
-- An independent reading of a bundle: the loan tokens that the two adapters hold while its calls
-- are carried out. The initiator is taken to have what is pulled from it, and a redemption pays a
-- receiver outside; an adapter that lacks what a call takes from it stops the bundle.
use nest_protocol.Base.{
  ℕ, ◌+◌, ◌-◌, Option, none, some, List, [], ◌∷◌, ◌++◌, leb, if◌then◌else◌, ◌≡◌, refl, inl, inr,
  Option-cases,
}
use nest_protocol.Base.Text.{Text, text_eq}
use nest_protocol.Morpho.Types.{AddressBook, Call}
use nest_protocol.Morpho.Abi.{
  Ethers, Decoded, erc20_transfer_from, morpho_flash_loan, morpho_supply_collateral, morpho_borrow,
  morpho_repay, morpho_withdraw_collateral, erc20_transfer, nest_deposit, nest_instant_redeem,
  nest_redeem, morpho_withdraw_collateral_on_behalf, decode, general, core, nest, unknown,
  same_address,
}

-- Loan tokens in the general adapter and in the Nest adapter, if that is another contract.
pub record Balances : Type 0 where
  pub in_general : ℕ
  pub in_nest : ℕ

infixl 5 ◌>>=◌
abbrev pub ◌>>=◌ : {A B : Type 0} → Option A → (A → Option B) → Option B
none >>= f = none
some a >>= f = f a

pub bind-some : {A : Type 0} (m : Option A) → (m >>= some) ≡ m
bind-some none = refl
bind-some (some a) = refl

module _ (addresses : AddressBook) where
  abbrev pub credit : Text → ℕ → Balances → Balances
  credit account amount b =
      if same_address account addresses.general_adapter
      then record b { in_general = b.in_general + amount }
      else if same_address account addresses.nest_adapter
      then record b { in_nest = b.in_nest + amount }
      else b

  abbrev pub debit : Text → ℕ → Balances → Option Balances
  debit account amount b =
      if same_address account addresses.general_adapter
      then if leb amount b.in_general
        then some (record b { in_general = b.in_general - amount })
        else none
      else if same_address account addresses.nest_adapter
      then if leb amount b.in_nest then some (record b { in_nest = b.in_nest - amount }) else none
      else none

  module _ (loan_token : Text) where
    -- What one call does, when `to` carries it out. A flash loan is read by `run_flash`.
    unfoldable pub perform : Text → Decoded → Balances → Option Balances
    perform to (general (erc20_transfer_from token receiver amount)) b =
        if text_eq token loan_token then some (credit receiver amount b) else some b
    perform to (general (morpho_flash_loan token assets data')) b = none
    perform to (general (morpho_supply_collateral m assets on_behalf bytes)) b = some b
    perform to (general (morpho_borrow m assets shares price receiver)) b =
        some (credit receiver assets b)
    perform to (general (morpho_repay m assets shares price on_behalf bytes)) b = debit to assets b
    perform to (general (morpho_withdraw_collateral m assets receiver)) b = some b
    perform to (core (erc20_transfer token receiver amount)) b =
        if text_eq token loan_token
        then (do b' ← debit to amount b; some (credit receiver amount b'))
        else some b
    perform to (nest (nest_deposit vault assets price receiver)) b = debit to assets b
    perform to (nest (nest_instant_redeem vault shares price receiver owner)) b = some b
    perform to (nest (nest_redeem vault shares price receiver owner)) b = some b
    perform to (nest (morpho_withdraw_collateral_on_behalf m assets on_behalf receiver)) b = some b
    perform to unknown b = none

module _ (e : Ethers) (addresses : AddressBook) (loan_token : Text) where
  unfoldable pub run_calls : List Call → Balances → Option Balances
  run_calls [] b = some b
  run_calls (c ∷ cs) b = do
    b' ← perform addresses loan_token c.to (decode e c.call_data) b
    run_calls cs b'

  -- A flash loan: the tokens arrive, the calls in its data are carried out, the tokens are taken.
  abbrev pub run_flash : Text → Decoded → Balances → Option Balances
  run_flash to (general (morpho_flash_loan token assets callback_data)) b = do
    calls ← e.decode_calls callback_data
    b' ← run_calls calls (credit addresses to assets b)
    debit addresses to assets b'
  run_flash to d b = perform addresses loan_token to d b

  unfoldable pub run_bundle : List Call → Balances → Option Balances
  run_bundle [] b = some b
  run_bundle (c ∷ cs) b = do b' ← run_flash c.to (decode e c.call_data) b; run_bundle cs b'

  pub run_calls-append :
      (xs ys : List Call) (b : Balances)
      → run_calls (xs ++ ys) b ≡ (run_calls xs b >>= run_calls ys)
  unfolding run_calls
  run_calls-append [] ys b = refl
  run_calls-append (x ∷ xs) ys b =
      elim (Option-cases (perform addresses loan_token x.to (decode e x.call_data) b)) [
        | inl stopped ↦ rw stopped
        | inr (b', went) ↦ rw went (run_calls-append xs ys b')
      ]
