-- ===== src/ArcPrices/Api.antt =====
-- What tools/syncArcPrices.ts finds outside: two chains, the wallet, and the repository's files; and
-- the state of its run.
use nest_protocol.Base.{ℕ, Bool, List, Option, none, some}
use nest_protocol.Base.Text.{Text, txt}
use nest_protocol.Propose.Step.{Step, pure, throw, ◌>>=◌, outside}
use nest_protocol.ArcPrices.Rate.{AccountantState}
use nest_protocol.ArcPrices.Code.{Artifact}

pub record Block : Type 0 where
  pub number : ℕ
  pub timestamp : ℕ

pub record Receipt : Type 0 where
  pub success : Bool
  pub block_number : ℕ

-- A public client. A call of a view names the contract and the function, and the block or none for
-- the latest; every call gives `none` where it throws.
pub record ChainApi (W : Type 0) : Type 0 where
  pub get_chain_id : W → Option ℕ × W
  pub get_block : W → Option Block × W
  pub read_text : Text → Text → Option ℕ → W → Option Text × W
  pub read_number : Text → Text → Option ℕ → W → Option ℕ × W
  pub read_state : Text → Option ℕ → W → Option AccountantState × W
  -- the word in the slot of ERC-1967's implementation, empty where there is none
  pub get_implementation_slot : Text → ℕ → W → Option Text × W
  -- the code, or 0x
  pub get_code : Text → ℕ → W → Option Text × W
  -- of the deployer, by the tag of a block
  pub get_transaction_count : Text → W → Option ℕ × W
  -- `simulateContract` of updateExchangeRate(rate, 0)
  pub simulate_update : Text → ℕ → Option ℕ → W → Option (Unit {0}) × W
  -- `writeContract` of the same, with a nonce: the hash
  pub write_update : Text → ℕ → ℕ → W → Option Text × W
  pub wait_for_receipt : Text → W → Option Receipt × W

-- script/deployment-config/vaults and script/output of a symbol.
pub record VaultConfig : Type 0 where
  pub accountant_type : Text
  pub hub_chain_id : Option ℕ
  pub base_asset_symbol : Text

pub record VaultOutput : Type 0 where
  pub deploy_chain_id : ℕ
  pub vaults : List Text
  pub accountant : Text
  pub share : Text

pub data UpdateStatus : Type 0 where
  simulated already_synced sending submitted confirmed : UpdateStatus

pub record Entry : Type 0 where
  pub symbol : Text
  pub vault : Text
  pub accountant : Text
  pub hub_accountant : Text
  pub implementation : Text
  pub before : AccountantState
  pub rate : ℕ
  pub needs_update : Bool
  pub status : UpdateStatus
  pub nonce : Option ℕ
  pub transaction_hash : Option Text
  pub receipt : Option Receipt
  pub after : Option AccountantState

pub record Report : Type 0 where
  pub entries : List Entry
  pub complete : Bool

-- The report in memory and as it was last saved.
pub record Sync (W : Type 0) : Type 0 where
  pub net : W
  pub report : Report
  pub saved : Option Report

pub record Outside (W : Type 0) : Type 0 where
  pub arc : ChainApi W
  pub hub : ChainApi W
  pub env : Text → Option Text
  -- `privateKeyToAccount`
  pub account_address : Text → Option Text
  pub artifact : Artifact
  pub configs : Text → Option VaultConfig
  pub outputs : Text → Option VaultOutput
  -- config/assets of a chain, its USDC
  pub usdc : ℕ → Option Text
  -- `fs.writeFileSync` of the report: none where it throws
  pub write_report : Report → W → Option (Unit {0}) × W

module _ {W : Type 0} where
  -- A call of the outside that throws where it gives none.
  unfoldable pub ask : {A : Type 0} → (W → Option A × W) → Step (Sync W) A
  ask call =
      outside (λ (w : Sync W). ((call w.net).0, record w { net = (call w.net).1 })) >>= λ answer.
      elim answer [ none ↦ throw (txt "call failed") | some a ↦ pure a ]

  -- A change of the run's own state.
  unfoldable pub change : (Sync W → Sync W) → Step (Sync W) (Unit {0})
  change f = outside (λ w. (tt, f w))

  unfoldable pub get_report : Step (Sync W) Report
  get_report = outside (λ w. (w.report, w))

  unfoldable pub save : Outside W → Step (Sync W) (Unit {0})
  save out = do
    report ← get_report
    _ ← ask (out.write_report report)
    change (λ w. record w { saved = some report })

  unfoldable pub set_report : (Report → Report) → Step (Sync W) (Unit {0})
  set_report f = change (λ w. record w { report = f w.report })
