-- ===== src/ArcPrices/Run.antt =====
-- `runSync` and `main` of tools/syncArcPrices.ts.
use nest_protocol.Base.{
  ℕ, ◌-◌, Bool, true, false, ◌||◌, not, List, [], ◌∷◌, ◌++◌, ◌==◌, length, drop, if◌then◌else◌,
  Option, none, some,
}
use nest_protocol.Base.Text.{Text, txt, text_eq, member}
use nest_protocol.Base.Outcome.{throw_if}
use nest_protocol.Environment.{require_env}
use nest_protocol.Propose.Step.{Step, pure, throw, ◌>>=◌, attempt, plain}
use nest_protocol.ArcPrices.Rate.{AccountantState, check_rate_update}
use nest_protocol.ArcPrices.Code.{assert_spoke_code}
use nest_protocol.ArcPrices.Api.{
  Block, ChainApi, Entry, simulated, already_synced, sending, submitted, confirmed, Sync, Outside,
  ask, get_report, set_report, save,
}
use nest_protocol.ArcPrices.Checks.{
  symbols, same, or_fail, check_config, only_vault, find_symbol, update_symbol, is_expected,
  check_sync_args, with_0x,
}

module _ {W : Type 0} where
  abbrev pub check : Bool → Text → Step (Sync W) (Unit {0})
  check fails message = plain (throw_if fails message)

  -- `Object.assign` on the entry of a symbol.
  unfoldable pub mark : Text → (Entry → Entry) → Step (Sync W) (Unit {0})
  mark symbol f = set_report (λ r. record r { entries = update_symbol symbol f r.entries })

  -- `runSync`
  unfoldable pub for_each :
      {A : Type 0} → List A → (A → Step (Sync W) (Unit {0})) → Step (Sync W) (Unit {0})
  for_each [] f = pure tt
  for_each (x ∷ xs) f = f x >>= λ _. for_each xs f

  unfoldable pub run_sync :
      {A : Type 0}
      → List A
      → (A → Step (Sync W) (Unit {0}))
      → (A → Step (Sync W) (Unit {0}))
      → Bool
      → Step (Sync W) (Unit {0})
  run_sync items preflight send broadcast =
      for_each items preflight >>= λ _. if broadcast then for_each items send else pure tt

-- The bindings of a vault, its share and its accountant on a chain at a block.
unfoldable pub check_bindings :
    {W : Type 0}
    → ChainApi W
    → Option Text
    → Text
    → Text
    → Text
    → Text
    → ℕ
    → Step (Sync W) (Unit {0})
check_bindings client usdc symbol vault share expected_accountant block = do
  let at = some block
  actual_accountant ← ask (client.read_text vault (txt "accountant") at)
  vault_share ← ask (client.read_text vault (txt "share") at)
  accountant_share ← ask (client.read_text expected_accountant (txt "share") at)
  token_symbol ← ask (client.read_text share (txt "symbol") at)
  decimals ← ask (client.read_number expected_accountant (txt "baseDecimals") at)
  base ← ask (client.read_text expected_accountant (txt "base") at)
  asset ← plain (or_fail (txt "config/assets not found") usdc)
  check
      (not (same actual_accountant expected_accountant)
        || not (same vault_share share)
        || not (same accountant_share share)
        || not (text_eq token_symbol symbol)
        || not (decimals == 6)
        || not (same base asset))
      (txt "vault/share/accountant/USDC binding mismatch")

module _ {W : Type 0} (out : Outside W) (deployer : Text) where
  unfoldable pub owned : Text → Option ℕ → Step (Sync W) (Unit {0})
  owned address block = do
    owner ← ask (out.arc.read_text address (txt "owner") block)
    check (not (same owner deployer))
        (txt "Price sync requires the deployer to remain the current owner")

  unfoldable pub idle : Step (Sync W) ℕ
  idle = do
    latest ← ask (out.arc.get_transaction_count (txt "latest"))
    pending ← ask (out.arc.get_transaction_count (txt "pending"))
    _ ← check (not (latest == pending)) (txt "Deployer has pending transactions")
    pure latest

  unfoldable pub preflight : Block → Block → Text → Step (Sync W) (Unit {0})
  preflight arc_block hub_block symbol = do
    config ← plain (or_fail (txt "vault config not found") (out.configs symbol))
    _ ← plain (check_config config)
    output ← plain (or_fail (txt "output not found") (out.outputs symbol))
    vault ← plain (only_vault output)
    let accountant = output.accountant
    hub_accountant ← ask (out.hub.read_text vault (txt "accountant") (some hub_block.number))
    _ ← check_bindings out.arc (out.usdc 5042) symbol vault output.share accountant arc_block.number
    _ ←
        check_bindings out.hub (out.usdc 98866) symbol vault output.share hub_accountant
          hub_block.number
    _ ← owned accountant (some arc_block.number)
    slot ← ask (out.arc.get_implementation_slot accountant arc_block.number)
    _ ← check (length slot == 0) (txt "Missing accountant implementation")
    let implementation = txt "0x" ++ drop (length slot - 40) slot
    code ← ask (out.arc.get_code implementation arc_block.number)
    _ ← plain (assert_spoke_code code out.artifact)
    rate ← ask (out.hub.read_number hub_accountant (txt "getRateSafe") (some hub_block.number))
    state ← ask (out.arc.read_state accountant (some arc_block.number))
    needs_update ← plain (check_rate_update state rate arc_block.timestamp)
    _ ←
        if needs_update
        then ask (out.arc.simulate_update accountant rate (some arc_block.number))
        else pure tt
    let entry : Entry = record {
      symbol = symbol;
      vault = vault;
      accountant = accountant;
      hub_accountant = hub_accountant;
      implementation = implementation;
      before = state;
      rate = rate;
      needs_update = needs_update;
      status = if needs_update then simulated else already_synced;
      nonce = none;
      transaction_hash = none;
      receipt = none;
      after = none;
    }
    _ ← set_report (λ r. record r { entries = r.entries ++ entry ∷ [] })
    save out

  -- What `send` does where an update is due in a state.
  unfoldable pub transact : Text → Entry → AccountantState → Step (Sync W) (Unit {0})
  transact symbol entry state = do
    _ ←
        check
          (not (state.exchange_rate == entry.before.exchange_rate)
            || not (state.last_update_timestamp == entry.before.last_update_timestamp))
          (txt "Arc checkpoint changed since simulation")
    _ ← ask (out.arc.simulate_update entry.accountant entry.rate none)
    nonce ← idle
    _ ← mark symbol (λ e. record e { status = sending; nonce = some nonce })
    _ ← save out
    hash ← ask (out.arc.write_update entry.accountant entry.rate nonce)
    _ ← mark symbol (λ e. record e { transaction_hash = some hash; status = submitted })
    _ ← save out
    receipt ← ask (out.arc.wait_for_receipt hash)
    _ ← mark symbol (λ e. record e { receipt = some receipt })
    _ ← save out
    _ ← check (not receipt.success) (txt "price update reverted")
    after ← ask (out.arc.read_state entry.accountant (some receipt.block_number))
    _ ←
        check (not (is_expected state entry.rate after))
          (txt "unexpected accountant state after update")
    _ ← mark symbol (λ e. record e { after = some after; status = confirmed })
    save out

  unfoldable pub send : Text → Step (Sync W) (Unit {0})
  send symbol = do
    report ← get_report
    entry ← plain (or_fail (txt "no entry") (find_symbol symbol report.entries))
    _ ← owned entry.accountant none
    current_hub_rate ← ask (out.hub.read_number entry.hub_accountant (txt "getRateSafe") none)
    _ ← check (not (current_hub_rate == entry.rate)) (txt "hub rate changed since simulation")
    latest_block ← ask out.arc.get_block
    state ← ask (out.arc.read_state entry.accountant (some latest_block.number))
    due ← plain (check_rate_update state entry.rate latest_block.timestamp)
    if due
        then transact symbol entry state
        else (mark symbol (λ e. record e { status = already_synced }) >>= λ _. save out)

module _ {W : Type 0} (out : Outside W) where
  -- What follows the reading of the arguments.
  unfoldable pub sync_prices : Bool → Step (Sync W) (Unit {0})
  sync_prices broadcast = do
    _ ← plain (require_env out.env (txt "ARC_RPC_URL"))
    _ ← plain (require_env out.env (txt "PLUME_RPC_URL"))
    raw_key ← plain (require_env out.env (txt "PRIVATE_KEY"))
    deployer ← plain (or_fail (txt "invalid private key") (out.account_address (with_0x raw_key)))
    arc_chain ← ask out.arc.get_chain_id
    _ ← check (not (arc_chain == 5042)) (txt "Expected Arc 5042 and Plume 98866 RPCs")
    hub_chain ← ask out.hub.get_chain_id
    _ ← check (not (hub_chain == 98866)) (txt "Expected Arc 5042 and Plume 98866 RPCs")
    arc_block ← ask out.arc.get_block
    hub_block ← ask out.hub.get_block
    _ ← set_report (λ r. record { entries = []; complete = false })
    _ ← idle out deployer
    let work : Step (Sync W) (Unit {0}) =
        run_sync symbols (preflight out deployer arc_block hub_block) (send out deployer) broadcast
        >>= λ _. set_report (λ r. record r { complete = true }) >>= λ _. save out
    finished ← attempt work
    elim finished [
      | some u ↦ pure tt
      | none ↦
          (set_report (λ r. record r { complete = false }) >>= λ _.
          save out >>= λ _. throw (txt "failed"))
    ]

  unfoldable pub sync_main : List Text → Step (Sync W) (Unit {0})
  sync_main args =
      if member (txt "--help") args
      then pure tt
      else (plain (check_sync_args args) >>= λ broadcast. sync_prices broadcast)
