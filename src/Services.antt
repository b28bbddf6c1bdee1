-- ===== src/Services.antt =====
-- The Safe transaction services of tools/safeTxService.ts.
use nest_protocol.Base.{ℕ, Bool, true, false, Option, none, some, ◌==◌, ◌++◌, if◌then◌else◌}
use nest_protocol.Base.Text.{Text, txt}

pub record SafeServiceEntry : Type 0 where
  pub api : Text
  pub ui_base : Text
  pub slug : Text
  pub split_batches : Bool

-- An entry of safe.global, by its slug.
abbrev pub global_service : Text → SafeServiceEntry
global_service slug = record {
  api = txt "https://api.safe.global/tx-service/" ++ (slug ++ txt "/api");
  ui_base = txt "https://app.safe.global";
  slug = slug;
  split_batches = false;
}

-- `SAFE_TX_SERVICE[chainId]`
unfoldable pub safe_tx_service : ℕ → Option SafeServiceEntry
safe_tx_service chain_id =
    if chain_id == 1
    then some (global_service (txt "eth"))
    else if chain_id == 56
    then some (global_service (txt "bnb"))
    else if chain_id == 42161
    then some (global_service (txt "arb1"))
    else if chain_id == 480
    then some (global_service (txt "wc"))
    else if chain_id == 9745
    then some (global_service (txt "plasma"))
    else if chain_id == 5042
    then some (global_service (txt "arc"))
    else if chain_id == 98866
    then some (record {
      api = txt "https://safe-transaction-plume.onchainden.com/api";
      ui_base = txt "https://safe.onchainden.com";
      slug = txt "plume";
      split_batches = true;
    })
    else none
