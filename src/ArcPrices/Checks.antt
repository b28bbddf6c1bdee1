-- ===== src/ArcPrices/Checks.antt =====
-- The tests and lookups of tools/syncArcPrices.ts that ask nothing of the outside.
use nest_protocol.Base.{
  ℕ, Bool, true, false, ◌||◌, not, List, [], ◌∷◌, ◌++◌, ◌==◌, length, if◌then◌else◌, Option, none,
  some,
}
use nest_protocol.Base.Text.{Text, txt, text_eq, to_lower, starts_with}
use nest_protocol.Base.Outcome.{Result, ok, err, throw_if}
use nest_protocol.ArcPrices.Rate.{AccountantState}
use nest_protocol.ArcPrices.Api.{VaultConfig, VaultOutput, Entry}

abbrev pub symbols : List Text
symbols = txt "nOPAL" ∷ txt "nFALCON" ∷ txt "FACTOR" ∷ []

unfoldable pub same : Text → Text → Bool
same a b = text_eq (to_lower a) (to_lower b)

unfoldable pub or_fail : {A : Type 0} → Text → Option A → Result Text A
or_fail message none = err message
or_fail message (some a) = ok a

-- `config.hubChainId || 98866`
unfoldable pub hub_of : Option ℕ → ℕ
hub_of none = 98866
hub_of (some n) = if n == 0 then 98866 else n

unfoldable pub check_config : VaultConfig → Result Text (Unit {0})
check_config config =
    throw_if
      (not (text_eq config.accountant_type (txt "NestHubAccountant"))
        || not (hub_of config.hub_chain_id == 98866)
        || not (text_eq config.base_asset_symbol (txt "USDC")))
      (txt "expected Plume hub / Arc spoke with USDC base")

-- The one vault of the deployment on Arc.
unfoldable pub only_vault : VaultOutput → Result Text Text
only_vault output = elim output.vaults as (λ _. Result Text Text) [
  | [] ↦ err (txt "Unexpected Arc deployment output")
  | v ∷ vs ↦
      if not (output.deploy_chain_id == 5042) || not (length vs == 0)
      then err (txt "Unexpected Arc deployment output")
      else ok v
]

unfoldable pub find_symbol : Text → List Entry → Option Entry
find_symbol symbol [] = none
find_symbol symbol (e ∷ es) =
    let rest = find_symbol symbol es in if text_eq e.symbol symbol then some e else rest

-- A change of the entry that `find_symbol` finds.
unfoldable pub update_symbol : Text → (Entry → Entry) → List Entry → List Entry
update_symbol symbol f [] = []
update_symbol symbol f (e ∷ es) =
    let rest = update_symbol symbol f es in if text_eq e.symbol symbol then f e ∷ es else e ∷ rest

-- The state after the update is as it was before, except for the rate.
unfoldable pub is_expected : AccountantState → ℕ → AccountantState → Bool
is_expected state rate after = not (
    not (after.exchange_rate == rate)
    || after.is_paused
    || not (after.allowed_exchange_rate_change_upper == state.allowed_exchange_rate_change_upper)
    || not (after.allowed_exchange_rate_change_lower == state.allowed_exchange_rate_change_lower)
    || not (after.minimum_update_delay_in_seconds == state.minimum_update_delay_in_seconds))

unfoldable pub check_sync_args : List Text → Result Text Bool
check_sync_args [] = ok false
check_sync_args (a ∷ []) =
    if text_eq a (txt "--broadcast") then ok true else err (txt "Use sync-prices [--broadcast]")
check_sync_args (a ∷ b ∷ args) = err (txt "Use sync-prices [--broadcast]")

-- `rawKey.startsWith("0x") ? rawKey : ...`
abbrev pub with_0x : Text → Text
with_0x key = if starts_with key (txt "0x") then key else txt "0x" ++ key
