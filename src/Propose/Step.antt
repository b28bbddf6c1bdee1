-- ===== src/Propose/Step.antt =====
-- `proposeBatch` of tools/safePropose.ts, as steps on the outside world that may throw. The Safe
-- libraries, the signers' service, the prompt and the simulator are a parameter, `SafeApi`: each
-- of their calls takes the world and gives the next one, and `none` where it throws.
use nest_protocol.Base.{
  ℕ, Bool, true, false, Option, none, some, List, [], ◌∷◌, ◌++◌, if◌then◌else◌,
}
use nest_protocol.Base.Text.{Text, txt}
use nest_protocol.Base.Outcome.{Result, ok, err}
use nest_protocol.Split.Types.{SafeTx}

pub record SafeApi (W : Type 0) : Type 0 where
  -- `serviceFor` and `Safe.init`
  pub init : W → Bool × W
  -- `apiKit.getNextNonce` and `protocolKit.getNonce`
  pub get_next_nonce : W → Option ℕ × W
  pub get_nonce : W → Option ℕ × W
  -- `createTransaction` and `getTransactionHash`
  pub transaction_hash : ℕ → List SafeTx → W → Option Text × W
  -- `signHash` and `proposeTransaction`: whether it was accepted
  pub propose_transaction : ℕ → List SafeTx → Text → W → Bool × W
  -- `promptToContinue`
  pub prompt_to_continue : W → Bool × W
  -- `simulateSafeExec`: the address of the simulation, if there is one
  pub simulate_safe_exec : ℕ → List SafeTx → W → Option (Option Text) × W
  -- `uiUrlForTx`
  pub ui_url_for_tx : Text → Text

-- A transaction that the service has accepted: its nonce and the calls in it.
pub record Proposal : Type 0 where
  pub nonce : ℕ
  pub txs : List SafeTx

-- The world, and the proposals that this run has made.
pub record State (W : Type 0) : Type 0 where
  pub world : W
  pub posted : List Proposal

abbrev pub Step : (W A : Type 0) → Type 0
Step W A = State W → Result Text A × State W

module _ {W : Type 0} where
  unfoldable pub pure : {A : Type 0} → A → Step W A
  pure a s = (ok a, s)

  unfoldable pub throw : {A : Type 0} → Text → Step W A
  throw e s = (err e, s)

  abbrev pub proceed :
      {A B : Type 0} → Result Text A × State W → (A → Step W B) → Result Text B × State W
  proceed (err e, s) k = (err e, s)
  proceed (ok a, s) k = k a s

  infixl 5 ◌>>=◌
  unfoldable pub ◌>>=◌ : {A B : Type 0} → Step W A → (A → Step W B) → Step W B
  (m >>= k) s = proceed (m s) k

  abbrev pub caught : {A : Type 0} → Result Text A × State W → Result Text (Option A) × State W
  caught (err e, s) = (ok none, s)
  caught (ok a, s) = (ok (some a), s)

  -- `try`: none if it threw, after what it has done
  unfoldable pub attempt : {A : Type 0} → Step W A → Step W (Option A)
  attempt m s = caught (m s)

  -- A call of the outside.
  unfoldable pub outside : {A : Type 0} → (W → A × W) → Step W A
  outside call s = (ok (call s.world).0, record s { world = (call s.world).1 })

  -- Plain code, which may throw, as a step.
  unfoldable pub plain : {A : Type 0} → Result Text A → Step W A
  plain (err e) = throw e
  plain (ok a) = pure a

pub record ProposeResult : Type 0 where
  pub safe_tx_hash : Text
  pub ui_url : Text
  pub nonce : ℕ
  pub proposed : Bool

module _ {W : Type 0} (api : SafeApi W) where
  unfoldable pub or_throw : {A : Type 0} → Option A → Step W A
  or_throw none = throw (txt "failed")
  or_throw (some a) = pure a

  unfoldable pub require : Bool → Step W (Unit {0})
  require true = pure tt
  require false = throw (txt "failed")

  -- The nonce: the one that was asked for, the service's, or the chain's if the service fails.
  unfoldable pub choose_nonce : Option ℕ → Step W ℕ
  choose_nonce (some n) = pure n
  choose_nonce none = do
    served ← outside api.get_next_nonce
    elim served [ some n ↦ pure n | none ↦ (do onchain ← outside api.get_nonce; or_throw onchain) ]

  abbrev pub propose_result : Text → ℕ → Bool → ProposeResult
  propose_result hash nonce proposed = record {
    safe_tx_hash = hash;
    ui_url = api.ui_url_for_tx hash;
    nonce = nonce;
    proposed = proposed;
  }

  -- A proposal that the service accepts is one of the run's.
  unfoldable pub post : ℕ → List SafeTx → Text → Step W (Unit {0})
  post nonce txs hash s =
      let reply = api.propose_transaction nonce txs hash s.world in
      if reply.0
      then (
        ok tt,
        record { world = reply.1; posted = s.posted ++ record { nonce = nonce; txs = txs } ∷ [] },
      )
      else (err (txt "proposeTransaction failed"), record s { world = reply.1 })

  unfoldable pub propose_batch : List SafeTx → Bool → Option ℕ → Step W ProposeResult
  propose_batch [] dry_run requested = throw (txt "proposeBatch called with empty tx array")
  propose_batch (tx ∷ txs) dry_run requested = do
    ready ← outside api.init
    _ ← require ready
    next_nonce ← choose_nonce requested
    created ← outside (api.transaction_hash next_nonce (tx ∷ txs))
    hash ← or_throw created
    if dry_run
        then pure (propose_result hash next_nonce false)
        else (post next_nonce (tx ∷ txs) hash >>= λ _. pure (propose_result hash next_nonce true))
