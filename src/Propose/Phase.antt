-- ===== src/Propose/Phase.antt =====
-- `runProposePhase` of tools/proposePhase.ts: what it proposes, and what it reports of each slot.
use nest_protocol.Base.{
  ℕ, suc, ◌+◌, Bool, true, false, not, Option, none, some, List, [], ◌∷◌, ◌++◌, keep, map, length,
  ◌==◌, leb, if◌then◌else◌,
}
use nest_protocol.Base.Text.{Text, txt, starts_with}
use nest_protocol.Split.Types.{
  all_txs, SafeTx, Slot, slot_1a, slot_1b, slot_2a, slot_2b, slot_3, slot_4, SplitSection,
}
use nest_protocol.Split.Batches.{has_txs}
use nest_protocol.Propose.Step.{
  SafeApi, Step, pure, ◌>>=◌, attempt, outside, or_throw, propose_batch,
}

-- The phase's libraries are those for `chain_id`, `safe`, `rpc_url` and `signer_key`; `repo_root`,
-- `vault`, `chain_name`, `eids_label` and `has_upgrade` go into the template that is printed.
pub record ProposePhaseInput : Type 0 where
  pub repo_root : Text
  pub chain_id : ℕ
  pub vault : Text
  pub chain_name : Text
  pub safe : Text
  pub rpc_url : Text
  pub signer_key : Text
  pub safe_owner : Option Text
  pub sections : List SplitSection
  pub eids_label : Text
  pub has_upgrade : Bool
  pub split_mode : Bool
  pub safe_dry_run : Bool
  pub dry_run_tag : Option Text
  pub nonce_override : Option ℕ

pub data Status : Type 0 where
  proposed skipped empty : Status

pub record Outcome : Type 0 where
  pub section : SplitSection
  pub tx_url : Text
  pub status : Status
  pub sim_url : Option Text

abbrev pub outcome : SplitSection → Text → Status → Option Text → Outcome
outcome section tx_url status sim_url = record {
  section = section;
  tx_url = tx_url;
  status = status;
  sim_url = sim_url;
}

-- `slotOrder`
unfoldable pub slot_order : Slot → ℕ
slot_order slot_1a = 0
slot_order slot_1b = 1
slot_order slot_2a = 2
slot_order slot_2b = 3
slot_order slot_3 = 4
slot_order slot_4 = 5

-- `outcomes.sort(…)`, which is stable
unfoldable pub insert_outcome : Outcome → List Outcome → List Outcome
insert_outcome o [] = o ∷ []
insert_outcome o (p ∷ ps) =
    let later = insert_outcome o ps in
    if leb (slot_order o.section.slot) (slot_order p.section.slot) then o ∷ p ∷ ps else p ∷ later

unfoldable pub sort_outcomes : List Outcome → List Outcome
sort_outcomes [] = []
sort_outcomes (o ∷ os) = insert_outcome o (sort_outcomes os)

abbrev pub tag_of : ProposePhaseInput → Text
tag_of input = elim input.dry_run_tag [ none ↦ txt "dry-run" | some tag ↦ tag ]

abbrev pub dry_url : ProposePhaseInput → Text → Text
dry_url input url = txt "<" ++ (tag_of input ++ (txt "> " ++ url))

-- The nonce of the `idx`-th slot that is not empty.
abbrev pub slot_nonce : Option ℕ → ℕ → Option ℕ
slot_nonce none idx = none
slot_nonce (some n) idx = some (n + idx)

module _ {W : Type 0} (api : SafeApi W) (input : ProposePhaseInput) where
  -- `simAndLog`, on transactions that are not empty
  unfoldable pub sim_and_log : List SafeTx → ℕ → Step W (Option Text)
  sim_and_log txs nonce = elim input.safe_owner [
    | none ↦ pure none
    | some owner ↦ (do answer ← outside (api.simulate_safe_exec nonce txs); or_throw api answer)
  ]

  -- One slot that is not empty, in split mode: its outcome, and whether the rest is aborted.
  unfoldable pub propose_section : ℕ → SplitSection → Step W (Outcome × Bool)
  propose_section idx section = do
    let txs = section.batch.transactions
    let nonce = slot_nonce input.nonce_override idx
    result ← propose_batch api txs true nonce
    sim_url ← sim_and_log txs result.nonce
    if input.safe_dry_run
        then pure (outcome section (dry_url input result.ui_url) proposed sim_url, false)
        else (do
          go ← outside api.prompt_to_continue
          if go
              then (do
                attempted ← attempt (propose_batch api txs false nonce)
                elim attempted [
                  | some made ↦ pure (outcome section made.ui_url proposed sim_url, false)
                  | none ↦ pure (outcome section (txt "<failed>") skipped sim_url, true)
                ])
              else pure (outcome section (txt "<skipped>") skipped sim_url, true))

  -- The loop of the split mode.
  unfoldable pub propose_each : Bool → ℕ → List SplitSection → Step W (List Outcome × Bool)
  propose_each aborted idx [] = pure ([], aborted)
  propose_each true idx (section ∷ sections) = propose_each true idx sections >>= λ rest.
      pure (outcome section (txt "<skipped>") skipped none ∷ rest.0, rest.1)
  propose_each false idx (section ∷ sections) =
      let pass = propose_each false idx sections >>= λ rest.
      pure (outcome section (txt "<empty>") empty none ∷ rest.0, rest.1) in
      let go_on = λ (done : Outcome × Bool).
        propose_each done.1 (suc idx) sections >>= λ rest. pure (done.0 ∷ rest.0, rest.1) in
      if has_txs section then (propose_section idx section >>= go_on) else pass

  -- The proposal of the merged batch: the address it reports, and whether it was aborted.
  unfoldable pub propose_merged : List SafeTx → Text → Step W (Text × Bool)
  propose_merged txs advisory_url =
      if input.safe_dry_run then pure (dry_url input advisory_url, false) else (do
        go ← outside api.prompt_to_continue
        if go
            then (do
              attempted ← attempt (propose_batch api txs false input.nonce_override)
              elim attempted [
                | some made ↦ pure (made.ui_url, false)
                | none ↦ pure (txt "<failed>", true)
              ])
            else pure (txt "<skipped>", true))

  abbrev pub merged_status : Text → Status
  merged_status url = if starts_with url (txt "<") then skipped else proposed

  unfoldable pub propose_all_merged : Step W (List Outcome × Bool)
  propose_all_merged =
      let non_empty = keep has_txs input.sections in
      let empties =
        map (λ s. outcome s (txt "<empty>") empty none)
          (keep (λ s. not (has_txs s)) input.sections) in
      let merged = all_txs non_empty in
      if length non_empty == 0 then pure (empties, false) else (do
        dry ← propose_batch api merged true input.nonce_override
        sim_url ← sim_and_log merged dry.nonce
        made ← propose_merged merged dry.ui_url
        pure (
          empties ++ map (λ s. outcome s made.0 (merged_status made.0) sim_url) non_empty,
          made.1,
        ))

  -- The outcomes in slot order, as the template gets them, and `aborted`.
  unfoldable pub run_propose_phase : Step W (List Outcome × Bool)
  run_propose_phase = do
    done ← if input.split_mode then propose_each false 0 input.sections else propose_all_merged
    pure (sort_outcomes done.0, done.1)
