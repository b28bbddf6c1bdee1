-- ===== src/Propose/Properties.antt =====
-- What `runProposePhase` promises of the proposals it makes.
use mathlib.Core.List.{append-nil}
use nest_protocol.Base.{
  ℕ, ◌≡◌, refl, ◌∙◌, sym, subst, Bool, true, false, Option, none, some, List, [], ◌++◌, keep,
  length, if◌then◌else◌, ◌==◌, ◌||◌,
}
use nest_protocol.Base.Text.{Text, txt}
use nest_protocol.Base.Outcome.{Result, ok, err}
use nest_protocol.Split.Types.{all_txs, SafeTx}
use nest_protocol.Split.Batches.{has_txs}
use nest_protocol.Propose.Step.{SafeApi, State, Step, Proposal, pure, ProposeResult}
use nest_protocol.Propose.Phase.{
  ProposePhaseInput, Outcome, run_propose_phase, propose_each, propose_all_merged, sort_outcomes,
  propose_merged,
}
use nest_protocol.Propose.Posts.{
  Holds, Holds-bind, Holds-quiet, Holds-pure, Holds-if, Tried, attempt-Tried, IsQuiet-outside, one,
  Asked, propose_batch-IsQuiet,
}
use nest_protocol.Propose.Loop.{InOrder, Proposed, propose_each-InOrder, IsQuiet-sim_and_log}

-- In split mode, the proposals that a run has made when it ends, also by an error or an abort, are
-- those of the first sections with transactions, one for each and in their order: none is proposed
-- after one that was declined or failed. With a base nonce given they have the nonces from it on,
-- with no gap. A dry run proposes nothing; any other run that ends without an error or an abort
-- has proposed all the sections with transactions.
pub split_mode-InOrder :
    {W : Type 0} (api : SafeApi W) (input : ProposePhaseInput) (s : State W)
    → input.split_mode ≡ true
    → let r = run_propose_phase api input s in
      (new : List Proposal) × (r.1.posted ≡ s.posted ++ new)
      × (InOrder input.nonce_override 0 (keep has_txs input.sections) new
          × (input.safe_dry_run ≡ true → new ≡ [])
          × (elim r.0 as (λ _. Type 0) [
            | err e ↦ Unit
            | ok (os, aborted) ↦
                aborted ≡ false
                → input.safe_dry_run ≡ false
                → length new ≡ length (keep has_txs input.sections)
          ]))
unfolding run_propose_phase
split_mode-InOrder api input s split =
    let P = Proposed input 0 (keep has_txs input.sections) in
    Holds-bind P P
      (if input.split_mode
        then propose_each api input false 0 input.sections
        else propose_all_merged api input)
      (λ done. pure (sort_outcomes done.0, done.1))
      (subst
        (λ b. Holds P (
          if b
          then propose_each api input false 0 input.sections
          else propose_all_merged api input))
        (sym split) (propose_each-InOrder api input 0 input.sections))
      (λ done new h.
        Holds-pure (λ b later. P b (new ++ later)) (sort_outcomes done.0, done.1)
          (subst (λ n. P (ok (sort_outcomes done.0, done.1)) n) (sym (append-nil new)) h))
      (λ e new h. h) s

-- One proposal of all the calls, with the nonce that was asked for; none if it is a dry run, or
-- throws, or aborts.
abbrev pub Once :
    {A : Type 0} → ProposePhaseInput → List SafeTx → Result Text (A × Bool) → List Proposal → Type 0
Once input txs (err e) new = new ≡ []
Once input txs (ok (a, aborted)) new =
    if aborted || input.safe_dry_run
    then new ≡ []
    else ((n : ℕ) × (new ≡ one n txs) × Asked input.nonce_override n)

module _ {W : Type 0} (api : SafeApi W) (input : ProposePhaseInput) where
  attempted-Once :
      (txs : List SafeTx)
      → input.safe_dry_run ≡ false
      → (attempted : Option ProposeResult) (new : List Proposal)
      → Tried input.nonce_override txs (ok attempted) new
      → Holds
          (λ b later. Once input txs b (new ++ later))
          (elim attempted as (λ _. Step W (Text × Bool)) [
            | some made ↦ pure (made.ui_url, false)
            | none ↦ pure (txt "<failed>", true)
          ])
  attempted-Once txs real none new h =
      Holds-pure (λ b later. Once input txs b (new ++ later)) _ (append-nil new ∙ h)
  attempted-Once txs real (some r) new h =
      Holds-pure (λ b later. Once input txs b (new ++ later)) _
        (rw real (r.nonce, append-nil new ∙ h.0, h.1))

  propose_merged-Once :
      (txs : List SafeTx) (url : Text) → Holds (Once input txs) (propose_merged api input txs url)
  unfolding propose_merged
  propose_merged-Once txs url =
      let Q = Once {A = Text} input txs in
      Holds-if Q input.safe_dry_run _ _ (λ dry. Holds-pure Q _ (rw dry refl))
        (λ real.
          Holds-quiet Q _ _ (IsQuiet-outside api.prompt_to_continue)
            (λ go.
              Holds-if Q go _ _
                (λ agreed.
                  Holds-bind (Tried input.nonce_override txs) Q _ _
                    (attempt-Tried api txs input.nonce_override) (attempted-Once txs real)
                    (λ e new h. h))
                (λ declined. Holds-pure Q _ refl))
            (λ e. refl))

  propose_all_merged-Once :
      (length (keep has_txs input.sections) == 0) ≡ false
      → Holds (Once input (all_txs (keep has_txs input.sections))) (propose_all_merged api input)
  unfolding propose_all_merged
  propose_all_merged-Once full =
      let txs = all_txs (keep has_txs input.sections) in
      let Q = Once {A = List Outcome} input txs in
      Holds-if Q (length (keep has_txs input.sections) == 0) _ _ (λ hollow. cc)
        (λ _.
          Holds-quiet Q _ _ (propose_batch-IsQuiet api txs input.nonce_override)
            (λ dry.
              Holds-quiet Q _ _ (IsQuiet-sim_and_log api input txs dry.nonce)
                (λ sim_url.
                  Holds-bind (Once {A = Text} input txs) Q _ _ (propose_merged-Once txs dry.ui_url)
                    (λ made new h.
                      Holds-pure (λ b later. Q b (new ++ later)) _
                        (subst (λ n. Q (ok ([], made.1)) n) (sym (append-nil new)) h))
                    (λ e new h. h))
                (λ e. refl))
            (λ e. refl))

-- In merged mode, if some section has transactions, a run that ends has proposed exactly one
-- transaction, of all the sections' calls in their order and with the nonce that was asked for, if
-- one was; or nothing, if it was a dry run, was aborted, or ended by an error.
pub merged_mode-Once :
    {W : Type 0} (api : SafeApi W) (input : ProposePhaseInput) (s : State W)
    → input.split_mode ≡ false
    → (length (keep has_txs input.sections) == 0) ≡ false
    → let r = run_propose_phase api input s in
      (new : List Proposal) × (r.1.posted ≡ s.posted ++ new)
      × Once input (all_txs (keep has_txs input.sections)) r.0 new
unfolding run_propose_phase
merged_mode-Once api input s merged full =
    let P = Once {A = List Outcome} input (all_txs (keep has_txs input.sections)) in
    Holds-bind P P
      (if input.split_mode
        then propose_each api input false 0 input.sections
        else propose_all_merged api input)
      (λ done. pure (sort_outcomes done.0, done.1))
      (subst
        (λ b. Holds P (
          if b
          then propose_each api input false 0 input.sections
          else propose_all_merged api input))
        (sym merged) (propose_all_merged-Once api input full))
      (λ done new h.
        Holds-pure (λ b later. P b (new ++ later)) (sort_outcomes done.0, done.1)
          (subst (λ n. P (ok (sort_outcomes done.0, done.1)) n) (sym (append-nil new)) h))
      (λ e new h. h) s

-- In merged mode, if no section has transactions, a run proposes nothing.
pub merged_mode_hollow :
    {W : Type 0} (api : SafeApi W) (input : ProposePhaseInput) (s : State W)
    → input.split_mode ≡ false
    → (length (keep has_txs input.sections) == 0) ≡ true
    → let r = run_propose_phase api input s in
      (new : List Proposal) × (r.1.posted ≡ s.posted ++ new) × (new ≡ [])
unfolding run_propose_phase propose_all_merged
merged_mode_hollow api input s merged hollow =
    let P = λ (r : Result Text (List Outcome × Bool)) (new : List Proposal). new ≡ [] in
    Holds-bind P P
      (if input.split_mode
        then propose_each api input false 0 input.sections
        else propose_all_merged api input)
      (λ done. pure (sort_outcomes done.0, done.1))
      (subst
        (λ b. Holds P (
          if b
          then propose_each api input false 0 input.sections
          else propose_all_merged api input))
        (sym merged)
        (Holds-if P (length (keep has_txs input.sections) == 0) _ _ (λ _. Holds-pure P _ refl)
          (λ full. cc)))
      (λ done new h. Holds-pure (λ b later. new ++ later ≡ []) _ (append-nil new ∙ h))
      (λ e new h. h) s
