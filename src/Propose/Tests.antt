-- ===== src/Propose/Tests.antt =====
-- Runs of the propose phase with a service that answers, and its theorems there.
use nest_protocol.Base.{◌≡◌, refl, true, false, some, List, [], ◌∷◌, length}
use nest_protocol.Base.Outcome.{ok, err}
use nest_protocol.Split.Types.{slot_1a, slot_3}
use nest_protocol.Propose.Step.{
  Proposal, ◌>>=◌, pure, throw, outside, attempt, or_throw, require, choose_nonce, post,
  propose_batch,
}
use nest_protocol.Propose.Phase.{run_propose_phase, propose_each, propose_section, sim_and_log}
use nest_protocol.Propose.Loop.{InOrder}
use nest_protocol.Propose.Delivered.{Delivered, run_propose_phase-Delivered}
use nest_protocol.Propose.Properties.{split_mode-InOrder, merged_mode-Once, Once}
use nest_protocol.Propose.Sample.{sample_api, tx, section, sample_input, start}

-- The second of two proposals fails, and the first one stays.
first_only :
    (run_propose_phase sample_api (sample_input true) (start 1)).1.posted
    ≡ record { nonce = 7; txs = tx ∷ [] } ∷ []
unfolding run_propose_phase propose_each propose_section sim_and_log propose_batch post choose_nonce
    ◌>>=◌ pure throw outside attempt or_throw require
first_only = refl

split_mode-InOrder_example :
    let r = run_propose_phase sample_api (sample_input true) (start 1) in
    (new : List Proposal) × (r.1.posted ≡ new)
    × (InOrder (some 7) 0 (section slot_1a (tx ∷ []) ∷ section slot_3 (tx ∷ tx ∷ []) ∷ []) new
        × (false ≡ true → new ≡ [])
        × (elim r.0 as (λ _. Type 0) [
          | err e ↦ Unit
          | ok (os, aborted) ↦ aborted ≡ false → false ≡ false → length new ≡ 2
        ]))
split_mode-InOrder_example = split_mode-InOrder sample_api (sample_input true) (start 1) refl

merged_mode-Once_example :
    let r = run_propose_phase sample_api (sample_input false) (start 1) in
    (new : List Proposal) × (r.1.posted ≡ new)
    × Once (sample_input false) (tx ∷ tx ∷ tx ∷ []) r.0 new
merged_mode-Once_example = merged_mode-Once sample_api (sample_input false) (start 1) refl refl

run_propose_phase-Delivered_example :
    (new : List Proposal) × ((run_propose_phase sample_api (sample_input false) (start 1)).1.posted
      ≡ new)
    × Delivered false
        (tx ∷ tx ∷ tx ∷ [])
        (run_propose_phase sample_api (sample_input false) (start 1)).0
        new
run_propose_phase-Delivered_example =
    run_propose_phase-Delivered sample_api (sample_input false) (start 1)
