-- ===== src/Propose/Loop.antt =====
-- The loop of `runProposePhase` over slots, and the merged proposal, in the logic of steps.
use mathlib.Core.List.{append-nil}
use nest_protocol.Base.{
  ℕ, suc, ◌≡◌, refl, ap, ◌∙◌, sym, subst, Bool, true, false, Option, none, some, List, [], ◌∷◌,
  ◌++◌, keep, length, if◌then◌else◌, inl, inr, ◌⊎◌,
}
use nest_protocol.Base.Text.{Text, txt}
use nest_protocol.Base.Outcome.{Result, ok, err}
use nest_protocol.Split.Types.{SafeTx, SplitSection}
use nest_protocol.Split.Batches.{has_txs}
use nest_protocol.Propose.Step.{
  SafeApi, Step, Proposal, pure, ◌>>=◌, outside, or_throw, ProposeResult,
}
use nest_protocol.Propose.Phase.{
  ProposePhaseInput, Outcome, outcome, slot_nonce, sim_and_log, propose_section, propose_each,
  skipped, empty, proposed,
}
use nest_protocol.Propose.Posts.{
  Holds, IsQuiet, Holds-bind, Holds-quiet, Holds-pure, IsQuiet-outside, Asked, one, Tried, Holds-if,
  Holds-weaken, attempt-Tried, IsQuiet-or_throw, propose_batch-IsQuiet,
}

-- The proposals are those of the first sections of a list, one for each, in their order; with a
-- nonce asked for, that of the section `idx` places on is as many higher.
abbrev pub InOrder : Option ℕ → ℕ → List SplitSection → List Proposal → Type 0
InOrder base idx sections [] = Unit
InOrder base idx [] (p ∷ ps) = p ∷ ps ≡ []
InOrder base idx (s ∷ ss) (p ∷ ps) =
    (p.txs ≡ s.batch.transactions)
    × Asked (slot_nonce base idx) p.nonce
    × InOrder base (suc idx) ss ps

-- What one section does: nothing if it throws or aborts, or is a dry run; else it is proposed.
abbrev OneDone :
    ProposePhaseInput → ℕ → SplitSection → Result Text (Outcome × Bool) → List Proposal → Type 0
OneDone input idx section (err e) new = new ≡ []
OneDone input idx section (ok (o, true)) new = new ≡ []
OneDone input idx section (ok (o, false)) new =
    if input.safe_dry_run
    then new ≡ []
    else ((n : ℕ) × (new ≡ one n section.batch.transactions)
        × Asked (slot_nonce input.nonce_override idx) n)

abbrev AllAborted : Result Text (List Outcome × Bool) → List Proposal → Type 0
AllAborted (err e) new = new ≡ []
AllAborted (ok (os, aborted)) new = (new ≡ []) × (aborted ≡ true)

-- A run over `sections`, none empty, proposes some first of them; none if it is a dry run; all of
-- them if it is none, and does not throw or abort.
abbrev pub Proposed :
    ProposePhaseInput
    → ℕ
    → List SplitSection
    → Result Text (List Outcome × Bool)
    → List Proposal
    → Type 0
Proposed input idx sections r new =
    InOrder input.nonce_override idx sections new
    × (input.safe_dry_run ≡ true → new ≡ [])
    × (elim r as (λ _. Type 0) [
      | err e ↦ Unit
      | ok (os, aborted) ↦
          aborted ≡ false → input.safe_dry_run ≡ false → length new ≡ length sections
    ])

nothing-Proposed :
    (input : ProposePhaseInput) (idx : ℕ) (sections : List SplitSection)
    (r : Result Text (List Outcome × Bool)) (new : List Proposal)
    → new ≡ []
    → (elim r as (λ _. Type 0) [ err e ↦ Unit | ok (os, aborted) ↦ aborted ≡ true ])
    → Proposed input idx sections r new
nothing-Proposed input idx sections (err e) new h k =
    subst (λ n. Proposed input idx sections (err e) n) (sym h) (tt, (λ dry. refl), tt)
nothing-Proposed input idx sections (ok (os, aborted)) new h k =
    subst (λ n. Proposed input idx sections (ok (os, aborted)) n) (sym h)
      (tt, (λ dry. refl), λ finished. cc)

OneDone-cases :
    (dry : Bool) (base : Option ℕ) (idx : ℕ) (txs : List SafeTx) (new : List Proposal)
    → (if dry then new ≡ [] else ((n : ℕ) × (new ≡ one n txs) × Asked (slot_nonce base idx) n))
    → ((dry ≡ true) × (new ≡ []))
      ⊎ ((dry ≡ false) × ((n : ℕ) × (new ≡ one n txs) × Asked (slot_nonce base idx) n))
OneDone-cases true base idx txs new h = inl (refl, h)
OneDone-cases false base idx txs new h = inr (refl, h)

-- A section that was passed, before the rest of a run.
extend-Proposed :
    (input : ProposePhaseInput) (idx : ℕ) (s : SplitSection) (rest : List SplitSection)
    (o : Outcome) (new later : List Proposal)
    → OneDone input idx s (ok (o, false)) new
    → InOrder input.nonce_override (suc idx) rest later
    → (input.safe_dry_run ≡ true → later ≡ [])
    → InOrder input.nonce_override idx (s ∷ rest) (new ++ later)
      × (input.safe_dry_run ≡ true → new ++ later ≡ [])
      × (input.safe_dry_run ≡ false → length (new ++ later) ≡ suc (length later))
extend-Proposed input idx s rest o new later h ordered quiet =
    elim (OneDone-cases input.safe_dry_run input.nonce_override idx s.batch.transactions new h) [
      | inl dry ↦
          let e = ap (λ n. n ++ later) dry.1 ∙ quiet dry.0 in
          (subst (InOrder input.nonce_override idx (s ∷ rest)) (sym e) tt, (λ d. e), λ real. cc)
      | inr real ↦ (
        subst (λ n. InOrder input.nonce_override idx (s ∷ rest) (n ++ later)) (sym real.1.1)
            (refl, real.1.2, ordered),
        (λ d. cc),
        λ r. ap (λ n. length (n ++ later)) real.1.1,
      )
    ]

module _ {W : Type 0} (api : SafeApi W) (input : ProposePhaseInput) where
  pub IsQuiet-sim_and_log : (txs : List SafeTx) (n : ℕ) → IsQuiet (sim_and_log api input txs n)
  unfolding sim_and_log
  IsQuiet-sim_and_log txs n = by_owner input.safe_owner
    where
      by_owner :
          (owner : Option Text)
          → IsQuiet (elim owner as (λ _. Step W (Option Text)) [
            | none ↦ pure none
            | some o ↦ outside (api.simulate_safe_exec n txs) >>= λ answer. or_throw api answer
          ])
      by_owner none = Holds-pure (λ r new. new ≡ []) none refl
      by_owner (some o) =
          Holds-quiet (λ r new. new ≡ []) _ _ (IsQuiet-outside (api.simulate_safe_exec n txs))
            (λ answer. IsQuiet-or_throw api answer) (λ e. refl)

  attempted-OneDone :
      (idx : ℕ) (section : SplitSection) (sim_url : Option Text)
      → input.safe_dry_run ≡ false
      → (attempted : Option ProposeResult) (new : List Proposal)
      → Tried (slot_nonce input.nonce_override idx) section.batch.transactions (ok attempted) new
      → Holds
          (λ b later. OneDone input idx section b (new ++ later))
          (elim attempted as (λ _. Step W (Outcome × Bool)) [
            | some made ↦ pure (outcome section made.ui_url proposed sim_url, false)
            | none ↦ pure (outcome section (txt "<failed>") skipped sim_url, true)
          ])
  attempted-OneDone idx section sim_url real none new h =
      Holds-pure (λ b later. OneDone input idx section b (new ++ later)) _ (append-nil new ∙ h)
  attempted-OneDone idx section sim_url real (some r) new h =
      Holds-pure (λ b later. OneDone input idx section b (new ++ later)) _
        (rw real (r.nonce, append-nil new ∙ h.0, h.1))

  propose_section-OneDone :
      (idx : ℕ) (section : SplitSection)
      → Holds (OneDone input idx section) (propose_section api input idx section)
  unfolding propose_section
  propose_section-OneDone idx section =
      let Q = OneDone input idx section in
      let txs = section.batch.transactions in
      let nonce = slot_nonce input.nonce_override idx in
      Holds-quiet Q _ _ (propose_batch-IsQuiet api txs nonce)
        (λ result.
          Holds-quiet Q _ _ (IsQuiet-sim_and_log txs result.nonce)
            (λ sim_url.
              Holds-if Q input.safe_dry_run _ _ (λ dry. Holds-pure Q _ (rw dry refl))
                (λ real.
                  Holds-quiet Q _ _ (IsQuiet-outside api.prompt_to_continue)
                    (λ go.
                      Holds-if Q go _ _
                        (λ agreed.
                          Holds-bind (Tried nonce txs) Q _ _ (attempt-Tried api txs nonce)
                            (attempted-OneDone idx section sim_url real) (λ e new h. h))
                        (λ declined. Holds-pure Q _ refl))
                    (λ e. refl)))
            (λ e. refl))
        (λ e. refl)

  -- Once aborted, the loop proposes nothing, and stays so.
  propose_each-aborted :
      (idx : ℕ) (sections : List SplitSection)
      → Holds (AllAborted) (propose_each api input true idx sections)
  unfolding propose_each
  propose_each-aborted idx [] = Holds-pure AllAborted _ (refl, refl)
  propose_each-aborted idx (s ∷ ss) =
      Holds-bind AllAborted AllAborted _ _ (propose_each-aborted idx ss)
        (λ rest new h.
          Holds-pure (λ b later. AllAborted b (new ++ later)) _ (append-nil new ∙ h.0, h.1))
        (λ e new h. h)

  -- The loop after a section that is not empty.
  rest-Proposed :
      (idx : ℕ) (s : SplitSection) (ss : List SplitSection) (o : Outcome) (aborted : Bool)
      (new : List Proposal)
      → Holds
          (Proposed input (suc idx) (keep has_txs ss))
          (propose_each api input false (suc idx) ss)
      → OneDone input idx s (ok (o, aborted)) new
      → Holds
          (λ b later. Proposed input idx (s ∷ keep has_txs ss) b (new ++ later))
          (propose_each api input aborted (suc idx) ss >>= λ rest. pure (o ∷ rest.0, rest.1))
  rest-Proposed idx s ss o true new again h =
      let Q = λ (b : Result Text (List Outcome × Bool)) (later : List Proposal).
        Proposed input idx (s ∷ keep has_txs ss) b (new ++ later) in
      Holds-bind AllAborted Q _ _ (propose_each-aborted (suc idx) ss)
        (λ rest made k.
          Holds-pure (λ b later. Q b (made ++ later)) _
            (nothing-Proposed input idx (s ∷ keep has_txs ss) (ok (o ∷ rest.0, rest.1))
              (new ++ (made ++ [])) (ap (λ n. n ++ (made ++ [])) h ∙ append-nil made ∙ k.0) k.1))
        (λ e made k.
          nothing-Proposed input idx (s ∷ keep has_txs ss) (err e) (new ++ made)
            (ap (λ n. n ++ made) h ∙ k) tt)
  rest-Proposed idx s ss o false new again h =
      let Q = λ (b : Result Text (List Outcome × Bool)) (later : List Proposal).
        Proposed input idx (s ∷ keep has_txs ss) b (new ++ later) in
      Holds-bind (Proposed input (suc idx) (keep has_txs ss)) Q _ _ again
        (λ rest made k.
          Holds-pure (λ b later. Q b (made ++ later)) _
            (subst
              (λ n. Proposed input idx (s ∷ keep has_txs ss) (ok (o ∷ rest.0, rest.1)) (new ++ n))
              (sym (append-nil made))
              (let x = extend-Proposed input idx s (keep has_txs ss) o new made h k.0 k.1 in
                (x.0, x.1, λ finished real. x.2 real ∙ ap suc (k.2 finished real)))))
        (λ e made k.
          let x = extend-Proposed input idx s (keep has_txs ss) o new made h k.0 k.1 in
          (x.0, x.1, tt))

  pub propose_each-InOrder :
      (idx : ℕ) (sections : List SplitSection)
      → Holds
          (Proposed input idx (keep has_txs sections))
          (propose_each api input false idx sections)
  unfolding propose_each
  propose_each-InOrder idx [] =
      Holds-pure (Proposed input idx []) _ (tt, (λ dry. refl), λ finished real. refl)
  propose_each-InOrder idx (s ∷ ss) =
      let Q = Proposed input idx (keep has_txs (s ∷ ss)) in
      let kept = λ (b : Bool). if b then s ∷ keep has_txs ss else keep has_txs ss in
      Holds-if Q (has_txs s) _ _
        (λ full.
          Holds-weaken (Proposed input idx (s ∷ keep has_txs ss)) Q
            (propose_section api input idx s >>= λ done.
              propose_each api input done.1 (suc idx) ss >>= λ rest. pure (done.0 ∷ rest.0, rest.1))
            (Holds-bind (OneDone input idx s) (Proposed input idx (s ∷ keep has_txs ss)) _ _
              (propose_section-OneDone idx s)
              (λ done new h.
                rest-Proposed idx s ss done.0 done.1 new (propose_each-InOrder (suc idx) ss) h)
              (λ e new h. nothing-Proposed input idx (s ∷ keep has_txs ss) (err e) new h tt))
            (λ r new h. subst (λ xs. Proposed input idx xs r new) (sym (ap kept full)) h))
        (λ hollow.
          Holds-weaken (Proposed input idx (keep has_txs ss)) Q
            (propose_each api input false idx ss >>= λ rest.
              pure (outcome s (txt "<empty>") empty none ∷ rest.0, rest.1))
            (Holds-bind (Proposed input idx (keep has_txs ss))
              (Proposed input idx (keep has_txs ss)) _ _ (propose_each-InOrder idx ss)
              (λ rest new h.
                Holds-pure (λ b later. Proposed input idx (keep has_txs ss) b (new ++ later)) _
                  (subst
                    (λ n.
                      Proposed input idx (keep has_txs ss)
                        (ok (outcome s (txt "<empty>") empty none ∷ rest.0, rest.1)) n)
                    (sym (append-nil new)) h))
              (λ e new h. h))
            (λ r new h. subst (λ xs. Proposed input idx xs r new) (sym (ap kept hollow)) h))
