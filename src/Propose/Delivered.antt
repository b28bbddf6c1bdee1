-- ===== src/Propose/Delivered.antt =====
-- A propose phase as its caller sees it, in either mode: which calls have been proposed.
use mathlib.Core.List.{append-nil, append_assoc}
use nest_protocol.Base.{
  ℕ, zero, suc, ◌≡◌, refl, ap, ◌∙◌, sym, subst, Bool, true, false, Option, List, [], ◌∷◌, ◌++◌,
  keep, length, drop, if◌then◌else◌, Bool-cases, inl, inr, arith, ◌==◌,
}
use nest_protocol.Base.Text.{Text}
use nest_protocol.Base.Outcome.{Result, ok, err}
use nest_protocol.Split.Types.{all_txs, SafeTx, SplitSection}
use nest_protocol.Split.Batches.{has_txs}
use nest_protocol.Split.Batches.Sections.{all_txs-keep}
use nest_protocol.Propose.Step.{SafeApi, State, Proposal}
use nest_protocol.Propose.Phase.{ProposePhaseInput, Outcome, run_propose_phase}
use nest_protocol.Propose.Posts.{one, Asked}
use nest_protocol.Propose.Loop.{InOrder}
use nest_protocol.Propose.Properties.{
  split_mode-InOrder, merged_mode-Once, merged_mode_hollow, Once,
}

-- The calls of some proposals, in their order.
abbrev pub calls : List Proposal → List SafeTx
calls [] = []
calls (p ∷ ps) = p.txs ++ calls ps

pub calls-append : (ps qs : List Proposal) → calls (ps ++ qs) ≡ calls ps ++ calls qs
calls-append [] qs = refl
calls-append (p ∷ ps) qs =
    ap (λ xs. p.txs ++ xs) (calls-append ps qs) ∙ sym (append_assoc p.txs (calls ps) (calls qs))

-- The proposals carry the first of the calls that were to be proposed.
abbrev pub IsPart : List SafeTx → List Proposal → Type 0
IsPart txs new = (rest : List SafeTx) × (calls new ++ rest ≡ txs)

-- What a phase has proposed when it ends in `r`: a first part of all calls; none if it is a dry
-- run; else all of them, unless it has thrown or was aborted.
pub record Delivered {A : Type 0} (dry : Bool) (txs : List SafeTx) (r : Result Text (A × Bool))
    (new : List Proposal) : Type 0 where
  pub part : IsPart txs new
  pub quiet : dry ≡ true → new ≡ []
  pub complete : (a : A) → r ≡ ok (a, false) → dry ≡ false → calls new ≡ txs

InOrder-calls :
    (base : Option ℕ) (idx : ℕ) (ss : List SplitSection) (ps : List Proposal)
    → InOrder base idx ss ps
    → calls ps ++ all_txs (drop (length ps) ss) ≡ all_txs ss
InOrder-calls base idx ss [] h = refl
InOrder-calls base idx [] (p ∷ ps) h = cc
InOrder-calls base idx (s ∷ ss) (p ∷ ps) h =
    append_assoc p.txs (calls ps) (all_txs (drop (length ps) ss))
    ∙ ap (λ xs. p.txs ++ xs) (InOrder-calls base (suc idx) ss ps h.2)
    ∙ ap (λ xs. xs ++ all_txs ss) h.0

drop-length : (ss : List SplitSection) (n : ℕ) → n ≡ length ss → drop n ss ≡ []
drop-length [] zero h = refl
drop-length [] (suc n) h = refl
drop-length (s ∷ ss) zero h = ground arith
drop-length (s ∷ ss) (suc n) h = drop-length ss n (omega arith)

no_sections : (ss : List SplitSection) → (length ss == 0) ≡ true → all_txs ss ≡ []
no_sections [] h = refl
no_sections (s ∷ ss) h = ground arith

pub nothing-Delivered :
    {A : Type 0} (dry : Bool) (txs : List SafeTx) (r : Result Text (A × Bool)) (new : List Proposal)
    → new ≡ []
    → ((a : A) → r ≡ ok (a, false) → dry ≡ false → [] ≡ txs)
    → Delivered dry txs r new
nothing-Delivered dry txs r new h never = record {
  part = (txs, ap (λ n. calls n ++ txs) h);
  quiet = λ _. h;
  complete = λ a returned real. ap calls h ∙ never a returned real;
}

one-Delivered :
    {A : Type 0} (txs : List SafeTx) (r : Result Text (A × Bool)) (new : List Proposal) (n : ℕ)
    → new ≡ one n txs
    → Delivered false txs r new
one-Delivered txs r new n h = record {
  part = ([], append-nil (calls new) ∙ ap calls h ∙ append-nil txs);
  quiet = λ dry. cc;
  complete = λ a returned real. ap calls h ∙ append-nil txs;
}

passed-Delivered :
    {A : Type 0} (dry : Bool) (base : Option ℕ) (txs : List SafeTx) (a : A) (new : List Proposal)
    → (if dry then new ≡ [] else ((n : ℕ) × (new ≡ one n txs) × Asked base n))
    → Delivered dry txs (ok (a, false)) new
passed-Delivered true base txs a new h =
    nothing-Delivered true txs (ok (a, false)) new h (λ b returned real. cc)
passed-Delivered false base txs a new h = one-Delivered txs (ok (a, false)) new h.0 h.1

Once-Delivered :
    {A : Type 0} (input : ProposePhaseInput) (txs : List SafeTx) (r : Result Text (A × Bool))
    (new : List Proposal)
    → Once input txs r new
    → Delivered input.safe_dry_run txs r new
Once-Delivered input txs (err e) new h =
    nothing-Delivered input.safe_dry_run txs (err e) new h (λ a returned real. cc)
Once-Delivered input txs (ok (a, true)) new h =
    nothing-Delivered input.safe_dry_run txs (ok (a, true)) new h (λ b returned real. cc)
Once-Delivered input txs (ok (a, false)) new h =
    passed-Delivered input.safe_dry_run input.nonce_override txs a new h

module _ {W : Type 0} (api : SafeApi W) (input : ProposePhaseInput) (s : State W) where
  abbrev phase : Result Text (List Outcome × Bool) × State W
  phase = run_propose_phase api input s

  abbrev IsDelivered : Type 0
  IsDelivered =
      (new : List Proposal) × (phase.1.posted ≡ s.posted ++ new)
      × Delivered input.safe_dry_run (all_txs input.sections) phase.0 new

  split-Delivered : input.split_mode ≡ true → IsDelivered
  split-Delivered split =
      let (new, posted, made) = split_mode-InOrder api input s split in
      let ss = keep has_txs input.sections in
      let all = all_txs-keep input.sections in
      let done = InOrder-calls input.nonce_override 0 ss new made.0 in
      (
        new,
        posted,
        record {
          part = (all_txs (drop (length new) ss), done ∙ all);
          quiet = made.1;
          complete = λ a returned real.
              sym (append-nil (calls new))
              ∙ ap (λ xs. calls new ++ all_txs xs)
                  (sym (
                    drop-length ss (length new) (
                      subst
                        (λ (x : Result Text (List Outcome × Bool)). elim x as (λ _. Type 0) [
                          | err e ↦ Unit
                          | ok (os, aborted) ↦
                              aborted ≡ false → input.safe_dry_run ≡ false → length new ≡ length ss
                        ])
                        returned made.2 refl real)))
              ∙ done
              ∙ all;
        },
      )

  hollow-Delivered :
      input.split_mode ≡ false → (length (keep has_txs input.sections) == 0) ≡ true → IsDelivered
  hollow-Delivered merged hollow =
      let (new, posted, none_made) = merged_mode_hollow api input s merged hollow in
      let nothing =
        sym (all_txs-keep input.sections) ∙ no_sections (keep has_txs input.sections) hollow in
      (
        new,
        posted,
        record {
          part = (all_txs input.sections, ap (λ n. calls n ++ all_txs input.sections) none_made);
          quiet = λ _. none_made;
          complete = λ a returned real. ap calls none_made ∙ sym nothing;
        },
      )

  full-Delivered :
      input.split_mode ≡ false → (length (keep has_txs input.sections) == 0) ≡ false → IsDelivered
  full-Delivered merged full =
      let (new, posted, once) = merged_mode-Once api input s merged full in
      (
        new,
        posted,
        subst (λ txs. Delivered input.safe_dry_run txs phase.0 new) (all_txs-keep input.sections)
            (Once-Delivered input (all_txs (keep has_txs input.sections)) phase.0 new once),
      )

  -- In both modes, the calls that a phase has proposed when it ends are a first part of all the
  -- sections' calls, in their order. They are none in a dry run; in any other, all of them if the
  -- phase ends without an error or an abort.
  pub run_propose_phase-Delivered :
      (new : List Proposal) × ((run_propose_phase api input s).1.posted ≡ s.posted ++ new)
      × Delivered input.safe_dry_run (all_txs input.sections) (run_propose_phase api input s).0 new
  run_propose_phase-Delivered = elim (Bool-cases input.split_mode) [
    | inl split ↦ split-Delivered split
    | inr merged ↦ elim (Bool-cases (length (keep has_txs input.sections) == 0)) [
      | inl hollow ↦ hollow-Delivered merged hollow
      | inr full ↦ full-Delivered merged full
    ]
  ]
