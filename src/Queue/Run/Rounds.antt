-- ===== src/Queue/Run/Rounds.antt =====
-- What a run of the queue has proposed when it ends, chain by chain.
use mathlib.Core.List.{append-nil}
use nest_protocol.Base.{
  ℕ, ◌≡◌, refl, ap, ◌∙◌, sym, subst, Bool, true, false, ◌||◌, Option, List, [], ◌∷◌, ◌++◌,
  if◌then◌else◌, arith,
}
use nest_protocol.Base.Text.{Text}
use nest_protocol.Base.Outcome.{Result, ok, err}
use nest_protocol.Split.Types.{all_txs, SafeTx}
use nest_protocol.Environment.{
  load_common, require_env, private_key_from_env, is_authorized_proposer, get_safe_owner,
}
use nest_protocol.Propose.Step.{State, Proposal, pure, ◌>>=◌, plain}
use nest_protocol.Propose.Phase.{Outcome}
use nest_protocol.Propose.Posts.{
  Holds, Holds-bind, Holds-quiet, Holds-pure, IsQuiet-outside, IsQuiet-plain, plain-bind,
}
use nest_protocol.Propose.Delivered.{
  calls, calls-append, IsPart, Delivered, nothing-Delivered, run_propose_phase-Delivered,
}
use nest_protocol.Queue.Store.{QueueManifest, QueueStore}
use nest_protocol.Queue.Args.{QueueArgs, parse_args}
use nest_protocol.Queue.Run.{
  Outside, queue_input, read_manifests, check_manifests, propose_one, propose_chains, queue_main,
}

-- All calls of some manifests.
abbrev pub all_calls : List QueueManifest → List SafeTx
all_calls [] = []
all_calls (m ∷ ms) = all_txs m.sections ++ all_calls ms

-- The proposals are made chain by chain, of each chain a first part of its calls.
abbrev pub Rounds : List QueueManifest → List Proposal → Type 0
Rounds [] new = new ≡ []
Rounds (m ∷ ms) new =
    (mine : List Proposal) × (later : List Proposal) × (new ≡ mine ++ later)
    × IsPart (all_txs m.sections) mine
    × Rounds ms later

Rounds-nil : (ms : List QueueManifest) → Rounds ms []
Rounds-nil [] = refl
Rounds-nil (m ∷ ms) = ([], [], refl, (all_txs m.sections, refl), Rounds-nil ms)

-- What the loop over `ms` has proposed when it ends in `r`.
pub record ChainsDone (dry any_before : Bool) (ms : List QueueManifest) (r : Result Text Bool)
    (new : List Proposal) : Type 0 where
  pub rounds : Rounds ms new
  pub quiet : dry ≡ true → new ≡ []
  pub complete :
      (any_aborted : Bool)
      → r ≡ ok any_aborted
      → (any_before ≡ true → any_aborted ≡ true)
        × (any_aborted ≡ false → dry ≡ false → calls new ≡ all_calls ms)

module _ {W : Type 0} (out : Outside W) (dry : Bool) (split_override : Option Bool)
    (nonce : Option ℕ) where
  propose_one-Delivered :
      (m : QueueManifest)
      → Holds (Delivered dry (all_txs m.sections)) (propose_one out dry split_override nonce m)
  unfolding propose_one queue_input
  propose_one-Delivered m =
      let Q = Delivered {A = List Outcome} dry (all_txs m.sections) in
      let fails : (e : Text) → Q (err e) [] =
        λ e. nothing-Delivered dry (all_txs m.sections) (err e) [] refl (λ a returned real. cc) in
      Holds-quiet Q _ _ (IsQuiet-plain (load_common out.common_files m.chain_id))
        (λ common.
          Holds-quiet Q _ _ (IsQuiet-plain (require_env out.env common.rpc))
            (λ rpc_url.
              Holds-quiet Q _ _ (IsQuiet-plain (private_key_from_env out.env))
                (λ key.
                  Holds-quiet Q _ _ (IsQuiet-plain _)
                    (λ proposer.
                      Holds-quiet Q _ _
                        (IsQuiet-outside
                          (is_authorized_proposer (out.owners m.chain_id m.safe) proposer))
                        (λ authorized.
                          Holds-quiet Q _ _
                            (IsQuiet-outside (get_safe_owner (out.owners m.chain_id m.safe)))
                            (λ safe_owner s.
                              run_propose_phase-Delivered (out.safe m.chain_id m.safe)
                                (queue_input out.repo_root m rpc_url key safe_owner dry
                                  split_override nonce)
                                s)
                            fails)
                        fails)
                    fails)
                fails)
            fails)
        fails

  -- One chain before the rest, which has ended in `r`.
  cons-ChainsDone :
      (m : QueueManifest) (ms : List QueueManifest) (any_before aborted : Bool) (os : List Outcome)
      (mine : List Proposal)
      → Delivered dry (all_txs m.sections) (ok (os, aborted)) mine
      → (r : Result Text Bool) (later : List Proposal)
      → ChainsDone dry (any_before || aborted) ms r later
      → ChainsDone dry any_before (m ∷ ms) r (mine ++ later)
  cons-ChainsDone m ms any_before aborted os mine one r later rest = record {
    rounds = (mine, later, refl, one.part, rest.rounds);
    quiet = λ d. ap (λ n. n ++ later) (one.quiet d) ∙ rest.quiet d;
    complete = λ any_aborted returned.
        let c = rest.complete any_aborted returned in
        (
          (λ before. c.0 (before-or any_before aborted before)),
          λ finished real.
              calls-append mine later
              ∙ ap (λ xs. xs ++ calls later)
                  (one.complete os
                    (ap (λ b. ok (os, b)) (not_aborted any_before aborted any_aborted c.0 finished))
                    real)
              ∙ ap (λ xs. all_txs m.sections ++ xs) (c.1 finished real),
        );
  }
    where
      before-or : (a b : Bool) → a ≡ true → (a || b) ≡ true
      before-or true b h = refl
      before-or false b h = cc

      not_aborted : (a b c : Bool) → ((a || b) ≡ true → c ≡ true) → c ≡ false → b ≡ false
      not_aborted true b c h f = let x = h refl in cc
      not_aborted false true c h f = let x = h refl in cc
      not_aborted false false c h f = refl

  propose_chains-ChainsDone :
      (any_before : Bool) (ms : List QueueManifest)
      → Holds
          (ChainsDone dry any_before ms)
          (propose_chains out dry split_override nonce any_before ms)
  unfolding propose_chains
  propose_chains-ChainsDone any_before [] =
      Holds-pure (ChainsDone dry any_before []) any_before (record {
        rounds = refl;
        quiet = λ d. refl;
        complete = λ b returned. ((λ before. cc), λ finished real. refl);
      })
  propose_chains-ChainsDone any_before (m ∷ ms) =
      Holds-bind (Delivered dry (all_txs m.sections)) (ChainsDone dry any_before (m ∷ ms)) _ _
        (propose_one-Delivered m)
        (λ done mine one s.
          let rest = propose_chains-ChainsDone (any_before || done.1) ms s in
          (rest.0, rest.1, cons-ChainsDone m ms any_before done.1 done.0 mine one _ rest.0 rest.2))
        (λ e mine one. record {
          rounds = (mine, [], sym (append-nil mine), one.part, Rounds-nil ms);
          quiet = one.quiet;
          complete = λ b returned. cc;
        })

exit_code : (b : Bool) → ◌≡◌ {A = Result Text ℕ} (ok (if b then 1 else 0)) (ok 0) → b ≡ false
exit_code true h = ground arith
exit_code false h = refl

-- What a run has proposed when it ends in `r`.
abbrev pub QueueDone : Bool → List QueueManifest → Result Text ℕ → List Proposal → Type 0
QueueDone dry ms r new =
    Rounds ms new × (dry ≡ true → new ≡ []) × (r ≡ ok 0 → dry ≡ false → calls new ≡ all_calls ms)

checked-QueueDone :
    {W : Type 0} (out : Outside W) (args : QueueArgs) (ms : List QueueManifest)
    → Holds (QueueDone args.dry_run ms) (
        plain (check_manifests ms) >>= λ _.
        propose_chains out args.dry_run args.split_override args.nonce false ms >>= λ any_aborted.
        pure (if any_aborted then 1 else 0))
checked-QueueDone out args ms =
    Holds-quiet (QueueDone args.dry_run ms) _ _ (IsQuiet-plain (check_manifests ms))
      (λ _.
        Holds-bind (ChainsDone args.dry_run false ms) (QueueDone args.dry_run ms) _ _
          (propose_chains-ChainsDone out args.dry_run args.split_override args.nonce false ms)
          (λ any new done.
            Holds-pure (λ b later. QueueDone args.dry_run ms b (new ++ later)) _
              (subst (λ n. QueueDone args.dry_run ms (ok (if any then 1 else 0)) n)
                (sym (append-nil new))
                (
                  done.rounds,
                  done.quiet,
                  λ zero_code real. (done.complete any refl).1 (exit_code any zero_code) real,
                )))
          (λ e new done. (done.rounds, done.quiet, λ zero_code. cc)))
      (λ e. (Rounds-nil ms, (λ d. refl), λ zero_code. cc))

-- A run of the queue on arguments that are read and manifests that are found has proposed, when it
-- ends, chain by chain in the order of the manifests, of each chain a first part of its recorded
-- calls in their order. In a dry run it has proposed nothing. If its exit code is 0 and it is no
-- dry run, it has proposed all calls of all the manifests.
pub queue_main-Rounds :
    {W : Type 0} (out : Outside W) (argv : List Text) (store : QueueStore) (s : State W)
    (args : QueueArgs) (ms : List QueueManifest)
    → parse_args argv ≡ ok args
    → read_manifests args store ≡ ok ms
    → let r = queue_main out argv store s in
      (new : List Proposal) × (r.1.posted ≡ s.posted ++ new)
      × (Rounds ms new
          × (args.dry_run ≡ true → new ≡ [])
          × (r.0 ≡ ok 0 → args.dry_run ≡ false → calls new ≡ all_calls ms))
unfolding queue_main
queue_main-Rounds out argv store s args ms parsed read =
    subst
      (λ (r : Result Text ℕ × State _).
        (new : List Proposal) × (r.1.posted ≡ s.posted ++ new) × QueueDone args.dry_run ms r.0 new)
      (sym (plain-bind _ args _ s parsed ∙ plain-bind _ ms _ s read))
      (checked-QueueDone out args ms s)
