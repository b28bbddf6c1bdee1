-- ===== src/Deploy/Deferred.antt =====
-- A deployment with --record-only, and the queue that proposes what it has recorded.
use nest_protocol.Base.{Bool, Option, none, some, List}
use nest_protocol.Base.Text.{Text}
use nest_protocol.Base.Outcome as Outcome
use nest_protocol.Split.Types.{SplitResult}
use nest_protocol.Propose.Step.{Step, ◌>>=◌, outside}
use nest_protocol.Queue.Args.{QueueArgs}
use nest_protocol.Environment.{CommonConfig, is_authorized_proposer, get_safe_owner}
use nest_protocol.Propose.Phase.{ProposePhaseInput, Outcome, run_propose_phase}
use nest_protocol.Queue.Run as QueueRun
use nest_protocol.Deploy.World.{World}
use nest_protocol.Deploy.Main.{Outside, Ready, deploy_input}

-- The queue's arguments for what a deployment has recorded.
abbrev pub later_args : Ready → QueueArgs
later_args r = record {
  vault = r.args.vault;
  chain_id = some r.args.chain_id;
  dry_run = r.args.dry_run;
  split_override = none;
  nonce = none;
}

-- The input with another owner of the Safe.
abbrev pub with_owner : Option Text → ProposePhaseInput → ProposePhaseInput
with_owner owner input = record input { safe_owner = owner }

module _ {W V : Type 0} (out : Outside W) (r : Ready) (queue : QueueRun.Outside V)
    (common : CommonConfig) (proposer : Text) where
  -- The propose phase of the deployment, with the Safe's owner asked for once more.
  abbrev pub later_phase : SplitResult → Step V (List Outcome × Bool)
  later_phase split =
      let owners = queue.owners r.args.chain_id r.common.multisig in
      outside (is_authorized_proposer owners proposer) >>= λ authorized.
      outside (get_safe_owner owners) >>= λ owner.
      run_propose_phase (queue.safe r.args.chain_id r.common.multisig)
        (with_owner owner (deploy_input r out.repo_root split))
