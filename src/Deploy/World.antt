-- ===== src/Deploy/World.antt =====
-- The files that tools/deploy.ts reads and writes, beside the world of networks and processes.
use nest_protocol.Base.{ℕ, List, [], ◌∷◌, keep, not, if◌then◌else◌, Option, none, some}
use nest_protocol.Base.Text.{Text, text_eq}
use nest_protocol.Split.Types.{SafeBatch, Directory}
use nest_protocol.Propose.Step.{SafeApi, Step, outside}
use nest_protocol.Queue.Store.{QueueStore}

pub record VaultEntry : Type 0 where
  pub address : Option Text
  pub chains : Option (List ℕ)
  pub composer : Option Text

-- `VaultInputConfig`, with its absent `contracts` as one with nothing in it.
pub record VaultInputConfig : Type 0 where
  pub share : Option Text
  pub accountant : Option Text
  pub vaults : List VaultEntry

abbrev pub BatchFiles : Type 0
BatchFiles = List (Text × SafeBatch)

-- The files of one vault and chain, their JSON parsed: the batches in script/output/msig and in its
-- folder of the vault, the fresh deployment's addresses, the deployment's snapshot, the recorded
-- manifests, and the folder of the split.
pub record Files : Type 0 where
  pub flat : BatchFiles
  pub legacy : BatchFiles
  pub fresh : Option (List Text)
  pub snapshot : Option VaultInputConfig
  pub queue : QueueStore
  pub split_dir : Directory

pub record World (W : Type 0) : Type 0 where
  pub files : Files
  pub net : W

unfoldable pub find_batch : Text → BatchFiles → Option SafeBatch
find_batch name [] = none
find_batch name ((n, b) ∷ fs) =
    let rest = find_batch name fs in if text_eq n name then some b else rest

-- `fs.rmSync`, where there is such a file
unfoldable pub remove_batch : Text → BatchFiles → BatchFiles
remove_batch name fs = keep (λ f. not (text_eq f.0 name)) fs

-- A file that is written replaces the one of its name.
unfoldable pub put_batch : Text → SafeBatch → BatchFiles → BatchFiles
put_batch name b fs = (name, b) ∷ remove_batch name fs

unfoldable pub put_batches : BatchFiles → BatchFiles → BatchFiles
put_batches [] fs = fs
put_batches ((n, b) ∷ bs) fs = put_batches bs (put_batch n b fs)

module _ {W : Type 0} where
  -- A call of the outside in a world with files.
  abbrev pub on_net : {A : Type 0} → (W → A × W) → World W → A × World W
  on_net call w = ((call w.net).0, record w { net = (call w.net).1 })

  abbrev pub lift_safe : SafeApi W → SafeApi (World W)
  lift_safe api = record {
    init = on_net api.init;
    get_next_nonce = on_net api.get_next_nonce;
    get_nonce = on_net api.get_nonce;
    transaction_hash = λ nonce txs. on_net (api.transaction_hash nonce txs);
    propose_transaction = λ nonce txs hash. on_net (api.propose_transaction nonce txs hash);
    prompt_to_continue = on_net api.prompt_to_continue;
    simulate_safe_exec = λ nonce txs. on_net (api.simulate_safe_exec nonce txs);
    ui_url_for_tx = api.ui_url_for_tx;
  }

  -- Reading and changing the files.
  unfoldable pub get_files : Step (World W) Files
  get_files = outside (λ w. (w.files, w))

  unfoldable pub set_files : (Files → Files) → Step (World W) (Unit {0})
  set_files change = outside (λ w. (tt, record w { files = change w.files }))
