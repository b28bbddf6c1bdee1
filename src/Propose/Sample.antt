-- ===== src/Propose/Sample.antt =====
-- A Safe service and sections to run the propose phase on.
use nest_protocol.Base.{ℕ, zero, suc, Bool, true, false, none, some, List, [], ◌∷◌, ◌++◌}
use nest_protocol.Base.Text.{txt}
use nest_protocol.Split.Types.{SafeTx, number, Slot, slot_1a, slot_1b, slot_3, SplitSection}
use nest_protocol.Propose.Step.{SafeApi, State}
use nest_protocol.Propose.Phase.{ProposePhaseInput}

-- A service that accepts the first `w` proposals, whose queue of nonces starts at 40.
abbrev pub accepts : ℕ → Bool × ℕ
accepts zero = (false, 0)
accepts (suc w) = (true, w)

abbrev pub sample_api : SafeApi ℕ
sample_api = record {
  init = λ w. (true, w);
  get_next_nonce = λ w. (some 40, w);
  get_nonce = λ w. (some 40, w);
  transaction_hash = λ nonce txs w. (some (txt "0xhash"), w);
  propose_transaction = λ nonce txs hash w. accepts w;
  prompt_to_continue = λ w. (true, w);
  simulate_safe_exec = λ nonce txs w. (some none, w);
  ui_url_for_tx = λ hash. txt "https://safe/" ++ hash;
}

abbrev pub tx : SafeTx
tx = record { to = txt "0x01"; value = txt "0"; call_data = txt "0x79ba5097"; operation = txt "0" }

abbrev pub section : Slot → List SafeTx → SplitSection
section slot txs = record {
  slot = slot;
  file = txt "part.json";
  title = txt "Part";
  batch = record {
    chain_id = number 1;
    created_at = 1;
    meta_name = [];
    meta_description = [];
    transactions = txs;
    version = txt "1.0";
  };
}

abbrev pub sample_input : Bool → ProposePhaseInput
sample_input split_mode = record {
  repo_root = txt "/repo";
  chain_id = 1;
  vault = txt "nALPHA";
  chain_name = txt "ethereum";
  safe = txt "0x03";
  rpc_url = txt "http";
  signer_key = txt "0x04";
  eids_label = txt "none";
  has_upgrade = false;
  safe_owner = some (txt "0x02");
  sections = section slot_1a (tx ∷ []) ∷ section slot_1b [] ∷ section slot_3 (tx ∷ tx ∷ []) ∷ [];
  split_mode = split_mode;
  safe_dry_run = false;
  dry_run_tag = none;
  nonce_override = some 7;
}

abbrev pub start : ℕ → State ℕ
start accepted = record { world = accepted; posted = [] }
