-- ===== src/ArcPrices/Watched.antt =====
-- The outside of tools/syncArcPrices.ts, watched: what the run has read of the rates, the blocks and
-- the accountants' states so far, and the calls of writeContract that it has made.
use nest_protocol.Base.{ℕ, List, [], ◌∷◌, ◌++◌, Option, none, some}
use nest_protocol.Base.Text.{Text}
use nest_protocol.ArcPrices.Rate.{AccountantState}
use nest_protocol.ArcPrices.Api.{ChainApi, Block, Outside}

-- A number that a view of a contract on the hub gave at a block or the latest; Arc's latest block;
-- and the state of an accountant on Arc at a block or the latest.
pub data Read : Type 0 where
  hub_number : Text → Text → Option ℕ → ℕ → Read
  arc_block : Block → Read
  arc_state : Text → Option ℕ → AccountantState → Read

-- A call of writeContract: the arguments it was given, and what had been read when it was made, the
-- newest first.
pub record Sent : Type 0 where
  pub accountant : Text
  pub rate : ℕ
  pub nonce : ℕ
  pub reads : List Read

pub record Watched (W : Type 0) : Type 0 where
  pub net : W
  pub reads : List Read
  pub sent : List Sent

abbrev pub noted : {A : Type 0} → (A → Read) → Option A → List Read → List Read
noted read none reads = reads
noted read (some a) reads = read a ∷ reads

module _ {W : Type 0} where
  -- A call that is passed on.
  abbrev pub passed : {A : Type 0} → (W → A × W) → Watched W → A × Watched W
  passed call w = ((call w.net).0, record w { net = (call w.net).1 })

  -- The same, and its answer is noted.
  abbrev pub watched :
      {A : Type 0} → (A → Read) → (W → Option A × W) → Watched W → Option A × Watched W
  watched read call w =
      ((call w.net).0, record w { net = (call w.net).1; reads = noted read (call w.net).0 w.reads })

  -- A call of writeContract, which is logged whether it throws or not.
  abbrev pub logged :
      (Text → ℕ → ℕ → W → Option Text × W) → Text → ℕ → ℕ → Watched W → Option Text × Watched W
  logged write accountant rate nonce w = (
    (write accountant rate nonce w.net).0,
    record {
      net = (write accountant rate nonce w.net).1;
      reads = w.reads;
      sent =
          w.sent
          ++ record { accountant = accountant; rate = rate; nonce = nonce; reads = w.reads } ∷ [];
    },
  )

  abbrev pub watched_hub : ChainApi W → ChainApi (Watched W)
  watched_hub api = record {
    get_chain_id = passed api.get_chain_id;
    get_block = passed api.get_block;
    read_text = λ address view at. passed (api.read_text address view at);
    read_number =
        λ address view at. watched (hub_number address view at) (api.read_number address view at);
    read_state = λ address at. passed (api.read_state address at);
    get_implementation_slot = λ address at. passed (api.get_implementation_slot address at);
    get_code = λ address at. passed (api.get_code address at);
    get_transaction_count = λ tag. passed (api.get_transaction_count tag);
    simulate_update = λ address rate at. passed (api.simulate_update address rate at);
    write_update = logged api.write_update;
    wait_for_receipt = λ hash. passed (api.wait_for_receipt hash);
  }

  abbrev pub watched_arc : ChainApi W → ChainApi (Watched W)
  watched_arc api = record {
    get_chain_id = passed api.get_chain_id;
    get_block = watched arc_block api.get_block;
    read_text = λ address view at. passed (api.read_text address view at);
    read_number = λ address view at. passed (api.read_number address view at);
    read_state = λ address at. watched (arc_state address at) (api.read_state address at);
    get_implementation_slot = λ address at. passed (api.get_implementation_slot address at);
    get_code = λ address at. passed (api.get_code address at);
    get_transaction_count = λ tag. passed (api.get_transaction_count tag);
    simulate_update = λ address rate at. passed (api.simulate_update address rate at);
    write_update = logged api.write_update;
    wait_for_receipt = λ hash. passed (api.wait_for_receipt hash);
  }

  abbrev pub watched_outside : Outside W → Outside (Watched W)
  watched_outside out = record {
    arc = watched_arc out.arc;
    hub = watched_hub out.hub;
    env = out.env;
    account_address = out.account_address;
    artifact = out.artifact;
    configs = out.configs;
    outputs = out.outputs;
    usdc = out.usdc;
    write_report = λ report. passed (out.write_report report);
  }
