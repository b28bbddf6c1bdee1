-- ===== src/ArcPrices/Tests.antt =====
-- The price sync's theorems at concrete inputs.
use nest_protocol.Base.{
  ℕ, suc, if◌then◌else◌, ◌+◌, ◌*◌, ◌≤◌, ◌<◌, ◌≡◌, ◌≢◌, ◌↔◌, refl, true, false, none, some, [], ◌∷◌,
  ◌==◌, length, All,
}
use nest_protocol.Base.Text.{Text, txt, text_eq, member, to_lower, lower_unit, starts_with}
use nest_protocol.Environment.{require_env, require_value}
use nest_protocol.Split.Selectors.{hex_digit}
use nest_protocol.Base.Outcome.{ok, err}
use nest_protocol.Propose.Step.{State, throw, pure, ◌>>=◌, plain, outside, attempt}
use nest_protocol.ArcPrices.Rate.{
  AccountantState, IsAllowed, ready_at, lower_bound, upper_bound, check_rate_update,
  check_rate_update-due_iff,
}
use nest_protocol.ArcPrices.Code.{
  Artifact, assert_spoke_code, mask, from_hex, strip_0x, blank_range, fill_all, same_bytes,
}
use nest_protocol.ArcPrices.Code.Masked.{bytes, Fits, AreSameOutside, assert_spoke_code-accepts_iff}
use nest_protocol.ArcPrices.Api.{
  ChainApi, Block, Sync, Outside, ask, change, set_report, get_report, save,
}
use nest_protocol.ArcPrices.Checks.{
  symbols, same, or_fail, hub_of, check_config, only_vault, find_symbol, update_symbol, is_expected,
  check_sync_args,
}
use nest_protocol.ArcPrices.Run.{
  mark, for_each, run_sync, check_bindings, owned, idle, preflight, transact, send, sync_prices,
  sync_main,
}
use nest_protocol.ArcPrices.Watched.{Watched, watched_outside}
use nest_protocol.ArcPrices.Due.{IsDue}
use nest_protocol.ArcPrices.Properties.{
  sync_main-AreDue, sync_main-simulates, run_sync-preflight_first,
}

abbrev live : AccountantState
live = record {
  exchange_rate = 1000000;
  allowed_exchange_rate_change_upper = 1005000;
  allowed_exchange_rate_change_lower = 995000;
  last_update_timestamp = 100;
  minimum_update_delay_in_seconds = 3600;
  is_paused = false;
}

check_rate_update-due_iff_example :
    ((check_rate_update live 1001000 4000 ≡ ok true) ↔ (
      IsAllowed live 1001000
      × (live.exchange_rate ≢ 1001000)
      × (100 + 3600 ≤ 4000)
      × (1000000 * 995000 < (1001000 + 1) * 1000000)
      × (1001000 * 1000000 ≤ 1000000 * 1005000)))
    × ((check_rate_update live 1001000 4000 ≡ ok false)
        ↔ (IsAllowed live 1001000 × (live.exchange_rate ≡ 1001000)))
check_rate_update-due_iff_example = check_rate_update-due_iff live 1001000 4000

-- A code with one immutable byte, the second.
abbrev sample_artifact : Artifact
sample_artifact = record {
  object = txt "0x600001";
  immutable_references = record { start = 1; length = 1 } ∷ [];
}

assert_spoke_code-accepts_iff_example :
    (assert_spoke_code (txt "0x60aa01") sample_artifact ≡ ok tt) ↔ (
      ((length sample_artifact.object == 0) ≡ false)
      × (text_eq (txt "0x60aa01") (txt "0x") ≡ false)
      × Fits (record { start = 1; length = 1 } ∷ []) (bytes (txt "0x60aa01"))
      × AreSameOutside
          (record { start = 1; length = 1 } ∷ [])
          (bytes (txt "0x60aa01"))
          (bytes (txt "0x600001")))
assert_spoke_code-accepts_iff_example =
    assert_spoke_code-accepts_iff (txt "0x60aa01") sample_artifact

-- Two chains with one vault for each symbol, its own share and accountant; an update changes the rate
-- of every accountant.
abbrev view_of : Text → Text → Text
view_of address view =
    if text_eq view (txt "owner")
    then txt "0x02"
    else if text_eq view (txt "base")
    then txt "0x03"
    else address

abbrev client : ℕ → ChainApi ℕ
client chain_id = record {
  get_chain_id = λ w. (some chain_id, w);
  get_block = λ w. (some (record { number = 5; timestamp = 4000 }), w);
  read_text = λ address view at w. (some (view_of address view), w);
  read_number =
      λ address view at w. (some (if text_eq view (txt "baseDecimals") then 6 else 1001000), w);
  read_state =
      λ address at w. (some (if w == 0 then live else record live { exchange_rate = 1001000 }), w);
  get_implementation_slot = λ address at w. (some (txt "0x01"), w);
  get_code = λ address at w. (some (txt "0x60aa01"), w);
  get_transaction_count = λ tag w. (some w, w);
  simulate_update = λ address rate at w. (some tt, w);
  write_update = λ address rate n w. (some (txt "0xhash"), suc w);
  wait_for_receipt = λ hash w. (some (record { success = true; block_number = 6 }), w);
}

abbrev sample_out : Outside ℕ
sample_out = record {
  arc = client 5042;
  hub = client 98866;
  env = λ name. some (txt "0x01");
  account_address = λ key. some (txt "0x02");
  artifact = sample_artifact;
  configs = λ symbol. some (record {
    accountant_type = txt "NestHubAccountant";
    hub_chain_id = none;
    base_asset_symbol = txt "USDC";
  });
  outputs = λ symbol. some (record {
    deploy_chain_id = 5042;
    vaults = symbol ∷ [];
    accountant = symbol;
    share = symbol;
  });
  usdc = λ chain_id. some (txt "0x03");
  write_report = λ report w. (some tt, w);
}

-- The same with no configuration of a vault.
abbrev bad_out : Outside ℕ
bad_out = record sample_out { configs = λ symbol. none }

abbrev start : State (Sync (Watched ℕ))
start = record {
  world = record {
    net = record { net = 0; reads = []; sent = [] };
    report = record { entries = []; complete = false };
    saved = none;
  };
  posted = [];
}

sync_main-AreDue_example :
    All IsDue
      (sync_main (watched_outside sample_out) (txt "--broadcast" ∷ []) start).1.world.net.sent
sync_main-AreDue_example = sync_main-AreDue sample_out (txt "--broadcast" ∷ []) start tt

sync_main-simulates_example :
    (sync_main (watched_outside sample_out) [] start).1.world.net.sent ≡ []
unfolding member
sync_main-simulates_example = sync_main-simulates sample_out [] start refl

abbrev block : Block
block = record { number = 5; timestamp = 4000 }

fails :
    (for_each symbols (preflight (watched_outside bad_out) (txt "0x02") block block) start).0
    ≡ err (txt "vault config not found")
unfolding for_each preflight or_fail plain throw ◌>>=◌
fails = refl

run_sync-preflight_first_example :
    let t =
      run_sync symbols
        (preflight (watched_outside bad_out) (txt "0x02") block block)
        (send (watched_outside bad_out) (txt "0x02"))
        true
        start in
    (t.0 ≡ err (txt "vault config not found")) × (t.1.world.net.sent ≡ [])
run_sync-preflight_first_example =
    run_sync-preflight_first bad_out (txt "0x02") block block true start
      (txt "vault config not found") fails

-- The first update is sent; the others find the rate already set.
one_sent :
    length (sync_main (watched_outside sample_out) (txt "--broadcast" ∷ []) start).1.world.net.sent
    ≡ 1
unfolding sync_main sync_prices check_sync_args member text_eq require_env require_value or_fail
    plain throw pure ◌>>=◌ ask outside change set_report get_report save mark idle owned run_sync
    for_each preflight send transact check_bindings check_config hub_of only_vault same to_lower
    lower_unit starts_with assert_spoke_code mask from_hex strip_0x hex_digit blank_range fill_all
    same_bytes check_rate_update lower_bound upper_bound ready_at find_symbol update_symbol
    is_expected attempt
one_sent = refl
