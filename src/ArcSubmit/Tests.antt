-- ===== src/ArcSubmit/Tests.antt =====
-- `simulateAndSubmit` on a transaction that the service accepts.
use nest_protocol.Base.{ℕ, suc, ◌++◌, true, false, none, some}
use nest_protocol.Base.Text.{txt}
use nest_protocol.ArcSubmit.{
  Journal, SubmitApi, shared_simulation, simulate_and_submit, Story, begin,
  simulate_and_submit-Story,
}

abbrev prepared : Journal
prepared = record { prepared_hash = txt "0xAB"; simulation = none; proposed = false }

abbrev deps : SubmitApi ℕ
deps = record {
  simulate = λ w. (some (shared_simulation ++ txt "1"), suc w);
  submit = λ w. (some (txt "0xab"), suc w);
  save = λ j w. (true, suc w);
}

simulate_and_submit-Story_example :
    let t = simulate_and_submit deps false (begin 0 prepared) in
    Story false prepared t.0 t.1.world.journal t.1.world.events
simulate_and_submit-Story_example = simulate_and_submit-Story deps false 0 prepared
