-- ===== src/Morpho/BundleTests.antt =====
-- Bundles built at concrete inputs with the sample encoder, and the theorems on bundles there.
use nest_protocol.Base.{◌≤◌, ◌<◌, ◌≡◌, refl, ◌⊎◌, ◌↔◌, some, List, arith}
use nest_protocol.Base.Text.{text_eq, to_lower}
use nest_protocol.Base.Outcome.{ok, err}
use nest_protocol.Morpho.Types.{
  Call, instant, redeem, increase, decrease, mixed_route, already_at_target,
}
use nest_protocol.Morpho.Params.{derive_increase_params, derive_decrease_params, excess, smaller}
use nest_protocol.Morpho.Route.Laws.{quoted_route, quoted_route_iff}
use nest_protocol.Morpho.Abi.{
  general_call, core_call, nest_call, mk_call, encode_call_array, same_address,
}
use nest_protocol.Morpho.Bundle.{
  build_increase_bundle, build_decrease_bundle, increase_callback, decrease_callback,
  flash_loan_call, withdraw_collateral_call,
}
use nest_protocol.Morpho.Bundle.Flow.{run_bundle}
use nest_protocol.Morpho.Bundle.Legs.{IsCanonicalBook}
use nest_protocol.Morpho.Bundle.Properties.{increase_settles, decrease_settles}
use nest_protocol.Morpho.Sample.Codec.{
  sample_ethers, put_general, put_core, put_nest, put_calls, put_text,
}
use nest_protocol.Morpho.Sample.CodecLaws.{sample_ethers-IsAbi}
use nest_protocol.Morpho.Sample.Data.{
  sample_market, sample_book, sample_state, low_position, high_position, sample_extra, up_quote,
  down_quote, calls_of,
}

sample_book-IsCanonicalBook : IsCanonicalBook sample_ethers sample_book
sample_book-IsCanonicalBook = record {
  general_adapter = refl;
  nest_adapter = refl;
  vault = refl;
  initiator = refl;
  position_owner = refl;
  deposit_receiver = refl;
  redeem_receiver = refl;
}

-- What the builders call, opened for the runs below.
builders : Unit {0}
unfolding build_increase_bundle build_decrease_bundle increase_callback decrease_callback
    flash_loan_call withdraw_collateral_call general_call core_call nest_call mk_call
    encode_call_array same_address derive_increase_params derive_decrease_params excess smaller
    text_eq to_lower put_general put_core put_nest put_calls put_text
builders = tt

increased : List Call
increased =
    calls_of (build_increase_bundle sample_ethers sample_book sample_market up_quote sample_extra 0)

built_increase :
    build_increase_bundle sample_ethers sample_book sample_market up_quote sample_extra 0
    ≡ ok increased
unfolding builders increased
built_increase = refl

increase_settles_example :
    (up_quote.repay_assets_delta ≡ 0)
    × (up_quote.withdraw_collateral_delta ≡ 0)
    × (0 < up_quote.borrow_assets_delta)
    × (run_bundle sample_ethers sample_book sample_market.loan_token increased
          (record { in_general = 0; in_nest = 0 })
        ≡ some (record { in_general = 21; in_nest = 0 }))
unfolding text_eq
increase_settles_example =
    increase_settles sample_ethers sample_ethers-IsAbi sample_book sample_market
      sample_book-IsCanonicalBook (refl, (refl, (refl, (refl, tt)))) up_quote sample_extra 0
      increased refl built_increase

decreased : List Call
decreased = calls_of (
    build_decrease_bundle sample_ethers sample_book sample_market instant down_quote sample_extra 0)

built_decrease :
    build_decrease_bundle sample_ethers sample_book sample_market instant down_quote sample_extra 0
    ≡ ok decreased
unfolding builders decreased
built_decrease = refl

decrease_settles_example :
    (down_quote.borrow_assets_delta ≡ 0)
    × (down_quote.supply_collateral_delta ≡ 0)
    × (0 < down_quote.repay_assets_delta)
    × (run_bundle sample_ethers sample_book sample_market.loan_token decreased
          (record { in_general = 0; in_nest = 0 })
        ≡ some (record { in_general = 0; in_nest = 0 }))
decrease_settles_example =
    decrease_settles sample_ethers sample_ethers-IsAbi sample_book sample_market
      sample_book-IsCanonicalBook (refl, (refl, (refl, (refl, tt)))) instant down_quote sample_extra
      0 decreased built_decrease

quoted_route_iff_example :
    let route = quoted_route low_position high_position sample_state 1 1 sample_extra redeem in
    ((route ≡ ok increase) ↔ (
      (100 ≤ high_position.borrow_shares)
      × (500 ≤ high_position.collateral)
      × ((100 < high_position.borrow_shares) ⊎ (500 < high_position.collateral))))
    × ((route ≡ ok (decrease redeem)) ↔ (
        (high_position.borrow_shares ≤ 100)
        × (high_position.collateral ≤ 500)
        × ((high_position.borrow_shares < 100) ⊎ (high_position.collateral < 500))))
    × ((route ≡ err mixed_route) ↔ (
        ((100 < high_position.borrow_shares) ⊎ (500 < high_position.collateral))
        × ((high_position.borrow_shares < 100) ⊎ (high_position.collateral < 500))))
    × ((route ≡ err already_at_target)
        ↔ ((100 ≡ high_position.borrow_shares) × (500 ≡ high_position.collateral)))
quoted_route_iff_example =
    quoted_route_iff low_position high_position sample_state 1 1 sample_extra redeem (omega arith)
