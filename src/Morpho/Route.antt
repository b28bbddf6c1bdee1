-- ===== src/Morpho/Route.antt =====
-- The command line and the choice of the route in tools/morpho/common.ts.
pub mod Laws
use nest_protocol.Base.{
  ℕ, zero, suc, ◌+◌, Bool, true, false, ◌&&◌, ◌||◌, not, ◌==◌, List, [], ◌∷◌, Option, none, some,
  if◌then◌else◌,
}
use nest_protocol.Base.Text.{Text, txt, text_eq, to_lower, trim}
use nest_protocol.Base.Outcome.{Result, ok, err, ◌>>=◌, ◌>>◌, throw_if}
use nest_protocol.Morpho.Types.{
  Quote, DecreaseRoute, instant, redeem, BundleRoute, increase, decrease, MorphoError,
  missing_config_argument, missing_route_argument, unsupported_route, already_at_target,
  mixed_route,
}

-- What follows the first `flag`: `none` if there is no flag.
unfoldable pub after_first : Text → List Text → Option (List Text)
after_first flag [] = none
after_first flag (a ∷ argv) =
    let later = after_first flag argv in if text_eq a flag then some argv else later

-- What follows the last `flag`.
unfoldable pub after_last : Text → List Text → Option (List Text)
after_last flag [] = none
after_last flag (a ∷ argv) = elim (after_last flag argv) [
  | some rest ↦ some rest
  | none ↦ if text_eq a flag then some argv else none
]

-- The argument before `path.resolve`, which the shell's working directory decides.
unfoldable pub read_config_path_from_cli : List Text → Result MorphoError Text
read_config_path_from_cli argv = elim (after_last (txt "--config") argv) [
  | some (path ∷ _) ↦ ok path
  | _ ↦ err missing_config_argument
]

unfoldable pub parse_decrease_route : Text → Result MorphoError DecreaseRoute
parse_decrease_route value =
    if text_eq value (txt "instant") || text_eq value (txt "decrease-instant")
    then ok instant
    else if text_eq value (txt "redeem")
        || text_eq value (txt "async")
        || text_eq value (txt "decrease-redeem")
    then ok redeem
    else err unsupported_route

unfoldable pub read_decrease_route_from_cli :
    List Text → DecreaseRoute → Result MorphoError DecreaseRoute
read_decrease_route_from_cli argv fallback = elim (after_first (txt "--decrease-route") argv) [
  | none ↦ ok fallback
  | some [] ↦ err missing_route_argument
  | some (arg ∷ _) ↦ parse_decrease_route (to_lower (trim arg))
]

unfoldable pub resolve_position_route : Quote → DecreaseRoute → Result MorphoError BundleRoute
resolve_position_route quote decrease_route = do
  let has_increase_leg =
      not (quote.borrow_assets_delta == 0) || not (quote.supply_collateral_delta == 0)
  let has_decrease_leg =
      not (quote.repay_assets_delta == 0) || not (quote.withdraw_collateral_delta == 0)
  throw_if (not has_increase_leg && not has_decrease_leg) already_at_target
  throw_if (has_increase_leg && has_decrease_leg) mixed_route
  ok (if has_increase_leg then increase else decrease decrease_route)
