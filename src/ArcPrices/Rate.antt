-- ===== src/ArcPrices/Rate.antt =====
-- `checkRateUpdate` of tools/syncArcPrices.ts. The rates are uint256 and smaller, so natural.
use nest_protocol.Base.{
  ℕ, ◌+◌, ◌*◌, ◌/◌, ◌^◌, ◌≤◌, ◌<◌, ◌≡◌, ◌≢◌, ◌↔◌, Bool, true, false, ◌||◌, ◌==◌, ltb, leb,
  if◌then◌else◌, arith,
}
use nest_protocol.Base.Text.{Text, txt}
use nest_protocol.Base.Outcome.{Result, ok, ◌>>◌, throw_if}

pub record AccountantState : Type 0 where
  pub exchange_rate : ℕ
  pub allowed_exchange_rate_change_upper : ℕ
  pub allowed_exchange_rate_change_lower : ℕ
  pub last_update_timestamp : ℕ
  pub minimum_update_delay_in_seconds : ℕ
  pub is_paused : Bool

unfoldable pub ready_at : AccountantState → ℕ
ready_at state = state.last_update_timestamp + state.minimum_update_delay_in_seconds

unfoldable pub lower_bound : AccountantState → ℕ
lower_bound state = (state.exchange_rate * state.allowed_exchange_rate_change_lower) / 1000000

unfoldable pub upper_bound : AccountantState → ℕ
upper_bound state = (state.exchange_rate * state.allowed_exchange_rate_change_upper) / 1000000

unfoldable pub check_rate_update : AccountantState → ℕ → ℕ → Result Text Bool
check_rate_update state rate timestamp =
    let bounded =
      throw_if (ltb timestamp (ready_at state)) (txt "Update delay has not elapsed")
      >> throw_if (ltb rate (lower_bound state) || ltb (upper_bound state) rate)
          (txt "Hub rate is outside Arc bounds")
      >> ok true in
    throw_if state.is_paused (txt "Arc accountant is paused")
    >> throw_if (rate == 0 || leb (2 ^ 96) rate) (txt "Hub rate does not fit a nonzero uint96")
    >> (if state.exchange_rate == rate then ok false else bounded)

-- The state of an accountant and a rate that the check lets through: it is not paused, and the rate
-- is not 0 and fits a uint96.
abbrev pub IsAllowed : AccountantState → ℕ → Type 0
IsAllowed state rate = (state.is_paused ≡ false) × (0 < rate) × (rate < 2 ^ 96)

-- The check answers in three ways. An update is due exactly when the accountant is not paused, the
-- rate fits a nonzero uint96 and is not the present one, the minimum delay has passed since the last
-- update, and the rate, in millionths of the present one, is neither above the upper bound nor, but
-- for what rounding down forgives, below the lower one. It is not needed exactly when the accountant
-- is not paused and the rate fits and is the present one. In every other case the check throws.
pub check_rate_update-due_iff :
    (state : AccountantState) (rate timestamp : ℕ)
    → ((check_rate_update state rate timestamp ≡ ok true) ↔ (
        IsAllowed state rate
        × (state.exchange_rate ≢ rate)
        × (state.last_update_timestamp + state.minimum_update_delay_in_seconds ≤ timestamp)
        × (state.exchange_rate * state.allowed_exchange_rate_change_lower < (rate + 1) * 1000000)
        × (rate * 1000000 ≤ state.exchange_rate * state.allowed_exchange_rate_change_upper)))
      × ((check_rate_update state rate timestamp ≡ ok false)
          ↔ (IsAllowed state rate × (state.exchange_rate ≡ rate)))
unfolding check_rate_update ready_at lower_bound upper_bound
check_rate_update-due_iff state rate timestamp = (
  (λ due. ground arith, λ ((live, positive, fits), changed, ready, above, below). ground arith),
  (λ same. ground arith, λ ((live, positive, fits), same). ground arith),
)
