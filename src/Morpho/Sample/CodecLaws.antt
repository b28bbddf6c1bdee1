-- ===== src/Morpho/Sample/CodecLaws.antt =====
-- The sample encoder meets the laws.
use nest_protocol.Base.{
  ℕ, zero, suc, ◌+◌, ◌-◌, ◌<◌, ◌≡◌, refl, Bool, true, false, Option, some, none, List, [], ◌∷◌, map,
  ◌==◌, length, arith,
}
use nest_protocol.Base.Text.{Text, to_lower, lower_unit}
use nest_protocol.Morpho.Types.{MarketParams, Call}
use nest_protocol.Morpho.Abi.{
  GeneralFn, CoreFn, NestFn, erc20_transfer_from, morpho_flash_loan, morpho_supply_collateral,
  morpho_borrow, morpho_repay, morpho_withdraw_collateral, erc20_transfer, nest_deposit,
  nest_instant_redeem, nest_redeem, morpho_withdraw_collateral_on_behalf,
}
use nest_protocol.Morpho.Abi.Laws.{IsAbi}
use nest_protocol.Morpho.Sample.Codec.{
  put_text, put_general, put_core, put_nest, put_calls, put_market, put_num, put_bool, get_num,
  get_text, get_market, get_general, get_general_of, get_transfer_from, get_flash, get_supply,
  get_borrow, get_repay, get_withdraw, get_core, get_transfer, get_nest, get_nest_of, get_deposit,
  get_redeem, get_on_behalf, get_call, get_calls, sample_ethers,
}

get_text-put_text : (t rest : Text) → get_text (put_text t rest) ≡ some (t, rest)
unfolding get_text put_text
get_text-put_text [] rest = refl
get_text-put_text (u ∷ us) rest = ground (arith, get_text-put_text us rest)

get_num-put_num : (n : ℕ) (rest : Text) → get_num (put_num n rest) ≡ some (n, rest)
get_num-put_num n rest = ground arith

num : (n : ℕ) → n + 1000 - 1000 ≡ n
num n = omega arith

get_market-put_market :
    (m : MarketParams) (rest : Text) → get_market (put_market m rest) ≡ some (m, rest)
unfolding get_market
get_market-put_market m rest = simp (get_text-put_text, num)

get_general-put_general : (f : GeneralFn) → get_general (put_general f) ≡ some f
unfolding get_general put_general get_general_of get_transfer_from get_flash get_supply get_borrow
    get_repay get_withdraw
get_general-put_general (erc20_transfer_from t r n) = simp (get_text-put_text, num)
get_general-put_general (morpho_flash_loan t n d) = simp (get_text-put_text, num)
get_general-put_general (morpho_supply_collateral m n o d) =
    simp (get_market-put_market, get_text-put_text, num)
get_general-put_general (morpho_borrow m n s p r) =
    simp (get_market-put_market, get_text-put_text, num)
get_general-put_general (morpho_repay m n s p o d) =
    simp (get_market-put_market, get_text-put_text, num)
get_general-put_general (morpho_withdraw_collateral m n r) =
    simp (get_market-put_market, get_text-put_text, num)

get_core-put_core : (f : CoreFn) → get_core (put_core f) ≡ some f
unfolding get_core put_core get_transfer
get_core-put_core (erc20_transfer t r n) = simp (get_text-put_text, num)

get_nest-put_nest : (f : NestFn) → get_nest (put_nest f) ≡ some f
unfolding get_nest put_nest get_nest_of get_deposit get_redeem get_on_behalf
get_nest-put_nest (nest_deposit v n p r) = simp (get_text-put_text, num)
get_nest-put_nest (nest_instant_redeem v n p r o) = simp (get_text-put_text, num)
get_nest-put_nest (nest_redeem v n p r o) = simp (get_text-put_text, num)
get_nest-put_nest (morpho_withdraw_collateral_on_behalf m n o r) =
    simp (get_market-put_market, get_text-put_text, num)

get_general-put_core : (f : CoreFn) → get_general (put_core f) ≡ none
unfolding get_general put_core get_general_of
get_general-put_core (erc20_transfer t r n) = refl

get_general-put_nest : (f : NestFn) → get_general (put_nest f) ≡ none
unfolding get_general put_nest get_general_of
get_general-put_nest (nest_deposit v n p r) = refl
get_general-put_nest (nest_instant_redeem v n p r o) = refl
get_general-put_nest (nest_redeem v n p r o) = refl
get_general-put_nest (morpho_withdraw_collateral_on_behalf m n o r) = refl

get_core-put_nest : (f : NestFn) → get_core (put_nest f) ≡ none
unfolding get_core put_nest
get_core-put_nest (nest_deposit v n p r) = refl
get_core-put_nest (nest_instant_redeem v n p r o) = refl
get_core-put_nest (nest_redeem v n p r o) = refl
get_core-put_nest (morpho_withdraw_collateral_on_behalf m n o r) = refl

bool_num : (b : Bool) → (put_bool b == 1) ≡ b
bool_num true = refl
bool_num false = refl

get_call-put_call :
    (c : Call) (rest : Text)
    → get_call (
        put_text c.to (
          put_text c.call_data
            (put_num c.value (put_num (put_bool c.skip_revert) (put_text c.callback_hash rest)))))
      ≡ some (c, rest)
unfolding get_call
get_call-put_call c rest = simp (get_text-put_text, num, bool_num)

length-put_text : (t rest : Text) → length rest < length (put_text t rest)
unfolding put_text
length-put_text [] rest = omega arith
length-put_text (u ∷ us) rest = omega (arith, length-put_text us rest)

length-put_calls : (cs : List Call) → length cs < length (put_calls cs)
unfolding put_calls
length-put_calls [] = omega arith
length-put_calls (c ∷ cs) = omega (
  arith,
  length-put_calls cs,
  length-put_text c.callback_hash (put_calls cs),
  length-put_text c.call_data (
      put_num c.value (put_num (put_bool c.skip_revert) (put_text c.callback_hash (put_calls cs)))),
  length-put_text c.to (
      put_text c.call_data (
        put_num c.value
          (put_num (put_bool c.skip_revert) (put_text c.callback_hash (put_calls cs))))),
)

get_calls-put_calls :
    (fuel : ℕ) (cs : List Call) → length cs < fuel → get_calls fuel (put_calls cs) ≡ some cs
unfolding get_calls put_calls
get_calls-put_calls zero cs h = elim h [ ]
get_calls-put_calls (suc fuel) [] h = refl
get_calls-put_calls (suc fuel) (c ∷ cs) h =
    simp (get_call-put_call, get_calls-put_calls fuel cs (omega arith))

unit_lower : (u : ℕ) → lower_unit (u + 1000) ≡ u + 1000
unfolding lower_unit
unit_lower u = ground arith

unit_lower_big : (u : ℕ) → lower_unit (u + 1001) ≡ u + 1001
unfolding lower_unit
unit_lower_big u = ground arith

hash_lower : (h : Text) → to_lower (map (λ u. u + 1000) h) ≡ map (λ u. u + 1000) h
unfolding to_lower
hash_lower [] = refl
hash_lower (u ∷ h) = cc (unit_lower u, hash_lower h)

to_lower-cons : (n : ℕ) (rest : Text) → to_lower ((n + 1000) ∷ rest) ≡ (n + 1000) ∷ to_lower rest
unfolding to_lower
to_lower-cons n rest = rw (unit_lower n)

to_lower-put_text : (t rest : Text) → to_lower (put_text t rest) ≡ put_text t (to_lower rest)
unfolding put_text to_lower
to_lower-put_text [] rest = refl
to_lower-put_text (u ∷ us) rest =
    let big : lower_unit (u + 1001) ≡ u + 1001 = unit_lower_big u in
    cc (big, to_lower-put_text us rest)

to_lower-nil : to_lower [] ≡ []
unfolding to_lower
to_lower-nil = refl

ruleset lower_laws = (to_lower-cons, to_lower-put_text, to_lower-nil)

general_lower : (f : GeneralFn) → to_lower (put_general f) ≡ put_general f
unfolding put_general
general_lower (erc20_transfer_from t r n) = simp lower_laws
general_lower (morpho_flash_loan t n d) = simp lower_laws
general_lower (morpho_supply_collateral m n o d) = simp lower_laws
general_lower (morpho_borrow m n s p r) = simp lower_laws
general_lower (morpho_repay m n s p o d) = simp lower_laws
general_lower (morpho_withdraw_collateral m n r) = simp lower_laws

core_lower : (f : CoreFn) → to_lower (put_core f) ≡ put_core f
unfolding put_core
core_lower (erc20_transfer t r n) = simp lower_laws

nest_lower : (f : NestFn) → to_lower (put_nest f) ≡ put_nest f
unfolding put_nest
nest_lower (nest_deposit v n p r) = simp lower_laws
nest_lower (nest_instant_redeem v n p r o) = simp lower_laws
nest_lower (nest_redeem v n p r o) = simp lower_laws
nest_lower (morpho_withdraw_collateral_on_behalf m n o r) = simp lower_laws

calls_lower : (cs : List Call) → to_lower (put_calls cs) ≡ put_calls cs
unfolding put_calls
calls_lower [] = simp (to_lower-cons 0, to_lower-nil)
calls_lower (c ∷ cs) = simp (lower_laws, calls_lower cs)

read_some {ℓ} :
    {A : Type ℓ} {B : Type 0} (parse : A → Option B) {x h : A} {f : B}
    → parse x ≡ some f
    → some x ≡ some h
    → parse h ≡ some f
read_some parse {x} {h} read e = let same : x ≡ h = cc in rw (← same) read

pub sample_ethers-IsAbi : IsAbi sample_ethers
sample_ethers-IsAbi = record {
  general_read = λ f h _ e. read_some get_general (get_general-put_general f) e;
  core_read = λ f h _ e. read_some get_core (get_core-put_core f) e;
  nest_read = λ f h _ e. read_some get_nest (get_nest-put_nest f) e;
  core_not_general = λ f h e. cc (get_general-put_core f);
  nest_not_general = λ f h e. cc (get_general-put_nest f);
  nest_not_core = λ f h e. cc (get_core-put_nest f);
  calls_read = λ cs h _ e.
      read_some (λ s. get_calls (length s) s)
        (get_calls-put_calls (length (put_calls cs)) cs (length-put_calls cs)) e;
  general_lower = λ f h e. cc (general_lower f);
  core_lower = λ f h e. cc (core_lower f);
  nest_lower = λ f h e. cc (nest_lower f);
  calls_lower = λ cs h e. cc (calls_lower cs);
  hash_lower = hash_lower;
}
