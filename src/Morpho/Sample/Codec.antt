-- ===== src/Morpho/Sample/Codec.antt =====
-- The writers and readers of the sample encoder.
use nest_protocol.Base.{
  ℕ, zero, suc, ◌+◌, ◌-◌, Bool, true, false, Option, some, none, List, [], ◌∷◌, map, ◌==◌, length,
  if◌then◌else◌,
}
use nest_protocol.Base.Text.{Text}
use nest_protocol.Morpho.Types.{MarketParams, Call}
use nest_protocol.Morpho.Abi.{
  GeneralFn, CoreFn, NestFn, Ethers, erc20_transfer_from, morpho_flash_loan,
  morpho_supply_collateral, morpho_borrow, morpho_repay, morpho_withdraw_collateral, erc20_transfer,
  nest_deposit, nest_instant_redeem, nest_redeem, morpho_withdraw_collateral_on_behalf,
}

abbrev pub put_num : ℕ → Text → Text
put_num n rest = (n + 1000) ∷ rest

unfoldable pub put_text : Text → Text → Text
put_text [] rest = 1000 ∷ rest
put_text (u ∷ us) rest = (u + 1001) ∷ put_text us rest

abbrev pub put_market : MarketParams → Text → Text
put_market m rest =
    put_text m.loan_token
      (put_text m.collateral_token (put_text m.oracle (put_text m.irm (put_num m.lltv rest))))

unfoldable pub put_general : GeneralFn → Text
put_general (erc20_transfer_from t r n) = put_num 1 (put_text t (put_text r (put_num n [])))
put_general (morpho_flash_loan t n d) = put_num 2 (put_text t (put_num n (put_text d [])))
put_general (morpho_supply_collateral m n o d) =
    put_num 3 (put_market m (put_num n (put_text o (put_text d []))))
put_general (morpho_borrow m n s p r) =
    put_num 4 (put_market m (put_num n (put_num s (put_num p (put_text r [])))))
put_general (morpho_repay m n s p o d) =
    put_num 5 (put_market m (put_num n (put_num s (put_num p (put_text o (put_text d []))))))
put_general (morpho_withdraw_collateral m n r) =
    put_num 6 (put_market m (put_num n (put_text r [])))

unfoldable pub put_core : CoreFn → Text
put_core (erc20_transfer t r n) = put_num 7 (put_text t (put_text r (put_num n [])))

unfoldable pub put_nest : NestFn → Text
put_nest (nest_deposit v n p r) = put_num 8 (put_text v (put_num n (put_num p (put_text r []))))
put_nest (nest_instant_redeem v n p r o) =
    put_num 9 (put_text v (put_num n (put_num p (put_text r (put_text o [])))))
put_nest (nest_redeem v n p r o) =
    put_num 10 (put_text v (put_num n (put_num p (put_text r (put_text o [])))))
put_nest (morpho_withdraw_collateral_on_behalf m n o r) =
    put_num 11 (put_market m (put_num n (put_text o (put_text r []))))

abbrev pub put_bool : Bool → ℕ
put_bool true = 1
put_bool false = 0

unfoldable pub put_calls : List Call → Text
put_calls [] = 1000 ∷ []
put_calls (c ∷ cs) = put_num 1 (
    put_text c.to (
      put_text c.call_data (
        put_num c.value
          (put_num (put_bool c.skip_revert) (put_text c.callback_hash (put_calls cs))))))

infixl 5 ◌>>=◌
abbrev pub ◌>>=◌ : {A B : Type 0} → Option A → (A → Option B) → Option B
none >>= f = none
some a >>= f = f a

abbrev pub get_num : Text → Option (ℕ × Text)
get_num [] = none
get_num (u ∷ us) = some (u - 1000, us)

unfoldable pub get_text : Text → Option (Text × Text)
get_text [] = none
get_text (u ∷ us) =
    let rest = (do (t, more) ← get_text us; some ((u - 1001) ∷ t, more)) in
    if u == 1000 then some ([], us) else rest

unfoldable pub get_market : Text → Option (MarketParams × Text)
get_market s = do
  (a, s₁) ← get_text s
  (b, s₂) ← get_text s₁
  (c, s₃) ← get_text s₂
  (d, s₄) ← get_text s₃
  (n, s₅) ← get_num s₄
  some (record { loan_token = a; collateral_token = b; oracle = c; irm = d; lltv = n }, s₅)

unfoldable pub get_transfer_from : Text → Option GeneralFn
get_transfer_from s = do
  (t, s₁) ← get_text s
  (r, s₂) ← get_text s₁
  (n, s₃) ← get_num s₂
  some (erc20_transfer_from t r n)

unfoldable pub get_flash : Text → Option GeneralFn
get_flash s = do
  (t, s₁) ← get_text s
  (n, s₂) ← get_num s₁
  (d, s₃) ← get_text s₂
  some (morpho_flash_loan t n d)

unfoldable pub get_supply : Text → Option GeneralFn
get_supply s = do
  (m, s₁) ← get_market s
  (n, s₂) ← get_num s₁
  (o, s₃) ← get_text s₂
  (d, s₄) ← get_text s₃
  some (morpho_supply_collateral m n o d)

unfoldable pub get_borrow : Text → Option GeneralFn
get_borrow s = do
  (m, s₁) ← get_market s
  (n, s₂) ← get_num s₁
  (k, s₃) ← get_num s₂
  (p, s₄) ← get_num s₃
  (r, s₅) ← get_text s₄
  some (morpho_borrow m n k p r)

unfoldable pub get_repay : Text → Option GeneralFn
get_repay s = do
  (m, s₁) ← get_market s
  (n, s₂) ← get_num s₁
  (k, s₃) ← get_num s₂
  (p, s₄) ← get_num s₃
  (o, s₅) ← get_text s₄
  (d, s₆) ← get_text s₅
  some (morpho_repay m n k p o d)

unfoldable pub get_withdraw : Text → Option GeneralFn
get_withdraw s = do
  (m, s₁) ← get_market s
  (n, s₂) ← get_num s₁
  (r, s₃) ← get_text s₂
  some (morpho_withdraw_collateral m n r)

unfoldable pub get_general_of : ℕ → Text → Option GeneralFn
get_general_of tag s =
    if tag == 1
    then get_transfer_from s
    else if tag == 2
    then get_flash s
    else if tag == 3
    then get_supply s
    else if tag == 4
    then get_borrow s
    else if tag == 5
    then get_repay s
    else if tag == 6
    then get_withdraw s
    else none

unfoldable pub get_general : Text → Option GeneralFn
get_general s = do (tag, s₁) ← get_num s; get_general_of tag s₁

unfoldable pub get_transfer : Text → Option CoreFn
get_transfer s = do
  (t, s₁) ← get_text s
  (r, s₂) ← get_text s₁
  (n, s₃) ← get_num s₂
  some (erc20_transfer t r n)

unfoldable pub get_core : Text → Option CoreFn
get_core s = do (tag, s₁) ← get_num s; if tag == 7 then get_transfer s₁ else none

unfoldable pub get_deposit : Text → Option NestFn
get_deposit s = do
  (v, s₁) ← get_text s
  (n, s₂) ← get_num s₁
  (p, s₃) ← get_num s₂
  (r, s₄) ← get_text s₃
  some (nest_deposit v n p r)

unfoldable pub get_redeem : Bool → Text → Option NestFn
get_redeem now s = do
  (v, s₁) ← get_text s
  (n, s₂) ← get_num s₁
  (p, s₃) ← get_num s₂
  (r, s₄) ← get_text s₃
  (o, s₅) ← get_text s₄
  some (if now then nest_instant_redeem v n p r o else nest_redeem v n p r o)

unfoldable pub get_on_behalf : Text → Option NestFn
get_on_behalf s = do
  (m, s₁) ← get_market s
  (n, s₂) ← get_num s₁
  (o, s₃) ← get_text s₂
  (r, s₄) ← get_text s₃
  some (morpho_withdraw_collateral_on_behalf m n o r)

unfoldable pub get_nest_of : ℕ → Text → Option NestFn
get_nest_of tag s =
    if tag == 8
    then get_deposit s
    else if tag == 9
    then get_redeem true s
    else if tag == 10
    then get_redeem false s
    else if tag == 11
    then get_on_behalf s
    else none

unfoldable pub get_nest : Text → Option NestFn
get_nest s = do (tag, s₁) ← get_num s; get_nest_of tag s₁

unfoldable pub get_call : Text → Option (Call × Text)
get_call s = do
  (to, s₁) ← get_text s
  (d, s₂) ← get_text s₁
  (v, s₃) ← get_num s₂
  (r, s₄) ← get_num s₃
  (h, s₅) ← get_text s₄
  some (record { to = to; call_data = d; value = v; skip_revert = r == 1; callback_hash = h }, s₅)

-- Each call takes at least one unit, so the length of the text is fuel enough.
unfoldable pub get_calls : ℕ → Text → Option (List Call)
get_calls zero s = none
get_calls (suc fuel) [] = none
get_calls (suc fuel) (u ∷ us) =
    let rest = (do (c, more) ← get_call us; cs ← get_calls fuel more; some (c ∷ cs)) in
    if u == 1000 then some [] else rest

abbrev pub sample_ethers : Ethers
sample_ethers = record {
  encode_general = λ f. some (put_general f);
  parse_general = get_general;
  encode_core = λ f. some (put_core f);
  parse_core = get_core;
  encode_nest = λ f. some (put_nest f);
  parse_nest = get_nest;
  encode_calls = λ cs. some (put_calls cs);
  decode_calls = λ s. get_calls (length s) s;
  encode_multicall = λ cs. some (put_calls cs);
  encode_market_params = λ m. some (put_market m []);
  keccak256 = map (λ u. u + 1000);
  get_address = some;
}
