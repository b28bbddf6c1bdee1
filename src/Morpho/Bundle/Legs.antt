-- ===== src/Morpho/Bundle/Legs.antt =====
-- The legs of a bundle: what a conditional `push` adds is canonical, and does when it is carried
-- out what its call was made for, or nothing.
use mathlib.Core.Path.{fun_ext}
use nest_protocol.Base.{
  ◌≡◌, refl, Bool, true, false, Option, some, List, [], ◌∷◌, ◌++◌, All, if◌then◌else◌,
}
use nest_protocol.Base.Text.{Text, to_lower, text_eq_refl, text_eq_sym}
use nest_protocol.Base.Outcome.{Result, ok, >>=-ok_inv}
use nest_protocol.Morpho.Types.{AddressBook, Call, MorphoError}
use nest_protocol.Morpho.Abi.{Ethers, Decoded, same_address}
use nest_protocol.Morpho.Abi.Laws.{IsChecksummed, IsCanonicalCall, Carries, IsLower}
use nest_protocol.Morpho.Bundle.{
  push_when, empty_bytes, adapters_are_shared, nest_execution_adapter,
}
use nest_protocol.Morpho.Bundle.Flow.{
  Balances, perform, run_calls, run_calls-append, bind-some, ◌>>=◌,
}

pub same_address_refl : (a : Text) → same_address a a ≡ true
unfolding same_address
same_address_refl a = text_eq_refl (to_lower a)

pub same_address_sym : (a b : Text) → same_address a b ≡ same_address b a
unfolding same_address
same_address_sym a b = text_eq_sym (to_lower a) (to_lower b)

pub empty_bytes-IsLower : IsLower empty_bytes
unfolding to_lower
empty_bytes-IsLower = refl

-- Every address of the book that a call mentions is in its checksummed spelling.
pub record IsCanonicalBook (e : Ethers) (a : AddressBook) : Type 0 where
  pub general_adapter : IsChecksummed e a.general_adapter
  pub nest_adapter : IsChecksummed e a.nest_adapter
  pub vault : IsChecksummed e a.vault
  pub initiator : IsChecksummed e a.initiator
  pub position_owner : IsChecksummed e a.position_owner
  pub deposit_receiver : IsChecksummed e a.deposit_receiver
  pub redeem_receiver : IsChecksummed e a.redeem_receiver

pub nest_execution_adapter-IsChecksummed :
    (e : Ethers) (a : AddressBook)
    → IsCanonicalBook e a
    → IsChecksummed e (nest_execution_adapter a)
nest_execution_adapter-IsChecksummed e a book =
    elim (adapters_are_shared a)
      as (λ b. IsChecksummed e (if b then a.general_adapter else a.nest_adapter)) [
        | true ↦ book.general_adapter
        | false ↦ book.nest_adapter
      ]

module _ (e : Ethers) (addresses : AddressBook) (loan_token : Text) where
  -- What the calls of one leg amount to.
  pub record IsLeg (test : Bool) (to : Text) (d : Decoded) (xs : List Call) : Type 0 where
    pub canonical : All (IsCanonicalCall e) xs
    pub runs :
        (b : Balances)
        → run_calls e addresses loan_token xs b
          ≡ (if test then perform addresses loan_token to d b else some b)

  pub singleton-IsLeg :
      (to : Text) (d : Decoded) (c : Call)
      → IsChecksummed e to
      → Carries e d to c
      → IsLeg true to d (c ∷ [])
  unfolding run_calls
  singleton-IsLeg to d c spelled carries = record {
    canonical = ((rw carries.0 spelled, carries.2, carries.3), tt);
    runs = λ b. rw (carries.0, carries.1) (bind-some (perform addresses loan_token to d b));
  }

  pub push_when-IsLeg :
      (test : Bool) (m : Result MorphoError Call) (to : Text) (d : Decoded) (xs : List Call)
      → IsChecksummed e to
      → ((c : Call) → m ≡ ok c → Carries e d to c)
      → push_when test m ≡ ok xs
      → IsLeg test to d xs
  unfolding run_calls
  push_when-IsLeg false m to d xs spelled carries made =
      rw (← nothing) (record { canonical = tt; runs = λ b. refl })
    where
      nothing : [] ≡ xs
      nothing = cc
  push_when-IsLeg true m to d xs spelled carries made =
      let (c, eq, same) = >>=-ok_inv m _ made in
      let same' : c ∷ [] ≡ xs = cc in rw (← same') (singleton-IsLeg to d c spelled (carries c eq))

  -- A leg is carried out, and then what follows it.
  pub leg_then :
      (test : Bool) (to : Text) (d : Decoded) (xs rest : List Call) (k : Balances → Option Balances)
      → IsLeg test to d xs
      → ((b : Balances) → run_calls e addresses loan_token rest b ≡ k b)
      → (b : Balances)
      → run_calls e addresses loan_token (xs ++ rest) b
        ≡ ((if test then perform addresses loan_token to d b else some b) >>= k)
  leg_then test to d xs rest k leg follows b =
      rw (run_calls-append e addresses loan_token xs rest b, leg.runs b, fun_ext follows)
