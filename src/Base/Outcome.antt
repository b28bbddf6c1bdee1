-- ===== src/Base/Outcome.antt =====
-- Code that may throw: a value, or the error that was thrown.
use nest_protocol.Base.{◌≡◌, refl, Bool, true, false}

pub data Result (E A : Type 0) : Type 0 where
  err : E → Result E A
  ok : A → Result E A

infixl 5 ◌>>=◌
abbrev pub ◌>>=◌ : {E A B : Type 0} → Result E A → (A → Result E B) → Result E B
err thrown >>= next = err thrown
ok value >>= next = next value

infixl 5 ◌>>◌
abbrev pub ◌>>◌ : {E B : Type 0} → Result E (Unit {0}) → Result E B → Result E B
check >> rest = check >>= λ _. rest

-- `if (test) throw error;`
abbrev pub throw_if : {E : Type 0} → Bool → E → Result E (Unit {0})
throw_if false thrown = ok tt
throw_if true thrown = err thrown

-- A chain that returned had a first step that returned.
pub >>=-ok_inv :
    {E A B : Type 0} (first : Result E A) (next : A → Result E B) {b : B}
    → (first >>= next) ≡ ok b
    → (a : A) × (first ≡ ok a) × (next a ≡ ok b)
>>=-ok_inv (err thrown) next returned = cc
>>=-ok_inv (ok value) next returned = (value, refl, returned)

-- A guarded computation that returned has passed its guard.
pub throw_if-ok_inv :
    {E B : Type 0} (test : Bool) (thrown : E) (rest : Result E B) {b : B}
    → (throw_if test thrown >> rest) ≡ ok b
    → (test ≡ false) × (rest ≡ ok b)
throw_if-ok_inv false thrown rest returned = (refl, returned)
throw_if-ok_inv true thrown rest returned = cc
