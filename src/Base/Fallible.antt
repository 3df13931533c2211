-- ===== src/Base/Fallible.antt =====
-- What a function of the source returns: a value, or the TypeError of a member of null. A loop on
-- fuel may also run out of it, which its theorems rule out.
pub data Result {ℓ} (A : Type ℓ) : Type ℓ where
  ok : A → Result A
  type_error : Result A
  out_of_fuel : Result A

infixl 5 ◌>>=◌
abbrev pub ◌>>=◌ {ℓ κ} : {A : Type ℓ} {B : Type κ} → Result A → (A → Result B) → Result B
ok a >>= f = f a
type_error >>= f = type_error
out_of_fuel >>= f = out_of_fuel
