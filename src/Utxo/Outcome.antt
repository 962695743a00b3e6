-- ===== src/Utxo/Outcome.antt =====
-- Go's (value, error) results of the utxo packages, and panics.
use bitcoin_utxo_indexer.Prelude.{◌≡◌, refl, ap, Option, none, some}

-- The sentinel errors that callers test by errors.Is; `failed` is any other error.
pub data Error : Type 0 where
  not_found already_spent block_hash_not_found inconsistence_state : Error
  no_diff next_block_too_far spending_output_not_found block_already_stored failed : Error

pub data Outcome {ℓ} (A : Type ℓ) : Type ℓ where
  ok : A → Outcome A
  err : Error → Outcome A
  panic : Outcome A

infixl 5 ◌>>=◌ ◌>>◌
abbrev pub ◌>>=◌ {ℓ κ} : {A : Type ℓ} {B : Type κ} → Outcome A → (A → Outcome B) → Outcome B
ok a >>= f = f a
err e >>= f = err e
panic >>= f = panic

abbrev pub ◌>>◌ {ℓ} : {B : Type ℓ} → Outcome (Unit {0}) → Outcome B → Outcome B
m >> k = m >>= λ _. k

-- A call whose `none` is a panic, and one whose `none` is an error.
abbrev pub or_panic {ℓ} : {A : Type ℓ} → Option A → Outcome A
or_panic none = panic
or_panic (some a) = ok a

abbrev pub or_error {ℓ} : {A : Type ℓ} → Option A → Error → Outcome A
or_error none e = err e
or_error (some a) e = ok a

-- A chain that ends in a result has one at its first link.
pub bind_ok {ℓ κ} :
    {A : Type ℓ} {B : Type κ} (m : Outcome A) (f : A → Outcome B) (b : B)
    → (m >>= f) ≡ ok b
    → (a : A) × ((m ≡ ok a) × (f a ≡ ok b))
bind_ok (ok a) f b h = (a, (refl, h))
bind_ok (err e) f b h = absurd cc
bind_ok panic f b h = absurd cc

abbrev pub from_ok {ℓ} : {A : Type ℓ} → A → Outcome A → A
from_ok d (ok a) = a
from_ok d _ = d

pub ok_injective {ℓ} : {A : Type ℓ} (a b : A) → ok a ≡ ok b → a ≡ b
ok_injective a b h = ap (from_ok a) h
