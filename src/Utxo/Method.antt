-- ===== src/Utxo/Method.antt =====
-- Methods that change an object and may fail: what was written before an error stays written.
use bitcoin_utxo_indexer.Prelude.{◌≡◌, refl, Bool, true, false, List, [], ◌∷◌}
use bitcoin_utxo_indexer.Utxo.Outcome.{Error, Outcome, ok, err, panic}

abbrev pub Method {ℓ κ} : Type ℓ → Type κ → Type (ℓ ⊔ κ)
Method S A = S → Outcome A × S

module _ {ℓ} {S : Type ℓ} where
  abbrev pub pure {κ} : {A : Type κ} → A → Method S A
  pure a s = (ok a, s)

  abbrev pub raise {κ} : {A : Type κ} → Error → Method S A
  raise e s = (err e, s)

  abbrev pub crash {κ} : {A : Type κ} → Method S A
  crash s = (panic, s)

  abbrev pub continue {κ μ} : {A : Type κ} {B : Type μ} → Outcome A → (A → Method S B) → Method S B
  continue (ok a) f s = f a s
  continue (err e) f s = (err e, s)
  continue panic f s = (panic, s)

  infixl 5 ◌>>=◌ ◌>>◌
  abbrev pub ◌>>=◌ {κ μ} : {A : Type κ} {B : Type μ} → Method S A → (A → Method S B) → Method S B
  ◌>>=◌ m f s = continue (m s).0 f (m s).1

  abbrev pub ◌>>◌ {κ μ} : {A : Type κ} {B : Type μ} → Method S A → Method S B → Method S B
  m >> k = m >>= λ _. k

  -- `for _, x := range xs { err := body(x); if err != nil { return err } }`
  unfoldable pub for_each {κ} :
      {A : Type κ} → List A → (A → Method S (Unit {0})) → Method S (Unit {0})
  for_each [] body = pure tt
  for_each (x ∷ xs) body = do body x; for_each xs body

  -- `if !test(x) { return false }` for each `x`, and `true` at the end.
  unfoldable pub for_all {κ} : {A : Type κ} → List A → (A → Method S Bool) → Method S Bool
  for_all [] test = pure true
  for_all (x ∷ xs) test = do
    passed ← test x
    elim passed [ true ↦ for_all xs test | false ↦ pure false ]

  -- A chain that ends in a result has one at its first link, and goes on from there.
  pub continue_ok {κ μ} :
      {A : Type κ} {B : Type μ} (r : Outcome A) (f : A → Method S B) (s : S) (b : B)
      → (continue r f s).0 ≡ ok b
      → (a : A) × ((r ≡ ok a) × (continue r f s ≡ f a s))
  continue_ok (ok a) f s b h = (a, (refl, refl))
  continue_ok (err e) f s b h = absurd cc
  continue_ok panic f s b h = absurd cc
