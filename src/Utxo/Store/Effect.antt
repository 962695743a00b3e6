-- ===== src/Utxo/Store/Effect.antt =====
-- What lists of the store's commands leave at the keys of the index.
use bitcoin_utxo_indexer.Prelude.{
  ◌≡◌, refl, ◌∙◌, ap, arith, Bool, false, not, ◌&&◌, ◌||◌, List, [], ◌∷◌, ◌++◌, Option, none, some,
  if◌then◌else◌, map, inl, inr, Bool-cases,
}
use bitcoin_utxo_indexer.Prelude.Str.{Str, str_eq, str_eq_iff, GoMap, lookup, Distinct, contains}
use bitcoin_utxo_indexer.Utxo.Key.Distinct.{
  height_key, hash_key, tx_key, address_key, tx_key-tx_key, address_key-address_key,
  tx_key-address_key, tx_key-hash_key, tx_key-height_key,
}
use bitcoin_utxo_indexer.Utxo.Backend.{
  Value, Command, set_value, delete, add_to_set, remove_from_set, View, apply, apply_all,
}

pub apply_all-append :
    (cs ds : List Command) (d : View) → apply_all (cs ++ ds) d ≡ apply_all ds (apply_all cs d)
unfolding apply_all
apply_all-append [] ds d = refl
apply_all-append (c ∷ cs) ds d = apply_all-append cs ds (apply c d)

-- Does the entry of `address` name the transaction `x`?
abbrev pub names : GoMap (List Str) → Str → Str → Bool
names [] address x = false
names ((a, ids) ∷ m) address x = (str_eq a address && contains ids x) || names m address x

-- The value that a map gives to a key, or the old one.
abbrev pub override {ℓ} : {V : Type ℓ} → (V → Option Value) → Option V → Option Value → Option Value
override f none old = old
override f (some v) old = f v

-- Writing or deleting the value of one transaction.
abbrev pub put_value : Str → Option Value → Command
put_value k none = delete k
put_value k (some v) = set_value k v

module _ (ver : Str) where
  abbrev pub put_all {ℓ} : {V : Type ℓ} → (V → Option Value) → GoMap V → List Command
  put_all f m = map (λ e. put_value (tx_key ver e.0) (f e.1)) m

  abbrev pub add_all : GoMap (List Str) → List Command
  add_all m = map (λ e. add_to_set (address_key ver e.0) e.1) m

  abbrev pub remove_all : GoMap (List Str) → List Command
  remove_all m = map (λ e. remove_from_set (address_key ver e.0) e.1) m

  pub put_value-values :
      (k t : Str) (o : Option Value) (d : View)
      → (apply (put_value (tx_key ver k) o) d).values (tx_key ver t)
        ≡ (if str_eq k t then o else d.values (tx_key ver t))
  put_value-values k t none d = rw (tx_key-tx_key ver k t)
  put_value-values k t (some v) d = rw (tx_key-tx_key ver k t)

  pub put_value-sets :
      (k a x : Str) (o : Option Value) (d : View)
      → (apply (put_value (tx_key ver k) o) d).sets (address_key ver a) x
        ≡ d.sets (address_key ver a) x
  put_value-sets k a x none d = rw (tx_key-address_key ver k a)
  put_value-sets k a x (some v) d = rw (tx_key-address_key ver k a)

  put_all_other {ℓ} :
      {V : Type ℓ} (f : V → Option Value) (m : GoMap V) (t : Str) (d : View)
      → lookup m t ≡ none
      → (apply_all (put_all f m) d).values (tx_key ver t) ≡ d.values (tx_key ver t)
  unfolding apply_all lookup
  put_all_other f [] t d h = refl
  put_all_other f ((k, e) ∷ m) t d h = elim (Bool-cases (str_eq k t)) [
    | inl same ↦ absurd (ground arith)
    | inr other ↦
        put_all_other f m t (apply (put_value (tx_key ver k) (f e)) d) (rw other at h)
        ∙ put_value-values k t (f e) d
        ∙ rw other
  ]

  pub put_all-values {ℓ} :
      {V : Type ℓ} (f : V → Option Value) (m : GoMap V) (t : Str) (d : View)
      → Distinct m
      → (apply_all (put_all f m) d).values (tx_key ver t)
        ≡ override f (lookup m t) (d.values (tx_key ver t))
  unfolding apply_all lookup
  put_all-values f [] t d h = refl
  put_all-values f ((k, e) ∷ m) t d (fresh, h) = elim (Bool-cases (str_eq k t)) [
    | inl same ↦ rw same (
        put_all_other f m t (apply (put_value (tx_key ver k) (f e)) d)
          (rw ((str_eq_iff k t).0 same) at fresh)
        ∙ put_value-values k t (f e) d
        ∙ rw same)
    | inr other ↦ rw other (
        put_all-values f m t (apply (put_value (tx_key ver k) (f e)) d) h
        ∙ ap (λ (o : Option Value). override f (lookup m t) o)
            (put_value-values k t (f e) d ∙ rw other))
  ]

  pub put_all-sets {ℓ} :
      {V : Type ℓ} (f : V → Option Value) (m : GoMap V) (a x : Str) (d : View)
      → (apply_all (put_all f m) d).sets (address_key ver a) x ≡ d.sets (address_key ver a) x
  unfolding apply_all
  put_all-sets f [] a x d = refl
  put_all-sets f ((k, e) ∷ m) a x d =
      put_all-sets f m a x (apply (put_value (tx_key ver k) (f e)) d) ∙ put_value-sets k a x (f e) d

  pub add_all-sets :
      (m : GoMap (List Str)) (a x : Str) (d : View)
      → (apply_all (add_all m) d).sets (address_key ver a) x
        ≡ (names m a x || d.sets (address_key ver a) x)
  unfolding apply_all
  add_all-sets [] a x d = refl
  add_all-sets ((k, ids) ∷ m) a x d =
      add_all-sets m a x (apply (add_to_set (address_key ver k) ids) d)
      ∙ rw (address_key-address_key ver k a) (ground arith)

  pub remove_all-sets :
      (m : GoMap (List Str)) (a x : Str) (d : View)
      → (apply_all (remove_all m) d).sets (address_key ver a) x
        ≡ (not (names m a x) && d.sets (address_key ver a) x)
  unfolding apply_all
  remove_all-sets [] a x d = refl
  remove_all-sets ((k, ids) ∷ m) a x d =
      remove_all-sets m a x (apply (remove_from_set (address_key ver k) ids) d)
      ∙ rw (address_key-address_key ver k a) (ground arith)

  pub add_all-values :
      (m : GoMap (List Str)) (d : View) → (apply_all (add_all m) d).values ≡ d.values
  unfolding apply_all
  add_all-values [] d = refl
  add_all-values (e ∷ m) d = add_all-values m (apply (add_to_set (address_key ver e.0) e.1) d)

  pub remove_all-values :
      (m : GoMap (List Str)) (d : View) → (apply_all (remove_all m) d).values ≡ d.values
  unfolding apply_all
  remove_all-values [] d = refl
  remove_all-values (e ∷ m) d =
      remove_all-values m (apply (remove_from_set (address_key ver e.0) e.1) d)

  put_value-block :
      (k : Str) (o : Option Value) (d : View)
      → ((apply (put_value (tx_key ver k) o) d).values (hash_key ver) ≡ d.values (hash_key ver))
        × ((apply (put_value (tx_key ver k) o) d).values (height_key ver)
            ≡ d.values (height_key ver))
  put_value-block k none d = (rw (tx_key-hash_key ver k), rw (tx_key-height_key ver k))
  put_value-block k (some v) d = (rw (tx_key-hash_key ver k), rw (tx_key-height_key ver k))

  -- The two keys of the block are neither a transaction's nor an address's.
  pub put_all-block {ℓ} :
      {V : Type ℓ} (f : V → Option Value) (m : GoMap V) (d : View)
      → ((apply_all (put_all f m) d).values (hash_key ver) ≡ d.values (hash_key ver))
        × ((apply_all (put_all f m) d).values (height_key ver) ≡ d.values (height_key ver))
  unfolding apply_all
  put_all-block f [] d = (refl, refl)
  put_all-block f ((k, e) ∷ m) d =
      let (hash, height) = put_all-block f m (apply (put_value (tx_key ver k) (f e)) d) in
      (hash ∙ (put_value-block k (f e) d).0, height ∙ (put_value-block k (f e) d).1)
