-- ===== src/Utxo/Store/Reads.antt =====
-- The store's reading methods: they change nothing, and what they return stands in the database.
use bitcoin_utxo_indexer.Prelude.{
  ℕ, ◌≡◌, refl, ◌∙◌, sym, Bool, true, false, ◌⊎◌, inl, inr, List, [], ◌∷◌, none, some,
  if◌then◌else◌, Option-cases,
}
use bitcoin_utxo_indexer.Prelude.Str.{Str}
use bitcoin_utxo_indexer.Utxo.Outcome.{
  Outcome, ok, err, panic, failed, block_hash_not_found, not_found, inconsistence_state,
}
use bitcoin_utxo_indexer.Utxo.Method.{Method, continue, pure, for_all, ◌>>=◌}
use bitcoin_utxo_indexer.Utxo.Types.{TransactionOutputs}
use bitcoin_utxo_indexer.Utxo.Key.Distinct.{hash_key, height_key, tx_key}
use bitcoin_utxo_indexer.Utxo.Backend.{
  Backend, IsBackend, hash_value, height_value, outputs_value, list_value,
}
use bitcoin_utxo_indexer.Utxo.Store.{
  Store, run_get, return_outcome, decoded, decode_hash, get_address_utxo_transaction_ids,
  read_block_hash, read_block_height, read_outputs_by_tx_id, decode_height, decode_outputs,
  if_consistent, get_outputs_by_tx_id, get_block_hash, get_block_height,
}

module _ (b : Backend) (laws : IsBackend b) where
  -- `m` leaves the database, the checkpoint and the flag as they are.
  pub record Reads {ℓ} {A : Type ℓ} (m : Method (Store b) A) : Type ℓ where
    pub view : (s : Store b) → laws.view (m s).1.world ≡ laws.view s.world
    pub file : (s : Store b) → laws.file (m s).1.world ≡ laws.file s.world
    pub is_consist : (s : Store b) → (m s).1.is_consist ≡ s.is_consist

  pub pure-Reads {ℓ} : {A : Type ℓ} (a : A) → Reads (pure a)
  pure-Reads a = record { view = λ s. refl; file = λ s. refl; is_consist = λ s. refl }

  continue-view {ℓ κ} :
      {A : Type ℓ} {B : Type κ} (r : Outcome A) (f : A → Method (Store b) B)
      → ((a : A) → Reads (f a))
      → (s : Store b) → laws.view (continue r f s).1.world ≡ laws.view s.world
  continue-view (ok a) f h s = (h a).view s
  continue-view (err e) f h s = refl
  continue-view panic f h s = refl

  continue-file {ℓ κ} :
      {A : Type ℓ} {B : Type κ} (r : Outcome A) (f : A → Method (Store b) B)
      → ((a : A) → Reads (f a))
      → (s : Store b) → laws.file (continue r f s).1.world ≡ laws.file s.world
  continue-file (ok a) f h s = (h a).file s
  continue-file (err e) f h s = refl
  continue-file panic f h s = refl

  continue-is_consist {ℓ κ} :
      {A : Type ℓ} {B : Type κ} (r : Outcome A) (f : A → Method (Store b) B)
      → ((a : A) → Reads (f a))
      → (s : Store b) → (continue r f s).1.is_consist ≡ s.is_consist
  continue-is_consist (ok a) f h s = (h a).is_consist s
  continue-is_consist (err e) f h s = refl
  continue-is_consist panic f h s = refl

  pub bind-Reads {ℓ κ} :
      {A : Type ℓ} {B : Type κ} (m : Method (Store b) A) (f : A → Method (Store b) B)
      → Reads m
      → ((a : A) → Reads (f a))
      → Reads (m >>= f)
  bind-Reads m f h k = record {
    view = λ s. continue-view (m s).0 f k (m s).1 ∙ h.view s;
    file = λ s. continue-file (m s).0 f k (m s).1 ∙ h.file s;
    is_consist = λ s. continue-is_consist (m s).0 f k (m s).1 ∙ h.is_consist s;
  }

  pub if-Reads {ℓ} :
      {A : Type ℓ} (t : Bool) (m n : Method (Store b) A)
      → Reads m
      → Reads n
      → Reads (if t then m else n)
  if-Reads true m n h k = h
  if-Reads false m n h k = k

  pub for_all-Reads {ℓ} :
      {A : Type ℓ} (xs : List A) (test : A → Method (Store b) Bool)
      → ((a : A) → Reads (test a))
      → Reads (for_all xs test)
  unfolding for_all
  for_all-Reads [] test h = pure-Reads true
  for_all-Reads (x ∷ xs) test h = bind-Reads (test x) _ (h x) (λ passed.
      elim passed
        as (λ k. Reads {A = Bool} (elim k [ true ↦ for_all xs test | false ↦ pure false ])) [
          | true ↦ for_all-Reads xs test h
          | false ↦ pure-Reads false
        ])

  -- A chain that ends well went through its first method.
  pub continue-ok {ℓ κ} :
      {A : Type ℓ} {B : Type κ} (r : Outcome A) (f : A → Method (Store b) B) (s : Store b) (y : B)
      → (continue r f s).0 ≡ ok y
      → (a : A) × (r ≡ ok a) × ((f a s).0 ≡ ok y)
  continue-ok (ok a) f s y h = (a, refl, h)
  continue-ok (err e) f s y h = absurd cc
  continue-ok panic f s y h = absurd cc

  module _ (ver : Str) where
    pub run_get-Reads : (k : Str) → Reads (run_get b ver k)
    unfolding run_get
    run_get-Reads k = record {
      view = λ s. laws.get-view s.world k;
      file = λ s. laws.get-file s.world k;
      is_consist = λ s. refl;
    }

    pub return_outcome-Reads {ℓ} : {A : Type ℓ} (r : Outcome A) → Reads (return_outcome b ver r)
    unfolding return_outcome
    return_outcome-Reads r = record { view = λ s. refl; file = λ s. refl; is_consist = λ s. refl }

    pub return_outcome-ok {ℓ} :
        {A : Type ℓ} (r : Outcome A) (s : Store b) (a : A)
        → (return_outcome b ver r s).0 ≡ ok a
        → r ≡ ok a
    unfolding return_outcome
    return_outcome-ok r s a h = h

    pub get_address-Reads : (a : Str) → Reads (get_address_utxo_transaction_ids b ver a)
    unfolding get_address_utxo_transaction_ids
    get_address-Reads a = record {
      view = λ s. laws.get_set-view s.world _;
      file = λ s. laws.get_set-file s.world _;
      is_consist = λ s. refl;
    }

    pub read_block_hash-Reads : Reads (read_block_hash b ver)
    unfolding read_block_hash
    read_block_hash-Reads = bind-Reads _ _ (run_get-Reads _) (λ v. return_outcome-Reads _)

    pub read_block_height-Reads : Reads (read_block_height b ver)
    unfolding read_block_height
    read_block_height-Reads = bind-Reads _ _ (run_get-Reads _) (λ v. return_outcome-Reads _)

    pub read_outputs-Reads : (t : Str) → Reads (read_outputs_by_tx_id b ver t)
    unfolding read_outputs_by_tx_id
    read_outputs-Reads t = bind-Reads _ _ (run_get-Reads _) (λ v. return_outcome-Reads _)

    pub read_block_hash-reads :
        (s : Store b) (hash : Str)
        → (read_block_hash b ver s).0 ≡ ok hash
        → (laws.view s.world).values (hash_key ver) ≡ some (hash_value hash)
    unfolding read_block_hash run_get return_outcome decoded decode_hash
    read_block_hash-reads s hash h = elim (Option-cases (b.get s.world (hash_key ver)).1) [
      | inl bad ↦ absurd (let h' : err failed ≡ ok hash = rw bad at h in cc)
      | inr (none, e) ↦ absurd (let h' : err block_hash_not_found ≡ ok hash = rw e at h in cc)
      | inr (some (hash_value found), e) ↦
          let h' : ok found ≡ ok hash = rw e at h in
          sym (laws.get_reads s.world (hash_key ver) _ e) ∙ cc
      | inr (some (height_value found), e) ↦
          absurd (let h' : err failed ≡ ok hash = rw e at h in cc)
      | inr (some (outputs_value found), e) ↦
          absurd (let h' : err failed ≡ ok hash = rw e at h in cc)
      | inr (some (list_value found), e) ↦ absurd (let h' : err failed ≡ ok hash = rw e at h in cc)
    ]

    pub read_outputs-reads :
        (s : Store b) (t : Str) (entry : TransactionOutputs)
        → (read_outputs_by_tx_id b ver t s).0 ≡ ok entry
        → (laws.view s.world).values (tx_key ver t) ≡ some (outputs_value entry)
    unfolding read_outputs_by_tx_id run_get return_outcome decoded decode_outputs
    read_outputs-reads s t entry h = elim (Option-cases (b.get s.world (tx_key ver t)).1) [
      | inl bad ↦ absurd (let h' : err failed ≡ ok entry = rw bad at h in cc)
      | inr (none, e) ↦ absurd (let h' : err not_found ≡ ok entry = rw e at h in cc)
      | inr (some (outputs_value found), e) ↦
          let h' : ok found ≡ ok entry = rw e at h in
          sym (laws.get_reads s.world (tx_key ver t) _ e) ∙ cc
      | inr (some (height_value found), e) ↦
          absurd (let h' : err failed ≡ ok entry = rw e at h in cc)
      | inr (some (hash_value found), e) ↦ absurd (let h' : err failed ≡ ok entry = rw e at h in cc)
      | inr (some (list_value found), e) ↦ absurd (let h' : err failed ≡ ok entry = rw e at h in cc)
    ]

    -- A height that is read stands in the database, or is 0 where none does.
    pub read_block_height-reads :
        (s : Store b) (height : ℕ)
        → (read_block_height b ver s).0 ≡ ok height
        → ((laws.view s.world).values (height_key ver) ≡ some (height_value height))
          ⊎ (((laws.view s.world).values (height_key ver) ≡ none) × (height ≡ 0))
    unfolding read_block_height run_get return_outcome decoded decode_height
    read_block_height-reads s height h = elim (Option-cases (b.get s.world (height_key ver)).1) [
      | inl bad ↦ absurd (let h' : err failed ≡ ok height = rw bad at h in cc)
      | inr (none, e) ↦
          let h' : ok 0 ≡ ok height = rw e at h in
          inr (sym (laws.get_reads s.world (height_key ver) _ e), cc)
      | inr (some (height_value found), e) ↦
          let h' : ok found ≡ ok height = rw e at h in
          inl (sym (laws.get_reads s.world (height_key ver) _ e) ∙ cc)
      | inr (some (outputs_value found), e) ↦
          absurd (let h' : err failed ≡ ok height = rw e at h in cc)
      | inr (some (hash_value found), e) ↦
          absurd (let h' : err failed ≡ ok height = rw e at h in cc)
      | inr (some (list_value found), e) ↦
          absurd (let h' : err failed ≡ ok height = rw e at h in cc)
    ]

    either_way {ℓ κ} :
        {A : Type ℓ} {R : Type κ} (f : Outcome A × Store b → R) (r : R) (t : Bool)
        (x y : Outcome A × Store b)
        → f x ≡ r
        → f y ≡ r
        → f (if t then x else y) ≡ r
    either_way f r true x y h k = h
    either_way f r false x y h k = k

    -- An exported method reads where the one inside it does.
    if_consistent-Reads {ℓ} :
        {A : Type ℓ} (m : Method (Store b) A) → Reads m → Reads (if_consistent b ver m)
    unfolding if_consistent
    if_consistent-Reads m r = record {
      view = λ s. either_way (λ o. laws.view o.1.world) _ s.is_consist (m s) _ (r.view s) refl;
      file = λ s. either_way (λ o. laws.file o.1.world) _ s.is_consist (m s) _ (r.file s) refl;
      is_consist =
          λ s. either_way (λ o. o.1.is_consist) _ s.is_consist (m s) _ (r.is_consist s) refl;
    }

    passed {ℓ} :
        {A : Type ℓ} (t : Bool) (r : Outcome A × Store b) (s : Store b) (a : A)
        → (if t then r else (err inconsistence_state, s)).0 ≡ ok a
        → r.0 ≡ ok a
    passed true r s a h = h
    passed false r s a h = absurd cc

    if_consistent-ok {ℓ} :
        {A : Type ℓ} (m : Method (Store b) A) (s : Store b) (a : A)
        → (if_consistent b ver m s).0 ≡ ok a
        → (m s).0 ≡ ok a
    unfolding if_consistent
    if_consistent-ok m s a h = passed s.is_consist (m s) s a h

    read_block_hash-missing :
        (s : Store b)
        → (read_block_hash b ver s).0 ≡ err block_hash_not_found
        → (laws.view s.world).values (hash_key ver) ≡ none
    unfolding read_block_hash run_get return_outcome decoded decode_hash
    read_block_hash-missing s h = elim (Option-cases (b.get s.world (hash_key ver)).1) [
      | inl bad ↦ absurd (let h' : err failed ≡ err block_hash_not_found = rw bad at h in cc)
      | inr (none, e) ↦ sym (laws.get_reads s.world (hash_key ver) _ e)
      | inr (some (hash_value found), e) ↦
          absurd (let h' : ok found ≡ err block_hash_not_found = rw e at h in cc)
      | inr (some (height_value found), e) ↦
          absurd (let h' : err failed ≡ err block_hash_not_found = rw e at h in cc)
      | inr (some (outputs_value found), e) ↦
          absurd (let h' : err failed ≡ err block_hash_not_found = rw e at h in cc)
      | inr (some (list_value found), e) ↦
          absurd (let h' : err failed ≡ err block_hash_not_found = rw e at h in cc)
    ]

    refused {ℓ} :
        {A : Type ℓ} (t : Bool) (r : Outcome A × Store b) (s : Store b)
        → (if t then r else (err inconsistence_state, s)).0 ≡ err block_hash_not_found
        → r.0 ≡ err block_hash_not_found
    refused true r s h = h
    refused false r s h = absurd cc

    pub get_block_hash-missing :
        (s : Store b)
        → (get_block_hash b ver s).0 ≡ err block_hash_not_found
        → (laws.view s.world).values (hash_key ver) ≡ none
    unfolding get_block_hash if_consistent
    get_block_hash-missing s h =
        read_block_hash-missing s (refused s.is_consist (read_block_hash b ver s) s h)

    pub get_outputs-Reads : (t : Str) → Reads (get_outputs_by_tx_id b ver t)
    unfolding get_outputs_by_tx_id
    get_outputs-Reads t = if_consistent-Reads _ (read_outputs-Reads t)

    pub get_block_hash-Reads : Reads (get_block_hash b ver)
    unfolding get_block_hash
    get_block_hash-Reads = if_consistent-Reads _ read_block_hash-Reads

    pub get_block_height-Reads : Reads (get_block_height b ver)
    unfolding get_block_height
    get_block_height-Reads = if_consistent-Reads _ read_block_height-Reads

    pub get_outputs-reads :
        (s : Store b) (t : Str) (entry : TransactionOutputs)
        → (get_outputs_by_tx_id b ver t s).0 ≡ ok entry
        → (laws.view s.world).values (tx_key ver t) ≡ some (outputs_value entry)
    unfolding get_outputs_by_tx_id
    get_outputs-reads s t entry h =
        read_outputs-reads s t entry (if_consistent-ok (read_outputs_by_tx_id b ver t) s entry h)

    pub get_block_hash-reads :
        (s : Store b) (hash : Str)
        → (get_block_hash b ver s).0 ≡ ok hash
        → (laws.view s.world).values (hash_key ver) ≡ some (hash_value hash)
    unfolding get_block_hash
    get_block_hash-reads s hash h =
        read_block_hash-reads s hash (if_consistent-ok (read_block_hash b ver) s hash h)

    pub get_block_height-reads :
        (s : Store b) (height : ℕ)
        → (get_block_height b ver s).0 ≡ ok height
        → ((laws.view s.world).values (height_key ver) ≡ some (height_value height))
          ⊎ (((laws.view s.world).values (height_key ver) ≡ none) × (height ≡ 0))
    unfolding get_block_height
    get_block_height-reads s height h =
        read_block_height-reads s height (if_consistent-ok (read_block_height b ver) s height h)

    -- A store that is not known to be consistent does not read its hash.
    pub get_block_hash-refused :
        (s : Store b) → s.is_consist ≡ false → get_block_hash b ver s ≡ (err inconsistence_state, s)
    unfolding get_block_hash if_consistent
    get_block_hash-refused s shut = rw shut refl
