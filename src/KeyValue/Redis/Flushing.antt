-- ===== src/KeyValue/Redis/Flushing.antt =====
-- What Store.Flush removes, and what it keeps.
use bitcoin_utxo_indexer.Prelude.{
  ℕ, zero, suc, ◌<◌, ◌≡◌, ◌⊎◌, inl, inr, refl, sym, ◌∙◌, arith, Bool, true, false, Bool-cases, List,
  [], ◌∷◌, ◌++◌, Option, none, some, ◌==◌, ◌&&◌, ◌||◌,
}
use bitcoin_utxo_indexer.Prelude.Str.{Str, codes, str_eq, str_eq_iff}
use bitcoin_utxo_indexer.Utxo.Outcome.{Outcome, ok, err, failed}
use bitcoin_utxo_indexer.Utxo.Key.{StorageKey, to_string}
use bitcoin_utxo_indexer.KeyValue.InMemory.{Codec}
use bitcoin_utxo_indexer.KeyValue.Redis.{
  Cmdable, as_error, delete_key, iterated, after_visit, visited, moved, list_loop, or_all, go_on,
  deleting, delete_by_pattern, list_redis_keys, flush_store,
}

-- strings.HasPrefix, for the meaning of a pattern that ends in an asterisk.
unfoldable pub has_prefix : Str → Str → Bool
has_prefix [] s = true
has_prefix (a ∷ p) [] = false
has_prefix (a ∷ p) (b ∷ s) = a == b && has_prefix p s

-- What Redis documents of DEL and of an iteration with SCAN: a key that is there from its start on is
-- returned before its end, whatever else is deleted on the way, and only keys that match are. Of the
-- deletions that fail nothing is asked but that they leave other keys alone.
pub record IsScanned (redis : Cmdable) : Type 0 where
  pub stored : redis.World → Str → Option (List ℕ)
  pub glob : Str → Str → Bool
  pub ahead : redis.Iter → Str → Bool
  pub pattern : redis.Iter → Str
  pub steps : redis.Iter → ℕ
  pub del_done :
      (w : redis.World) (k : Str) → (redis.del w k).1 ≡ true → stored (redis.del w k).0 k ≡ none
  pub del_other :
      (w : redis.World) (k x : Str) → str_eq k x ≡ false → stored (redis.del w k).0 x ≡ stored w x
  pub scan-stored : (w : redis.World) (p x : Str) → stored (redis.scan w p).0 x ≡ stored w x
  pub scan-pattern : (w : redis.World) (p : Str) → pattern (redis.scan w p).1 ≡ p
  pub scan-ahead :
      (w : redis.World) (p x : Str)
      → glob p x ≡ true
      → (stored w x ≡ none) ⊎ (ahead (redis.scan w p).1 x ≡ true)
  pub next-stored :
      (w : redis.World) (i : redis.Iter) (x : Str) → stored (redis.next w i).0 x ≡ stored w x
  pub next-pattern : (w : redis.World) (i : redis.Iter) → pattern (redis.next w i).1.0 ≡ pattern i
  pub next-glob :
      (w : redis.World) (i : redis.Iter) (k : Str)
      → (redis.next w i).1.1 ≡ some k
      → glob (pattern i) k ≡ true
  pub next-ahead :
      (w : redis.World) (i : redis.Iter) (k x : Str)
      → (redis.next w i).1.1 ≡ some k
      → str_eq k x ≡ false
      → ahead i x ≡ true
      → ahead (redis.next w i).1.0 x ≡ true
  pub next_ends :
      (w : redis.World) (i : redis.Iter) (x : Str)
      → (redis.next w i).1.1 ≡ none
      → redis.failed_iter (redis.next w i).1.0 ≡ false
      → ahead i x ≡ true
      → stored w x ≡ none
  pub next-steps :
      (w : redis.World) (i : redis.Iter) (k : Str)
      → (redis.next w i).1.1 ≡ some k
      → steps (redis.next w i).1.0 < steps i

-- A version has no colon; the ones that the migration manager gives are decimals.
unfoldable pub has_colon : Str → Bool
has_colon [] = false
has_colon (c ∷ s) = c == b':' || has_colon s

has_prefix-own : (v s : Str) → has_prefix (v ++ codes ":") (v ++ (b':' ∷ s)) ≡ true
unfolding has_prefix
has_prefix-own [] s = refl
has_prefix-own (a ∷ v) s = ground (arith, has_prefix-own v s)

has_prefix-other :
    (v u s : Str)
    → has_colon v ≡ false
    → has_colon u ≡ false
    → str_eq u v ≡ false
    → has_prefix (v ++ codes ":") (u ++ (b':' ∷ s)) ≡ false
unfolding has_prefix has_colon str_eq
has_prefix-other [] [] s hv hu h = absurd cc
has_prefix-other [] (b ∷ u) s hv hu h = ground arith
has_prefix-other (a ∷ v) [] s hv hu h = ground arith
has_prefix-other (a ∷ v) (b ∷ u) s hv hu h = ground (arith, has_prefix-other v u s)

or_all-append : (v : Str) → or_all (v ++ codes ":*") ≡ (v ++ codes ":*")
unfolding or_all
or_all-append [] = refl
or_all-append (c ∷ v) = refl

-- The keys of the version `db_ver` are removed, where no error is returned, and those of other
-- versions are what they were in any case.
pub record IsFlushed (db_ver : Str) (before after : Str → Option (List ℕ)) (r : Outcome (Unit {0}))
    : Type 0 where
  pub own : r ≡ ok tt → (k : StorageKey) → k.db_ver ≡ db_ver → after (to_string k) ≡ none
  pub kept :
      (k : StorageKey)
      → has_colon k.db_ver ≡ false
      → str_eq k.db_ver db_ver ≡ false
      → after (to_string k) ≡ before (to_string k)
  pub returned : (r ≡ ok tt) ⊎ (r ≡ err failed)

module _ (redis : Cmdable) (laws : IsScanned redis) where
  open redis use {World, Iter}
  open laws use {stored, glob, ahead, pattern, steps}

  -- Between `w` and `w'` only keys of `gone` were touched, and removed where no error is returned.
  record Emptied (gone : Str → Bool) (w w' : World) (r : Outcome (Unit {0})) : Type 0 where
    others : (x : Str) → gone x ≡ false → stored w' x ≡ stored w x
    emptied : r ≡ ok tt → (x : Str) → gone x ≡ true → stored w' x ≡ none
    returned : (r ≡ ok tt) ⊎ (r ≡ err failed)

  abbrev EndsEmptied : (Str → Bool) → World → Option (World × Outcome (Unit {0})) → Type 0
  EndsEmptied gone w result =
      (w' : World) × (r : Outcome (Unit {0})) × (result ≡ some (w', r)) × Emptied gone w w' r

  -- Every key that the iteration owes is ahead of it.
  abbrev Owed : Str → World → Iter → Type 0
  Owed p w i = (x : Str) → glob p x ≡ true → (stored w x ≡ none) ⊎ (ahead i x ≡ true)

  -- Behind `next` and a deletion of `k`.
  abbrev behind : World → Iter → Str → World
  behind w i k = (redis.del (redis.next w i).0 k).0

  -- A key that matches is not one that does not.
  apart : (p k x : Str) → glob p k ≡ true → glob p x ≡ false → str_eq k x ≡ false
  apart p k x hk hx = elim (Bool-cases (str_eq k x)) [
    | inr other ↦ other
    | inl same ↦
        let e : k ≡ x = (str_eq_iff k x).0 same in
        absurd (let h : true ≡ false = sym hk ∙ rw e hx in cc)
  ]

  behind-other :
      (w : World) (i : Iter) (k x : Str) → str_eq k x ≡ false → stored (behind w i k) x ≡ stored w x
  behind-other w i k x other = laws.del_other (redis.next w i).0 k x other ∙ laws.next-stored w i x

  behind-Owed :
      (p : Str) (w : World) (i : Iter) (k : Str)
      → (redis.next w i).1.1 ≡ some k
      → (redis.del (redis.next w i).0 k).1 ≡ true
      → Owed p w i
      → Owed p (behind w i k) (redis.next w i).1.0
  behind-Owed p w i k next done owed x hx = elim (Bool-cases (str_eq k x)) [
    | inl same ↦
        let e : k ≡ x = (str_eq_iff k x).0 same in
        inl (rw (← e) (laws.del_done (redis.next w i).0 k done))
    | inr other ↦ elim (owed x hx) [
      | inl gone ↦ inl (behind-other w i k x other ∙ gone)
      | inr waits ↦ inr (laws.next-ahead w i k x next other waits)
    ]
  ]

  -- What is emptied behind a deletion is emptied as a whole.
  behind-Emptied :
      (p : Str) (w : World) (i : Iter) (k : Str) (w' : World) (r : Outcome (Unit {0}))
      → glob p k ≡ true
      → Emptied (glob p) (behind w i k) w' r
      → Emptied (glob p) w w' r
  behind-Emptied p w i k w' r hk e = record {
    others = λ x hx. e.others x hx ∙ behind-other w i k x (apart p k x hk hx);
    emptied = e.emptied;
    returned = e.returned;
  }

  module _ (Value : Type 0) (codec : Codec Value) where
    iterated-Emptied :
        (p : Str) (w : World) (i : Iter) (broke : Bool)
        → (redis.next w i).1.1 ≡ none
        → redis.failed_iter (redis.next w i).1.0 ≡ broke
        → Owed p w i
        → EndsEmptied
            (glob p)
            w
            (some (iterated redis Value codec (redis.next w i).1.0 (redis.next w i).0))
    unfolding iterated
    iterated-Emptied p w i true next e owed = rw e (
      (redis.next w i).0,
      err failed,
      refl,
      record {
        others = λ x hx. laws.next-stored w i x;
        emptied = λ h. absurd cc;
        returned = inr refl;
      },
    )
    iterated-Emptied p w i false next e owed = rw e (
      (redis.next w i).0,
      ok tt,
      refl,
      record {
        others = λ x hx. laws.next-stored w i x;
        emptied = λ h x hx.
            laws.next-stored w i x
            ∙ elim (owed x hx) [ inl gone ↦ gone | inr waits ↦ laws.next_ends w i x next e waits ];
        returned = inl refl;
      },
    )

    deletion-Emptied :
        (p : Str) (w : World) (i : Iter) (k : Str) (done : Bool)
        (rest : World → Option (World × Outcome (Unit {0})))
        → glob p k ≡ true
        → (redis.del (redis.next w i).0 k).1 ≡ done
        → (done ≡ true → EndsEmptied (glob p) (behind w i k) (rest (behind w i k)))
        → EndsEmptied (glob p) w (
            after_visit redis Value codec
              (go_on redis Value codec (behind w i k, as_error done))
              (redis.next w i).1.0
              rest)
    unfolding after_visit as_error go_on
    deletion-Emptied p w i k true rest hk e again =
        let (w', r, ended, emptied) = again refl in
        (w', r, ended, behind-Emptied p w i k w' r hk emptied)
    deletion-Emptied p w i k false rest hk e again = (
      behind w i k,
      err failed,
      refl,
      record {
        others = λ x hx. behind-other w i k x (apart p k x hk hx);
        emptied = λ h. absurd cc;
        returned = inr refl;
      },
    )

    round_empties :
        (p : Str) (w : World) (i : Iter) (key : Option Str)
        (rest : Iter → World → Option (World × Outcome (Unit {0})))
        → (redis.next w i).1.1 ≡ key
        → pattern i ≡ p
        → Owed p w i
        → ((k : Str)
            → key ≡ some k
            → (redis.del (redis.next w i).0 k).1 ≡ true
            → EndsEmptied (glob p) (behind w i k) (rest (redis.next w i).1.0 (behind w i k)))
        → EndsEmptied (glob p) w (
            moved redis Value codec
              (some (deleting redis Value codec))
              ((redis.next w i).0, ((redis.next w i).1.0, key))
              rest)
    unfolding moved visited deleting delete_key
    round_empties p w i none rest next same owed again = iterated-Emptied p w i _ next refl owed
    round_empties p w i (some k) rest next same owed again =
        deletion-Emptied p w i k (redis.del (redis.next w i).0 k).1
          (λ w'. rest (redis.next w i).1.0 w') (rw (← same) (laws.next-glob w i k next)) refl
          (again k refl)

    loop_empties :
        (n : ℕ) (p : Str) (w : World) (i : Iter)
        → steps i < n
        → pattern i ≡ p
        → Owed p w i
        → EndsEmptied
            (glob p)
            w
            (list_loop redis Value codec (some (deleting redis Value codec)) n i w)
    unfolding list_loop
    loop_empties zero p w i h same owed = absurd (omega arith)
    loop_empties (suc n) p w i h same owed =
        round_empties p w i _
          (λ i' w'. list_loop redis Value codec (some (deleting redis Value codec)) n i' w') refl
          same owed
          (λ k next done.
            loop_empties n p (behind w i k) (redis.next w i).1.0
              (let less = laws.next-steps w i k next in omega arith) (laws.next-pattern w i ∙ same)
              (behind-Owed p w i k next done owed))

    Emptied-IsFlushed :
        (db_ver : Str) (w w' : World) (r : Outcome (Unit {0}))
        → has_colon db_ver ≡ false
        → ((x : Str) → glob (db_ver ++ codes ":*") x ≡ has_prefix (db_ver ++ codes ":") x)
        → Emptied (glob (db_ver ++ codes ":*")) w w' r
        → IsFlushed db_ver (stored w) (stored w') r
    unfolding to_string
    Emptied-IsFlushed db_ver w w' r plain literal e = record {
      own = λ h k same. e.emptied h _ (literal _ ∙ rw same (has_prefix-own db_ver _));
      kept = λ k simple other.
          e.others _ (literal _ ∙ has_prefix-other db_ver k.db_ver _ plain simple other);
      returned = e.returned;
    }

    -- With more rounds than the iteration has keys, `Store.Flush` ends, and does not panic: where it
    -- returns nil no key of the version is left, and the keys of other versions stay in any case.
    pub flush_store-IsFlushed :
        (n : ℕ) (db_ver : Str) (w : World)
        → has_colon db_ver ≡ false
        → ((x : Str) → glob (db_ver ++ codes ":*") x ≡ has_prefix (db_ver ++ codes ":") x)
        → steps (redis.scan w (db_ver ++ codes ":*")).1 < n
        → (w' : World) × (r : Outcome (Unit {0})) × (flush_store redis Value codec n db_ver w
            ≡ some (w', r))
          × IsFlushed db_ver (stored w) (stored w') r
    unfolding flush_store delete_by_pattern list_redis_keys
    flush_store-IsFlushed n db_ver w plain literal h =
        let p = db_ver ++ codes ":*" in
        let w₁ = (redis.scan w p).0 in
        let (w', r, ended, e) =
          loop_empties n p w₁ (redis.scan w p).1 h (laws.scan-pattern w p) (λ x hx.
            elim (laws.scan-ahead w p x hx) [
              | inl gone ↦ inl (laws.scan-stored w p x ∙ gone)
              | inr waits ↦ inr waits
            ]) in
        rw (or_all-append db_ver) (
          w',
          r,
          ended,
          Emptied-IsFlushed db_ver w w' r plain literal (record {
            others = λ x hx. e.others x hx ∙ laws.scan-stored w p x;
            emptied = e.emptied;
            returned = e.returned;
          }),
        )
