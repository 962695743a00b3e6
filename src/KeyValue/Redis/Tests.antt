-- ===== src/KeyValue/Redis/Tests.antt =====
-- A Redis of a list of entries, whose iteration skips the keys that do not match and whose MGET fails.
use bitcoin_utxo_indexer.Prelude.{
  ℕ, ◌<◌, ◌≡◌, ◌⊎◌, inl, inr, refl, arith, Bool, true, false, ◌&&◌, Bool-cases, List, [], ◌∷◌, ◌++◌,
  Option, none, some, if◌then◌else◌, length,
}
use bitcoin_utxo_indexer.Prelude.Str.{
  Str, codes, str_eq, str_eq_iff, str_eq_refl, GoMap, lookup, insert, contains,
}
use bitcoin_utxo_indexer.Utxo.Outcome.{Outcome, ok}
use bitcoin_utxo_indexer.KeyValue.InMemory.{Codec, remove}
use bitcoin_utxo_indexer.KeyValue.InMemory.Refines.{lookup-remove}
use bitcoin_utxo_indexer.KeyValue.Redis.{
  Cmdable, Reply, nil_reply, bytes_reply, flush_store, mul_get_keys,
}
use bitcoin_utxo_indexer.KeyValue.Redis.Flushing.{
  IsScanned, IsFlushed, has_prefix, has_colon, flush_store-IsFlushed,
}

abbrev plain : Codec (List ℕ)
plain = record { marshal = λ v. some v; unmarshal = λ bytes. some bytes }

-- The patterns of the tests end in an asterisk.
abbrev stem : Str → Str
stem [] = []
stem (c ∷ []) = []
stem (c ∷ d ∷ p) = c ∷ stem (d ∷ p)

stem-append : (v : Str) → stem (v ++ codes ":*") ≡ (v ++ codes ":")
stem-append [] = refl
stem-append (a ∷ []) = refl
stem-append (a ∷ b ∷ v) = rw (stem-append (b ∷ v)) refl

abbrev matches : Str → Str → Bool
matches p x = has_prefix (stem p) x

record Scan : Type 0 where
  left : List Str
  pattern : Str

abbrev keys : GoMap (List ℕ) → List Str
keys [] = []
keys ((k, v) ∷ m) = k ∷ keys m

unfoldable skip : Str → List Str → List Str × Option Str
skip p [] = ([], none)
skip p (k ∷ ks) = let rest = skip p ks in if matches p k then (ks, some k) else rest

abbrev reply : Option (List ℕ) → Reply
reply none = nil_reply
reply (some bytes) = bytes_reply bytes

abbrev entries : Cmdable
entries = record {
  World = GoMap (List ℕ);
  Iter = Scan;
  del = λ w k. (remove w k, true);
  get = λ w k. (w, reply (lookup w k));
  set = λ w k v. (insert w k v, true);
  scan = λ w p. (w, record { left = keys w; pattern = p });
  next = λ w i. (w, (record i { left = (skip i.pattern i.left).0 }, (skip i.pattern i.left).1));
  failed_iter = λ i. false;
  mget = λ w ks. (w, []);
  flush_all = λ w. ([], true);
}

keys-lookup : (w : GoMap (List ℕ)) (x : Str) → (lookup w x ≡ none) ⊎ (contains (keys w) x ≡ true)
unfolding lookup contains
keys-lookup [] x = inl refl
keys-lookup ((k, v) ∷ w) x = elim (Bool-cases (str_eq k x)) [
  | inl same ↦ inr (rw same refl)
  | inr other ↦ rw other (keys-lookup w x)
]

skip-matches : (p : Str) (ks : List Str) (k : Str) → (skip p ks).1 ≡ some k → matches p k ≡ true
unfolding skip
skip-matches p [] k h = absurd cc
skip-matches p (j ∷ ks) k h = ground (arith, skip-matches p ks k)

skip-contains :
    (p : Str) (ks : List Str) (k x : Str)
    → (skip p ks).1 ≡ some k
    → str_eq k x ≡ false
    → (contains ks x && matches p x) ≡ true
    → (contains (skip p ks).0 x && matches p x) ≡ true
unfolding skip contains
skip-contains p [] k x h other there = absurd cc
skip-contains p (j ∷ ks) k x h other there =
    ground (arith, skip-contains p ks k x, str_eq_iff j x, str_eq_iff k x)

skip_ends :
    (p : Str) (ks : List Str) (x : Str)
    → (skip p ks).1 ≡ none
    → (contains ks x && matches p x) ≡ false
unfolding skip contains
skip_ends p [] x h = refl
skip_ends p (j ∷ ks) x h = ground (arith, skip_ends p ks x, str_eq_iff j x)

length-skip :
    (p : Str) (ks : List Str) (k : Str) → (skip p ks).1 ≡ some k → length (skip p ks).0 < length ks
unfolding skip
length-skip p [] k h = absurd cc
length-skip p (j ∷ ks) k h = ground (arith, length-skip p ks k)

del_other :
    (w : GoMap (List ℕ)) (k x : Str) → str_eq k x ≡ false → lookup (remove w k) x ≡ lookup w x
del_other w k x other = rw (lookup-remove w k x, other) refl

del_done : (w : GoMap (List ℕ)) (k : Str) → lookup (remove w k) k ≡ none
del_done w k = rw (lookup-remove w k k, str_eq_refl k) refl

scan-ahead :
    (w : GoMap (List ℕ)) (p x : Str)
    → matches p x ≡ true
    → (lookup w x ≡ none) ⊎ ((contains (keys w) x && matches p x) ≡ true)
scan-ahead w p x h = elim (keys-lookup w x) [
  | inl gone ↦ inl gone
  | inr there ↦ inr (rw (there, h) refl)
]

next_ends :
    (w : GoMap (List ℕ)) (i : Scan) (x : Str)
    → (skip i.pattern i.left).1 ≡ none
    → (contains i.left x && matches i.pattern x) ≡ true
    → lookup w x ≡ none
next_ends w i x h there = absurd (let gone = skip_ends i.pattern i.left x h in cc)

abbrev entries-IsScanned : IsScanned entries
entries-IsScanned = record {
  stored = lookup;
  glob = matches;
  ahead = λ i x. contains i.left x && matches i.pattern x;
  pattern = λ i. i.pattern;
  steps = λ i. length i.left;
  del_done = λ w k h. del_done w k;
  del_other = del_other;
  scan-stored = λ w p x. refl;
  scan-pattern = λ w p. refl;
  scan-ahead = scan-ahead;
  next-stored = λ w i x. refl;
  next-pattern = λ w i. refl;
  next-glob = λ w i k. skip-matches i.pattern i.left k;
  next-ahead = λ w i k x. skip-contains i.pattern i.left k x;
  next_ends = λ w i x h h' there. next_ends w i x h there;
  next-steps = λ w i k. length-skip i.pattern i.left k;
}

abbrev two_versions : GoMap (List ℕ)
two_versions = (codes "1:t:a", 5 ∷ []) ∷ (codes "2:t:a", 6 ∷ []) ∷ []

-- The flush of version 1.
flush_store-IsFlushed_example :
    (w' : GoMap (List ℕ)) × (r : Outcome (Unit {0})) × (flush_store entries
        (List ℕ)
        plain
        3
        (codes "1")
        two_versions
      ≡ some (w', r))
    × IsFlushed (codes "1") (lookup two_versions) (lookup w') r
unfolding has_colon
flush_store-IsFlushed_example =
    flush_store-IsFlushed entries entries-IsScanned (List ℕ) plain 3 (codes "1") two_versions refl
      (λ x. rw (stem-append (codes "1")) refl) (omega arith)

version_left :
    flush_store entries (List ℕ) plain 3 (codes "1") two_versions
    ≡ some ((codes "2:t:a", 6 ∷ []) ∷ [], ok tt)
unfolding flush_store skip has_prefix str_eq remove
version_left = refl

-- A failed MGET: no error, and no value.
mget_failed :
    mul_get_keys entries (List ℕ) plain (some (λ k v. v)) (codes "1:t:a" ∷ []) two_versions
    ≡ (two_versions, ok [])
unfolding mul_get_keys
mget_failed = refl
