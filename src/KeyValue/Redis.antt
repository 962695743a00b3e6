-- ===== src/KeyValue/Redis.antt =====
-- keyvalueabstraction/providers/rediskvstore/redis.go, and Store.Flush of
-- internal/pkg/utxo/utxostore/utxostore.go over it. The client of Redis is a parameter.
pub mod Flushing
mod Tests
use bitcoin_utxo_indexer.Prelude.{
  ℕ, zero, suc, Bool, true, false, List, [], ◌∷◌, ◌++◌, Option, none, some, if◌then◌else◌,
}
use bitcoin_utxo_indexer.Prelude.Str.{Str, codes}
use bitcoin_utxo_indexer.Utxo.Outcome.{Outcome, ok, err, panic, failed}
use bitcoin_utxo_indexer.KeyValue.InMemory.{Codec}

-- What GET answers: redis.Nil, another error, or the string.
pub data Reply : Type 0 where
  nil_reply : Reply
  failed_reply : Reply
  bytes_reply : List ℕ → Reply

-- A value that MGET lists: nil, a string, or of another type.
pub data Listed : Type 0 where
  nil_listed : Listed
  bytes_listed : List ℕ → Listed
  other_listed : Listed

-- redis.Cmdable as far as it is called; `false` is an error. `next` moves a ScanIterator on and reads
-- its value, and `failed_iter` is its Err. The values of an MGET that fails are the empty list.
pub record Cmdable : Type 1 where
  pub World : Type 0
  pub Iter : Type 0
  pub del : World → Str → World × Bool
  pub get : World → Str → World × Reply
  pub set : World → Str → List ℕ → World × Bool
  pub scan : World → Str → World × Iter
  pub next : World → Iter → World × (Iter × Option Str)
  pub failed_iter : Iter → Bool
  pub mget : World → List Str → World × List Listed
  pub flush_all : World → World × Bool

pub as_error : Bool → Outcome (Unit {0})
as_error true = ok tt
as_error false = err failed

-- An empty pattern matches every key.
pub or_all : Str → Str
or_all [] = codes "*"
or_all (c ∷ pattern) = c ∷ pattern

module _ (redis : Cmdable) where
  open redis use {World, Iter}

  pub delete_key : Str → World → World × Outcome (Unit {0})
  unfolding as_error
  delete_key key w = let (w', done) = redis.del w key in (w', as_error done)

  pub flush_keys : World → World × Outcome (Unit {0})
  unfolding as_error
  flush_keys w = let (w', done) = redis.flush_all w in (w', as_error done)

  module _ (Value : Type 0) (codec : Codec Value) where
    pub decoded : Option Value → Outcome Value
    decoded none = err failed
    decoded (some v) = ok v

    -- `ok none` is a key that is not found.
    pub found_value : Reply → Outcome (Option Value)
    found_value nil_reply = ok none
    found_value failed_reply = err failed
    found_value (bytes_reply bytes) = elim (codec.unmarshal bytes) [
      | none ↦ err failed
      | some v ↦ ok (some v)
    ]

    pub get_key : Str → World → World × Outcome (Option Value)
    unfolding found_value
    get_key key w = let (w', reply) = redis.get w key in (w', found_value reply)

    pub set_encoded : Str → Option (List ℕ) → World → World × Outcome (Unit {0})
    unfolding as_error
    set_encoded key none w = (w, err failed)
    set_encoded key (some bytes) w = let (w', done) = redis.set w key bytes in (w', as_error done)

    pub set_key : Str → Value → World → World × Outcome (Unit {0})
    unfolding set_encoded
    set_key key v w = set_encoded key (codec.marshal v) w

    -- The reader of a listed key, for which redis.Nil is an error too.
    pub read_value : Reply → Outcome Value
    unfolding decoded
    read_value nil_reply = err failed
    read_value failed_reply = err failed
    read_value (bytes_reply bytes) = decoded (codec.unmarshal bytes)

    pub get_value : Str → World → World × Outcome Value
    unfolding read_value
    get_value key w = let (w', reply) = redis.get w key in (w', read_value reply)

    -- Behind the loop.
    pub iterated : Iter → World → World × Outcome (Unit {0})
    iterated i w = if redis.failed_iter i then (w, err failed) else (w, ok tt)

    -- Behind a visit, whose result says whether to stop.
    pub after_visit :
        World × Outcome Bool
        → Iter
        → (World → Option (World × Outcome (Unit {0})))
        → Option (World × Outcome (Unit {0}))
    unfolding iterated
    after_visit (w, ok false) i rest = rest w
    after_visit (w, ok true) i rest = some (iterated i w)
    after_visit (w, err e) i rest = some (w, err e)
    after_visit (w, panic) i rest = some (w, panic)

    abbrev pub Visit : Type 0
    Visit = Str → (World → World × Outcome Value) → World → World × Outcome Bool

    -- A nil function is not called.
    pub visited : Option Visit → Str → World → World × Outcome Bool
    unfolding get_value
    visited none key w = (w, ok false)
    visited (some visit) key w = visit key (λ w'. get_value key w') w

    pub moved :
        Option Visit
        → World × (Iter × Option Str)
        → (Iter → World → Option (World × Outcome (Unit {0})))
        → Option (World × Outcome (Unit {0}))
    unfolding iterated after_visit visited
    moved visit (w, (i, none)) rest = some (iterated i w)
    moved visit (w, (i, some key)) rest = after_visit (visited visit key w) i (λ w'. rest i w')

    -- The loop, with the number of keys it may still visit; `none` is a loop that is still going.
    pub list_loop : Option Visit → ℕ → Iter → World → Option (World × Outcome (Unit {0}))
    unfolding moved
    list_loop visit zero i w = none
    list_loop visit (suc n) i w = moved visit (redis.next w i) (λ i' w'. list_loop visit n i' w')

    pub list_redis_keys : ℕ → Str → Option Visit → World → Option (World × Outcome (Unit {0}))
    unfolding list_loop or_all
    list_redis_keys n pattern visit w =
        let (w', i) = redis.scan w (or_all pattern) in list_loop visit n i w'

    pub go_on : World × Outcome (Unit {0}) → World × Outcome Bool
    go_on (w, ok _) = (w, ok false)
    go_on (w, err e) = (w, err e)
    go_on (w, panic) = (w, panic)

    unfoldable pub deleting : Visit
    unfolding go_on delete_key
    deleting key read w = go_on (delete_key key w)

    pub delete_by_pattern : ℕ → Str → World → Option (World × Outcome (Unit {0}))
    unfolding list_redis_keys deleting
    delete_by_pattern n pattern w = list_redis_keys n pattern (some deleting) w

    -- `Store.Flush` of a store of this version.
    pub flush_store : ℕ → Str → World → Option (World × Outcome (Unit {0}))
    unfolding delete_by_pattern
    flush_store n db_ver w = delete_by_pattern n (db_ver ++ codes ":*") w

    module _ {A : Type 0} where
      -- What is allocated for a key, and what is then read into it.
      pub fill_listed : (Str → Option Value → A) → Str → Listed → Outcome A
      fill_listed alloc key nil_listed = ok (alloc key none)
      fill_listed alloc key (bytes_listed bytes) = elim (codec.unmarshal bytes) [
        | none ↦ err failed
        | some v ↦ ok (alloc key (some v))
      ]
      fill_listed alloc key other_listed = err failed

      pub fill_before : Outcome A → Outcome (List A) → Outcome (List A)
      fill_before (ok a) (ok as') = ok (a ∷ as')
      fill_before (ok a) (err e) = err e
      fill_before (ok a) panic = panic
      fill_before (err e) rest = err e
      fill_before panic rest = panic

      -- Over the values, with `keys[i]` beside each of them.
      pub fill_all : (Str → Option Value → A) → List Str → List Listed → Outcome (List A)
      unfolding fill_listed fill_before
      fill_all alloc keys [] = ok []
      fill_all alloc [] (v ∷ vs) = panic
      fill_all alloc (key ∷ keys) (v ∷ vs) =
          fill_before (fill_listed alloc key v) (fill_all alloc keys vs)

      -- `MulGet`; `none` is a nil function. What was filled before an error is left out.
      pub mul_get_keys :
          Option (Str → Option Value → A) → List Str → World → World × Outcome (List A)
      unfolding fill_all
      mul_get_keys none keys w = (w, err failed)
      mul_get_keys (some alloc) keys w =
          let (w', values) = redis.mget w keys in (w', fill_all alloc keys values)
