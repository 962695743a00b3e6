-- ===== src/Blocks/Semaphore.antt =====
-- internal/pkg/semaphore: a channel whose filled places are the permits that are held.
use bitcoin_utxo_indexer.Prelude.{
  ℕ, zero, suc, ◌<◌, Option, none, some, arith, ◌≡◌, refl, if◌then◌else◌, ltb, sym, ap, Bool-cases,
  ltb→lt, lt→ltb, inl, inr,
}

pub record Semaphore : Type 0 where
  pub capacity : ℕ
  pub held : ℕ

-- semaphore.New
abbrev pub new_semaphore : ℕ → Semaphore
new_semaphore n = record { capacity = n; held = 0 }

-- `none` is the wait for a place in the channel.
unfoldable pub acquire : Semaphore → Option Semaphore
acquire s =
    if ltb s.held s.capacity
    then some (record { capacity = s.capacity; held = suc s.held })
    else none

release_from : ℕ → ℕ → Option Semaphore
release_from capacity zero = none
release_from capacity (suc held) = some (record { capacity = capacity; held = held })

-- `none` is the wait for a place to be filled.
unfoldable pub release : Semaphore → Option Semaphore
unfolding release_from
release s = release_from s.capacity s.held

some_held : Option Semaphore → ℕ
some_held none = 0
some_held (some p) = p.held

some_capacity : Option Semaphore → ℕ
some_capacity none = 0
some_capacity (some p) = p.capacity

pub acquire_lem :
    (s permits : Semaphore)
    → acquire s ≡ some permits
    → (s.held < s.capacity) × ((permits.held ≡ suc s.held) × (permits.capacity ≡ s.capacity))
unfolding acquire some_held some_capacity
acquire_lem s permits e = elim (Bool-cases (ltb s.held s.capacity)) [
  | inl room ↦
      let e' : some (record { capacity = s.capacity; held = suc s.held }) ≡ some permits =
        rw room at e in
      (ltb→lt s.held s.capacity room, (sym (ap some_held e'), sym (ap some_capacity e')))
  | inr full ↦ let e' : none ≡ some permits = rw full at e in absurd cc
]

release_from_lem :
    (capacity held : ℕ) (permits : Semaphore)
    → release_from capacity held ≡ some permits
    → (held ≡ suc permits.held) × (permits.capacity ≡ capacity)
unfolding release_from some_held some_capacity
release_from_lem capacity zero permits e = absurd cc
release_from_lem capacity (suc held) permits e = (ap suc (ap some_held e), sym (ap some_capacity e))

pub release_lem :
    (s permits : Semaphore)
    → release s ≡ some permits
    → (s.held ≡ suc permits.held) × (permits.capacity ≡ s.capacity)
unfolding release
release_lem s permits e = release_from_lem s.capacity s.held permits e

pub acquire_free :
    (s : Semaphore) → s.held < s.capacity → (permits : Semaphore) × (acquire s ≡ some permits)
unfolding acquire
acquire_free s room =
    (record { capacity = s.capacity; held = suc s.held }, rw (lt→ltb s.held s.capacity room) refl)

release_from_held :
    (capacity held : ℕ)
    → 0 < held
    → (permits : Semaphore) × (release_from capacity held ≡ some permits)
unfolding release_from
release_from_held capacity zero h = absurd (omega arith)
release_from_held capacity (suc held) h = (record { capacity = capacity; held = held }, refl)

pub release_held : (s : Semaphore) → 0 < s.held → (permits : Semaphore) × (release s ≡ some permits)
unfolding release
release_held s h = release_from_held s.capacity s.held h
