-- ===== src/Versions/Cleaning/Ends.antt =====
-- The loop ends with one version.
use bitcoin_utxo_indexer.Prelude.{
  ℕ, zero, suc, ◌<◌, ◌≡◌, refl, sym, ap, ◌∙◌, arith, Bool, true, false, not, ◌&&◌, Bool-cases, List,
  [], ◌∷◌, Option, some, length, inl, inr,
}
use bitcoin_utxo_indexer.Prelude.Str.{Str, str_eq, str_eq_iff, str_eq_refl, contains}
use bitcoin_utxo_indexer.Utxo.Block.{ℤ}
use bitcoin_utxo_indexer.Versions.{
  VersionSets, Manager, Answer, given, get_versions, versions_of, delete_version, after_command,
  cast_versions_from_strings, parsed_before,
}
use bitcoin_utxo_indexer.Versions.Counting.{Unrepeated, length-lt}
use bitcoin_utxo_indexer.Versions.Cleaning.{after_flush, clean_round, delete_old_versions}

-- What Redis promises of a set whose calls succeed, strconv of its two functions, and that a flush
-- leaves the versions alone. The order in which GetSet lists the members is left open.
pub record IsReliable (sets : VersionSets) (key : Str) (flush : sets.World → sets.World × Bool)
    : Type 0 where
  pub members : sets.World → Str → Bool
  pub listing : sets.World → List Str
  pub get_set_some : (w : sets.World) → (sets.get_set w key).1 ≡ some (listing w)
  pub get_set-members : (w : sets.World) (x : Str) → members (sets.get_set w key).0 x ≡ members w x
  pub contains-listing : (w : sets.World) (x : Str) → contains (listing w) x ≡ members w x
  pub unrepeated : (w : sets.World) → Unrepeated (listing w)
  pub removed : (w : sets.World) (v : Str) → (sets.remove_from_set w key v).1 ≡ true
  pub removed-members :
      (w : sets.World) (v x : Str)
      → members (sets.remove_from_set w key v).0 x ≡ (not (str_eq v x) && members w x)
  pub flushed : (w : sets.World) → (flush w).1 ≡ true
  pub flush-members : (w : sets.World) (x : Str) → members (flush w).0 x ≡ members w x
  pub parse-format : (v : ℤ) → sets.parse_int (sets.format_int v) ≡ some v

-- Every member is the decimal form of a version.
abbrev pub AreVersions : (sets : VersionSets) → (Str → Bool) → Type 0
AreVersions sets members = (x : Str) → members x ≡ true → (v : ℤ) × (x ≡ sets.format_int v)

-- One of the members of `before` is left, if there were any.
pub record IsCleaned (before after : Str → Bool) : Type 0 where
  pub single : (x y : Str) → after x ≡ true → after y ≡ true → x ≡ y
  pub kept : (x : Str) → after x ≡ true → before x ≡ true
  pub left : (x : Str) → before x ≡ true → (y : Str) × (after y ≡ true)

module _ (sets : VersionSets) (m : Manager) (flush : sets.World → sets.World × Bool)
    (laws : IsReliable sets m.version_counter_name flush) where
  open sets use {World}
  open laws use {members, listing}

  -- The listed versions, as numbers.
  abbrev Numbers : List Str → List ℤ → Type 0
  Numbers [] [] = Unit
  Numbers [] (v ∷ vs) = ⊥
  Numbers (s ∷ ss) [] = ⊥
  Numbers (s ∷ ss) (v ∷ vs) = (s ≡ sets.format_int v) × Numbers ss vs

  parsed :
      (versions : List Str)
      → ((x : Str) → contains versions x ≡ true → (v : ℤ) × (x ≡ sets.format_int v))
      → (vs : List ℤ) × (cast_versions_from_strings sets versions ≡ given vs) × Numbers versions vs
  unfolding cast_versions_from_strings contains parsed_before
  parsed [] h = ([], refl, tt)
  parsed (s ∷ versions) h =
      let (v, e) = h s (rw (str_eq_refl s) refl) in
      let (vs, cast, numbers) = parsed versions (λ x there. h x (elim (Bool-cases (str_eq s x)) [
        | inl same ↦ rw same refl
        | inr other ↦ rw other there
      ])) in
      (v ∷ vs, rw (cast, ap sets.parse_int e ∙ laws.parse-format v) refl, (e, numbers))

  -- What `removed-members` says of one member.
  still_there : (s x : Str) (old : Bool) → (not (str_eq s x) && old) ≡ true → old ≡ true
  still_there s x old h = elim (Bool-cases (str_eq s x)) [
    | inl same ↦ absurd (let h' : false ≡ true = rw same at h in cc)
    | inr other ↦ rw other at h
  ]

  abbrev Cleaned : World → Option (World × Answer (Unit {0})) → Type 0
  Cleaned w result =
      (w' : World) × (result ≡ some (w', given tt)) × IsCleaned (members w) (members w')

  -- A listing of one member or none.
  at_most_one :
      (w w' : World)
      → ((x : Str) → members w' x ≡ members w x)
      → ((x y : Str) → members w x ≡ true → members w y ≡ true → x ≡ y)
      → Cleaned w (some (w', given tt))
  at_most_one w w' same one = (
    w',
    refl,
    record {
      single = λ x y hx hy. one x y (sym (same x) ∙ hx) (sym (same y) ∙ hy);
      kept = λ x h. sym (same x) ∙ h;
      left = λ x h. (x, same x ∙ h);
    },
  )

  -- The world behind a flush and a deletion of the version `s`.
  abbrev deleted : World → Str → World
  deleted w s = (sets.remove_from_set (flush w).0 m.version_counter_name s).0

  deleted-members :
      (w : World) (s x : Str) → members (deleted w s) x ≡ (not (str_eq s x) && members w x)
  deleted-members w s x =
      laws.removed-members (flush w).0 s x
      ∙ ap (λ (old : Bool). not (str_eq s x) && old) (laws.flush-members w x)

  delete_version-done :
      (v : ℤ) (w : World)
      → delete_version sets m v w
        ≡ ((sets.remove_from_set w m.version_counter_name (sets.format_int v)).0, given tt)
  unfolding delete_version after_command
  delete_version-done v w = rw (after_command, laws.removed w (sets.format_int v))

  after_flush-deleted :
      (v : ℤ) (w : World) (rest : World → Option (World × Answer (Unit {0})))
      → after_flush sets m flush v (flush w) rest ≡ rest (deleted w (sets.format_int v))
  unfolding after_flush
  after_flush-deleted v w rest =
      let done = delete_version-done v (flush w).0 in
      rw (laws.flushed w, ap (λ (p : World × Answer (Unit {0})). p.1) done)
        (ap (λ (p : World × Answer (Unit {0})). rest p.0) done)

  only_one : (s x : Str) → contains (s ∷ []) x ≡ true → x ≡ s
  unfolding contains
  only_one s x h = elim (Bool-cases (str_eq s x)) [
    | inl same ↦ sym ((str_eq_iff s x).0 same)
    | inr other ↦ absurd (let h' : false ≡ true = rw other at h in cc)
  ]

  different : (s s' : Str) (names : List Str) → Unrepeated (s ∷ s' ∷ names) → str_eq s s' ≡ false
  unfolding contains
  different s s' names u = elim (Bool-cases (str_eq s s')) [
    | inr other ↦ other
    | inl same ↦
        let e : s ≡ s' = (str_eq_iff s s').0 same in
        absurd (let h : true ≡ false = rw (e, str_eq_refl s') at (u.0) in cc)
  ]

  -- What is cleaned behind a deletion is cleaned as a whole.
  deletion-IsCleaned :
      (w w₁ w' : World) (s s' : Str)
      → ((x : Str) → members w₁ x ≡ members w x)
      → str_eq s s' ≡ false
      → members w s' ≡ true
      → IsCleaned (members (deleted w₁ s)) (members w')
      → IsCleaned (members w) (members w')
  deletion-IsCleaned w w₁ w' s s' same other there c = record {
    single = c.single;
    kept = λ x h.
        sym (same x) ∙ still_there s x (members w₁ x) (sym (deleted-members w₁ s x) ∙ c.kept x h);
    left = λ x h. c.left s' (deleted-members w₁ s s' ∙ rw (other, same s' ∙ there) refl);
  }

  -- One round over the listing `names`, whose numbers are `vs`.
  round_cleans :
      (w w₁ : World) (names : List Str) (vs : List ℤ)
      (rest : World → Option (World × Answer (Unit {0})))
      → ((x : Str) → members w₁ x ≡ members w x)
      → ((x : Str) → contains names x ≡ members w x)
      → Unrepeated names
      → Numbers names vs
      → ((s : Str) → contains names s ≡ true → Cleaned (deleted w₁ s) (rest (deleted w₁ s)))
      → Cleaned w (clean_round sets m flush (given vs) w₁ rest)
  unfolding clean_round contains
  round_cleans w w₁ [] [] rest same listed u numbers again =
      at_most_one w w₁ same (λ x y hx hy. absurd (let h : false ≡ true = listed x ∙ hx in cc))
  round_cleans w w₁ [] (v ∷ vs) rest same listed u numbers again = absurd numbers
  round_cleans w w₁ (s ∷ names) [] rest same listed u numbers again = absurd numbers
  round_cleans w w₁ (s ∷ []) (v ∷ []) rest same listed u numbers again =
      at_most_one w w₁ same
        (λ x y hx hy. only_one s x (listed x ∙ hx) ∙ sym (only_one s y (listed y ∙ hy)))
  round_cleans w w₁ (s ∷ []) (v ∷ v' ∷ vs) rest same listed u numbers again = absurd numbers.1
  round_cleans w w₁ (s ∷ s' ∷ names) (v ∷ []) rest same listed u numbers again = absurd numbers.1
  round_cleans w w₁ (s ∷ s' ∷ names) (v ∷ v' ∷ vs) rest same listed u (e, numbers) again =
      let (w', ended, c) = again s (rw (str_eq_refl s) refl) in
      rw (after_flush-deleted v w₁ rest, ← e)
        (
          w',
          ended,
          deletion-IsCleaned w w₁ w' s s' same (different s s' names u)
              (sym (listed s') ∙ rw (different s s' names u, str_eq_refl s') refl) c,
        )

  remains :
      (w : World) (s x : Str)
      → members (deleted (sets.get_set w m.version_counter_name).0 s) x ≡ true
      → members w x ≡ true
  remains w s x h =
      let w₁ = (sets.get_set w m.version_counter_name).0 in
      sym (laws.get_set-members w x)
      ∙ still_there s x (members w₁ x) (sym (deleted-members w₁ s x) ∙ h)

  fewer :
      (w : World) (s : Str)
      → contains (listing w) s ≡ true
      → length (listing (deleted (sets.get_set w m.version_counter_name).0 s)) < length (listing w)
  fewer w s there =
      let w₁ = (sets.get_set w m.version_counter_name).0 in
      let w₂ = deleted w₁ s in
      length-lt (listing w₂) (listing w) s (laws.unrepeated w₂)
        (laws.contains-listing w₂ s ∙ deleted-members w₁ s s ∙ rw (str_eq_refl s) refl) there
        (λ x h. laws.contains-listing w x ∙ remains w s x (sym (laws.contains-listing w₂ x) ∙ h))

  -- With more rounds than members, whatever the order of the listings, the loop ends without an error
  -- and leaves one of the versions, if there were any.
  pub delete_old_versions-IsCleaned :
      (rounds : ℕ) (w : World)
      → length (listing w) < rounds
      → AreVersions sets (members w)
      → (w' : World) × (delete_old_versions sets m flush rounds w ≡ some (w', given tt))
        × IsCleaned (members w) (members w')
  unfolding delete_old_versions get_versions versions_of
  delete_old_versions-IsCleaned zero w h versions = absurd (omega arith)
  delete_old_versions-IsCleaned (suc rounds) w h versions =
      let w₁ = (sets.get_set w m.version_counter_name).0 in
      let (vs, cast, numbers) =
        parsed (listing w) (λ x there. versions x (sym (laws.contains-listing w x) ∙ there)) in
      rw (laws.get_set_some w, cast)
        (round_cleans w w₁ (listing w) vs (λ w''. delete_old_versions sets m flush rounds w'')
          (laws.get_set-members w) (laws.contains-listing w) (laws.unrepeated w) numbers
          (λ s there.
            delete_old_versions-IsCleaned rounds (deleted w₁ s)
              (let less = fewer w s there in omega arith)
              (λ x old. versions x (remains w s x old))))
