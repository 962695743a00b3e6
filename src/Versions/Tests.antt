-- ===== src/Versions/Tests.antt =====
-- A set of the versions 1 and 2 that lists the newer one first, and a form of numbers that is read
-- back.
use bitcoin_utxo_indexer.Prelude.{
  ℕ, ◌≡◌, refl, sym, arith, Bool, true, false, not, ◌&&◌, ◌||◌, List, [], ◌∷◌, ◌++◌, Option, none,
  some, if◌then◌else◌, inl, inr, Bool-cases, ◌==◌, ◌^◌, ◌-◌,
}
use bitcoin_utxo_indexer.Prelude.Str.{Str, str_eq, str_eq_iff, contains}
use bitcoin_utxo_indexer.Utxo.Block.{ℤ, pos, negsuc}
use bitcoin_utxo_indexer.Versions.{
  VersionSets, Manager, new_manager, given, add64, get_versions, delete_version,
  cast_versions_from_strings,
}
use bitcoin_utxo_indexer.Versions.Counting.{Unrepeated}
use bitcoin_utxo_indexer.Versions.Cleaning.{delete_old_versions}
use bitcoin_utxo_indexer.Versions.Cleaning.Ends.{
  IsReliable, IsCleaned, AreVersions, delete_old_versions-IsCleaned,
}

abbrev format : ℤ → Str
format (pos n) = 0 ∷ n ∷ []
format (negsuc n) = 1 ∷ n ∷ []

abbrev sign : ℕ → ℕ → Option ℤ
sign s n = if s == 0 then some (pos n) else some (negsuc n)

abbrev parse : Str → Option ℤ
parse [] = none
parse (s ∷ []) = none
parse (s ∷ n ∷ rest) = sign s n

record Flags : Type 0 where
  one : Bool
  two : Bool

abbrev pick : Bool → Str → List Str
pick true s = s ∷ []
pick false s = []

abbrev listing : Flags → List Str
listing w = pick w.two (format (pos 2)) ++ pick w.one (format (pos 1))

abbrev remove : Flags → Str → Flags
remove w v = record {
  one = not (str_eq v (format (pos 1))) && w.one;
  two = not (str_eq v (format (pos 2))) && w.two;
}

abbrev flags : VersionSets
flags = record {
  World = Flags;
  get_set = λ w k. (w, some (listing w));
  add_to_set = λ w k v. (w, true);
  remove_from_set = λ w k v. (remove w v, true);
  parse_int = parse;
  format_int = format;
}

picked :
    (v s x : Str) (there : Bool)
    → contains (pick (not (str_eq v s) && there) s) x
      ≡ (not (str_eq v x) && contains (pick there s) x)
unfolding contains
picked v s x true = ground (arith, str_eq_iff v s, str_eq_iff v x, str_eq_iff s x)
picked v s x false = ground arith

two_picked :
    (a b : Bool) (s t x : Str)
    → contains (pick a s ++ pick b t) x ≡ (contains (pick a s) x || contains (pick b t) x)
unfolding contains
two_picked true b s t x = ground arith
two_picked false b s t x = refl

removed-members :
    (w : Flags) (v x : Str)
    → contains (listing (remove w v)) x ≡ (not (str_eq v x) && contains (listing w) x)
removed-members w v x =
    rw
      (
        two_picked (remove w v).two (remove w v).one (format (pos 2)) (format (pos 1)) x,
        two_picked w.two w.one (format (pos 2)) (format (pos 1)) x,
        picked v (format (pos 2)) x w.two,
        picked v (format (pos 1)) x w.one,
      )
      (ground arith)

unrepeated : (a b : Bool) → Unrepeated (pick a (format (pos 2)) ++ pick b (format (pos 1)))
unfolding contains str_eq
unrepeated true true = (refl, (refl, tt))
unrepeated true false = (refl, tt)
unrepeated false true = (refl, tt)
unrepeated false false = tt

parse-format : (v : ℤ) → parse (format v) ≡ some v
parse-format (pos n) = refl
parse-format (negsuc n) = refl

abbrev manager : Manager
manager = new_manager (0 ∷ [])

abbrev flush : Flags → Flags × Bool
flush w = (w, true)

abbrev flags-IsReliable : IsReliable flags manager.version_counter_name flush
flags-IsReliable = record {
  members = λ w x. contains (listing w) x;
  listing = listing;
  get_set_some = λ w. refl;
  get_set-members = λ w x. refl;
  contains-listing = λ w x. refl;
  unrepeated = λ w. unrepeated w.two w.one;
  removed = λ w v. refl;
  removed-members = removed-members;
  flushed = λ w. refl;
  flush-members = λ w x. refl;
  parse-format = parse-format;
}

abbrev both : Flags
both = record { one = true; two = true }

both-AreVersions : AreVersions flags (λ x. contains (listing both) x)
unfolding contains
both-AreVersions x h = elim (Bool-cases (str_eq (format (pos 2)) x)) [
  | inl same ↦ (pos 2, sym ((str_eq_iff (format (pos 2)) x).0 same))
  | inr other ↦ elim (Bool-cases (str_eq (format (pos 1)) x)) [
    | inl same' ↦ (pos 1, sym ((str_eq_iff (format (pos 1)) x).0 same'))
    | inr other' ↦ absurd (let h' : false ≡ true = rw (other, other') at h in cc)
  ]
]

delete_old_versions-IsCleaned_example :
    (w' : Flags) × (delete_old_versions flags manager flush 3 both ≡ some (w', given tt))
    × IsCleaned (λ x. contains (listing both) x) (λ x. contains (listing w') x)
delete_old_versions-IsCleaned_example =
    delete_old_versions-IsCleaned flags manager flush flags-IsReliable 3 both (omega arith)
      both-AreVersions

-- The newer version was listed first: it is the one that is deleted.
older_left :
    delete_old_versions flags manager flush 3 both
    ≡ some (record { one = true; two = false }, given tt)
unfolding delete_old_versions get_versions delete_version cast_versions_from_strings str_eq
older_left = refl

largest_version : add64 (pos (2 ^ 63 - 1)) (pos 1) ≡ negsuc (2 ^ 63 - 1)
unfolding add64
largest_version = refl
