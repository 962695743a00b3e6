-- ===== src/Versions.antt =====
-- internal/pkg/migrationmanager: the versions of the database in a Redis set. An int64 is an integer
-- with its wrap-around written out; the set's commands and strconv are parameters.
pub mod Cleaning
pub mod Counting
mod Tests
use bitcoin_utxo_indexer.Prelude.{
  ℕ, zero, suc, ◌+◌, ◌-◌, ◌%◌, ◌^◌, ◌≡◌, Bool, true, false, List, [], ◌∷◌, ◌++◌, Option, none, some,
  ltb, if◌then◌else◌,
}
use bitcoin_utxo_indexer.Prelude.Str.{Str, codes, contains}
use bitcoin_utxo_indexer.Utxo.Block.{ℤ, pos, negsuc}

-- The sum of two int64, by their 64 bits.
pub to_bits : ℤ → ℕ
to_bits (pos n) = n % 2 ^ 64
to_bits (negsuc n) = 2 ^ 64 - 1 - n % 2 ^ 64

pub of_bits : ℕ → ℤ
of_bits u = if ltb u (2 ^ 63) then pos u else negsuc (2 ^ 64 - 1 - u)

unfoldable pub add64 : ℤ → ℤ → ℤ
unfolding to_bits of_bits
add64 a b = of_bits ((to_bits a + to_bits b) % 2 ^ 64)

-- `id > 0`
abbrev pub is_positive : ℤ → Bool
is_positive (pos zero) = false
is_positive (pos (suc n)) = true
is_positive (negsuc n) = false

-- The three sentinel errors, and any other.
pub data VersionError : Type 0 where
  migration_id_already_set : VersionError
  migration_id_not_set : VersionError
  migration_not_inited : VersionError
  version_failed : VersionError

pub data Answer {ℓ} (A : Type ℓ) : Type ℓ where
  given : A → Answer A
  refused : VersionError → Answer A

-- `sets.Sets` as far as it is called, strconv.ParseInt in base 10 and FormatInt; `none` and `false`
-- are errors.
pub record VersionSets : Type 1 where
  pub World : Type 0
  pub get_set : World → Str → World × Option (List Str)
  pub add_to_set : World → Str → Str → World × Bool
  pub remove_from_set : World → Str → Str → World × Bool
  pub parse_int : Str → Option ℤ
  pub format_int : ℤ → Str

pub record Manager : Type 0 where
  pub version_counter_name : Str
  pub migration_id : ℤ

abbrev pub new_manager : Str → Manager
new_manager name = record {
  version_counter_name = codes "migration_versions:" ++ name;
  migration_id = pos 0;
}

pub set_migration_id : Manager → ℤ → Manager × Answer (Unit {0})
set_migration_id m id =
    if is_positive m.migration_id
    then (m, refused migration_id_already_set)
    else (record m { migration_id = id }, given tt)

abbrev pub default_version : ℤ
default_version = pos 1

module _ (sets : VersionSets) where
  open sets use {World, get_set, add_to_set, remove_from_set, parse_int, format_int}

  pub parsed_before : Option ℤ → Answer (List ℤ) → Answer (List ℤ)
  parsed_before none rest = refused version_failed
  parsed_before (some v) (given vs) = given (v ∷ vs)
  parsed_before (some v) (refused e) = refused e

  unfoldable pub cast_versions_from_strings : List Str → Answer (List ℤ)
  unfolding parsed_before
  cast_versions_from_strings [] = given []
  cast_versions_from_strings (s ∷ versions) =
      parsed_before (parse_int s) (cast_versions_from_strings versions)

  pub versions_of : Option (List Str) → Answer (List ℤ)
  versions_of none = refused version_failed
  versions_of (some versions) = cast_versions_from_strings versions

  pub get_versions : Manager → World → World × Answer (List ℤ)
  unfolding versions_of
  get_versions m w = let (w', r) = get_set w m.version_counter_name in (w', versions_of r)

  pub first_version : Answer (List ℤ) → Answer ℤ
  first_version (given []) = refused migration_not_inited
  first_version (given (v ∷ vs)) = given v
  first_version (refused e) = refused e

  pub get_oldest_version : Manager → World → World × Answer ℤ
  unfolding first_version
  get_oldest_version m w = let (w', r) = get_versions m w in (w', first_version r)

  pub with_migration : Manager → Answer ℤ → Answer ℤ
  with_migration m (given oldest) = given (add64 oldest m.migration_id)
  with_migration m (refused e) = refused e

  pub get_version : Manager → World → World × Answer ℤ
  unfolding with_migration
  get_version m w = let (w', r) = get_oldest_version m w in (w', with_migration m r)

  -- A command on the set, and the value that is returned when it does not fail.
  pub after_command {ℓ} : {A : Type ℓ} → World × Bool → A → World × Answer A
  after_command (w, true) a = (w, given a)
  after_command (w, false) a = (w, refused version_failed)

  pub delete_version : Manager → ℤ → World → World × Answer (Unit {0})
  unfolding after_command
  delete_version m ver w =
      after_command (remove_from_set w m.version_counter_name (format_int ver)) tt

  pub initialize_with : Manager → Answer (List ℤ) → World → World × Answer (Unit {0})
  unfolding after_command
  initialize_with m (refused e) w = (w, refused e)
  initialize_with m (given (v ∷ vs)) w = (w, given tt)
  initialize_with m (given []) w =
      after_command (add_to_set w m.version_counter_name (format_int default_version)) tt

  pub initialize : Manager → World → World × Answer (Unit {0})
  unfolding initialize_with
  initialize m w = let (w', r) = get_versions m w in initialize_with m r w'

  pub update_from : Manager → Answer ℤ → World → World × Answer ℤ
  unfolding after_command
  update_from m (refused e) w = (w, refused e)
  update_from m (given v) w =
      let new = add64 v m.migration_id in
      after_command (add_to_set w m.version_counter_name (format_int new)) new

  pub update_version : Manager → World → World × Answer ℤ
  unfolding update_from
  update_version m w =
      let (w', r) = get_oldest_version m w in
      if is_positive m.migration_id then update_from m r w' else (w, refused migration_id_not_set)
