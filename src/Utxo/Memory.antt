-- ===== src/Utxo/Memory.antt =====
-- A backend in memory, on which every call succeeds: the laws asked of the libraries can hold.
use bitcoin_utxo_indexer.Prelude.{
  inl, ◌≡◌, refl, ◌∙◌, ap, sym, arith, Bool, true, false, not, ◌&&◌, ◌||◌, List, [], ◌∷◌, ◌++◌,
  Option, none, some, if◌then◌else◌, map,
}
use bitcoin_utxo_indexer.Prelude.Str.{Str, str_eq, str_eq_iff, contains}
use bitcoin_utxo_indexer.Utxo.Checkpoint.{UtxoSpendingCheckpoint}
use bitcoin_utxo_indexer.Utxo.Backend.{
  Value, Command, set_value, delete, add_to_set, remove_from_set, View, apply, apply_all, all_in,
  none_in, Backend, IsBackend,
}

pub record Memory : Type 0 where
  pub values : Str → Option Value
  pub sets : Str → List Str
  pub file : Option UtxoSpendingCheckpoint

unfoldable pub without : List Str → List Str → List Str
without xs [] = []
without xs (y ∷ ys) = let rest = without xs ys in if contains xs y then rest else y ∷ rest

contains-append :
    (xs ys : List Str) (x : Str) → contains (xs ++ ys) x ≡ (contains xs x || contains ys x)
unfolding contains
contains-append [] ys x = refl
contains-append (y ∷ xs) ys x = ground (arith, contains-append xs ys x)

contains-without :
    (xs ys : List Str) (x : Str)
    → contains (without xs ys) x ≡ (not (contains xs x) && contains ys x)
unfolding contains without
contains-without xs [] x = ground arith
contains-without xs (y ∷ ys) x = ground (arith, contains-without xs ys x, str_eq_iff y x)

unfoldable pub run : Command → Memory → Memory
unfolding without
run (set_value k v) m = record {
  values = λ j. if str_eq k j then some v else m.values j;
  sets = λ j. if str_eq k j then [] else m.sets j;
  file = m.file;
}
run (delete k) m = record {
  values = λ j. if str_eq k j then none else m.values j;
  sets = λ j. if str_eq k j then [] else m.sets j;
  file = m.file;
}
run (add_to_set k xs) m = record m { sets = λ j. if str_eq k j then xs ++ m.sets j else m.sets j }
run (remove_from_set k xs) m = record m {
  sets = λ j. if str_eq k j then without xs (m.sets j) else m.sets j;
}

unfoldable pub run_list : List Command → Memory → Memory
run_list [] m = m
run_list (c ∷ cs) m = run_list cs (run c m)

abbrev pub view_of : Memory → View
view_of m = record { values = m.values; sets = λ k x. contains (m.sets k) x }

contains-if :
    (t : Bool) (xs ys : List Str) (x : Str)
    → contains (if t then xs else ys) x ≡ (if t then contains xs x else contains ys x)
contains-if true xs ys x = refl
contains-if false xs ys x = refl

if-ap : (t : Bool) (x y z : Bool) → x ≡ y → (if t then x else z) ≡ (if t then y else z)
if-ap t x y z h = ap (λ w. if t then w else z) h

pub view_of-run : (c : Command) (m : Memory) → view_of (run c m) ≡ apply c (view_of m)
unfolding run contains
view_of-run (set_value k v) m = λ i. record {
  values = λ j. if str_eq k j then some v else m.values j;
  sets = λ j x. contains-if (str_eq k j) [] (m.sets j) x i;
}
view_of-run (delete k) m = λ i. record {
  values = λ j. if str_eq k j then none else m.values j;
  sets = λ j x. contains-if (str_eq k j) [] (m.sets j) x i;
}
view_of-run (add_to_set k xs) m = λ i. record {
  values = m.values;
  sets = λ j x.
      (contains-if (str_eq k j) (xs ++ m.sets j) (m.sets j) x
          ∙ if-ap (str_eq k j) _ _ _ (contains-append xs (m.sets j) x))
        i;
}
view_of-run (remove_from_set k xs) m = λ i. record {
  values = m.values;
  sets = λ j x.
      (contains-if (str_eq k j) (without xs (m.sets j)) (m.sets j) x
          ∙ if-ap (str_eq k j) _ _ _ (contains-without xs (m.sets j) x))
        i;
}

pub view_of-run_list :
    (cs : List Command) (m : Memory) → view_of (run_list cs m) ≡ apply_all cs (view_of m)
unfolding run_list apply_all
view_of-run_list [] m = refl
view_of-run_list (c ∷ cs) m = view_of-run_list cs (run c m) ∙ ap (apply_all cs) (view_of-run c m)

pub run-file : (c : Command) (m : Memory) → (run c m).file ≡ m.file
unfolding run
run-file (set_value k v) m = refl
run-file (delete k) m = refl
run-file (add_to_set k xs) m = refl
run-file (remove_from_set k xs) m = refl

pub run_list-file : (cs : List Command) (m : Memory) → (run_list cs m).file ≡ m.file
unfolding run_list
run_list-file [] m = refl
run_list-file (c ∷ cs) m = run_list-file cs (run c m) ∙ run-file c m

abbrev pub memory : Backend
memory = record {
  World = Memory;
  get = λ m k. (m, some (m.values k));
  get_set = λ m k. (m, some (m.sets k));
  mul_get = λ m ks. (m, some (map m.values ks));
  write = λ m c. (run c m, true);
  exec = λ m ks cs. (run_list cs m, true);
  last_checkpoint = λ m. (m, some m.file);
  save_checkpoint = λ m c. (record m { file = some c }, true);
  remove_latest_checkpoint = λ m. (record m { file = none }, true);
  every = all_in;
  none_of = none_in;
}

abbrev pub memory_laws : IsBackend memory
memory_laws = record {
  view = view_of;
  file = λ m. m.file;
  get-view = λ m k. refl;
  get-file = λ m k. refl;
  get_reads = λ m k r h. cc;
  get_set-view = λ m k. refl;
  get_set-file = λ m k. refl;
  get_set_reads = λ m k r h x. let same : m.sets k ≡ r = cc in rw (sym same) refl;
  mul_get-view = λ m ks. refl;
  mul_get-file = λ m ks. refl;
  mul_get_reads = λ m ks r h. inl cc;
  write-file = λ m c. run-file c m;
  write_done = λ m c h. view_of-run c m;
  write_failed = λ m c h. absurd cc;
  exec-file = λ m ks cs. run_list-file cs m;
  exec_done = λ m ks cs h. view_of-run_list cs m;
  exec_failed = λ m ks cs h. absurd cc;
  last-view = λ m. refl;
  last-file = λ m. refl;
  last_reads = λ m r h. cc;
  save-view = λ m c. refl;
  save_done = λ m c h. refl;
  remove-view = λ m. refl;
  remove_done = λ m h. refl;
  every_lem = λ ys xs. refl;
  none_of_lem = λ ys xs. refl;
}
