-- ===== src/Compression/Script/Shapes.antt =====
-- The form of the scripts that each test recognises.
use bitcoin_utxo_indexer.Prelude.{
  ℕ, suc, ◌+◌, ◌<◌, ◌≤◌, ◌≡◌, refl, ap, ◌∙◌, sym, arith, List, [], ◌∷◌, ◌⊎◌, inl, inr, Option-cases,
  Bool-cases, true, Bool, ◌==◌, ◌&&◌, ==_iff, Option-cases, Bool-cases, ◌++◌, none, some, length,
  take, drop, take-append-drop, length-take, length-drop,
}
use bitcoin_utxo_indexer.Prelude.Slices.{drop-cons, drop-drop, take-add, drop_all}
use bitcoin_utxo_indexer.Compression.Script.{
  Curve, op_dup, op_hash160, op_data_20, op_data_33, op_data_65, op_equal, op_equalverify,
  op_checksig, is_pub_key_hash, is_script_hash, is_pub_key, if_valid, uncompressed_pub_key, byte_at,
  has_compressed_form, has_uncompressed_form,
}

-- A script behind `n` bytes: the next `m` bytes and the rest.
drop_split : (s : List ℕ) (m n k : ℕ) → k ≡ n + m → drop n s ≡ take m (drop n s) ++ drop k s
drop_split s m n k e = sym (take-append-drop m (drop n s)) ∙ rw (drop-drop m n s, e)

pub is_pub_key_hash-shape :
    (script hash : List ℕ)
    → is_pub_key_hash script ≡ some hash
    → (length hash ≡ 20)
      × (script ≡ op_dup ∷ op_hash160 ∷ op_data_20 ∷ (hash ++ (op_equalverify ∷ op_checksig ∷ [])))
unfolding is_pub_key_hash
is_pub_key_hash-shape script hash e = (
  ground (arith, length-take 20 (drop 3 script), length-drop 3 script),
  ground (
    arith,
    drop-cons script 0 0,
    drop-cons script 1 0,
    drop-cons script 2 0,
    drop_split script 20 3 23 refl,
    drop-cons script 23 0,
    drop-cons script 24 0,
    drop_all script 25,
  ),
)

pub is_script_hash-shape :
    (script hash : List ℕ)
    → is_script_hash script ≡ some hash
    → (length hash ≡ 20) × (script ≡ op_hash160 ∷ op_data_20 ∷ (hash ++ (op_equal ∷ [])))
unfolding is_script_hash
is_script_hash-shape script hash e = (
  ground (arith, length-take 20 (drop 2 script), length-drop 2 script),
  ground (
    arith,
    drop-cons script 0 0,
    drop-cons script 1 0,
    drop_split script 20 2 22 refl,
    drop-cons script 22 0,
    drop_all script 23,
  ),
)

-- The two forms of a pay-to-pubkey script that is recognised.
pub data PubKeyForm (curve : Curve) (script key : List ℕ) : Type 0 where
  compressed_form :
      (format : ℕ) (x : List ℕ)
      → (format ≡ 2) ⊎ (format ≡ 3)
      → length x ≡ 32
      → key ≡ format ∷ x
      → script ≡ op_data_33 ∷ format ∷ (x ++ (op_checksig ∷ []))
      → PubKeyForm curve script key
  uncompressed_form :
      (x y : List ℕ)
      → length x ≡ 32
      → length y ≡ 32
      → key ≡ 4 ∷ (x ++ y)
      → script ≡ op_data_65 ∷ (key ++ (op_checksig ∷ []))
      → (parsed : curve.Key) → curve.parse_pub_key key ≡ some parsed
      → PubKeyForm curve script key

if_valid-some :
    (curve : Curve) (key other : List ℕ)
    → if_valid curve key none ≡ some other
    → (other ≡ key) × (k : curve.Key) × (curve.parse_pub_key key ≡ some k)
unfolding if_valid
if_valid-some curve key other e = elim (Option-cases (curve.parse_pub_key key)) [
  | inl invalid ↦ absurd (ground arith)
  | inr (k, valid) ↦ (ground arith, k, valid)
]

and_four :
    (a b c d : Bool) → (a && b && c && d) ≡ true → (a ≡ true) × (b ≡ true) × (c ≡ true) × (d ≡ true)
and_four a b c d h = ground arith

uncompressed_tests :
    (script : List ℕ)
    → has_uncompressed_form script ≡ true
    → (length script ≡ 67)
      × (byte_at script 0 ≡ op_data_65)
      × (byte_at script 66 ≡ op_checksig)
      × (byte_at script 1 ≡ 4)
uncompressed_tests script t =
    let (l, first, last, format) =
      and_four (length script == 67) (byte_at script 0 == op_data_65)
        (byte_at script 66 == op_checksig) (byte_at script 1 == 4) t in
    ((==_iff _ _).0 l, (==_iff _ _).0 first, (==_iff _ _).0 last, (==_iff _ _).0 format)

drop-cons_eq :
    (s : List ℕ) (n c : ℕ) → n < length s → byte_at s n ≡ c → drop n s ≡ c ∷ drop (suc n) s
drop-cons_eq s n c h e = drop-cons s n 0 h ∙ ap (λ (x : ℕ). x ∷ drop (suc n) s) e

-- The key of a script that starts as an uncompressed one does, and the script around it.
uncompressed_key :
    (script : List ℕ)
    → has_uncompressed_form script ≡ true
    → take 65 (drop 1 script) ≡ 4 ∷ (take 32 (drop 2 script) ++ take 32 (drop 34 script))
uncompressed_key script t =
    let (l, first, last, format) = uncompressed_tests script t in
    let halves : take 64 (drop 2 script) ≡ take 32 (drop 2 script) ++ take 32 (drop 34 script) =
      take-add 32 32 (drop 2 script)
      ∙ ap (λ (r : List ℕ). take 32 (drop 2 script) ++ take 32 r) (drop-drop 32 2 script) in
    ap (λ (r : List ℕ). take 65 r) (drop-cons_eq script 1 4 (omega arith) format)
    ∙ ap (λ (r : List ℕ). 4 ∷ r) halves

uncompressed_script :
    (script : List ℕ)
    → has_uncompressed_form script ≡ true
    → script ≡ op_data_65 ∷ (take 65 (drop 1 script) ++ (op_checksig ∷ []))
uncompressed_script script t =
    let (l, first, last, format) = uncompressed_tests script t in
    let ending : drop 66 script ≡ op_checksig ∷ [] =
      drop-cons_eq script 66 op_checksig (omega arith) last
      ∙ ap (λ (r : List ℕ). op_checksig ∷ r) (drop_all script 67 (omega arith)) in
    drop-cons_eq script 0 op_data_65 (omega arith) first
    ∙ ap (λ (r : List ℕ). op_data_65 ∷ r)
        (drop_split script 65 1 66 refl ∙ ap (λ (r : List ℕ). take 65 (drop 1 script) ++ r) ending)

compressed_parts :
    (script : List ℕ)
    → has_compressed_form script ≡ true
    → (take 33 (drop 1 script) ≡ byte_at script 1 ∷ take 32 (drop 2 script))
      × (script ≡ op_data_33 ∷ byte_at script 1 ∷ (take 32 (drop 2 script) ++ (op_checksig ∷ [])))
      × ((byte_at script 1 ≡ 2) ⊎ (byte_at script 1 ≡ 3))
compressed_parts script t = (
  ground (arith, drop-cons script 1 0),
  ground (
    arith,
    drop-cons script 0 0,
    drop-cons script 1 0,
    drop_split script 32 2 34 refl,
    drop-cons script 34 0,
    drop_all script 35,
  ),
  ground arith,
)

length_part :
    (script : List ℕ) (m n : ℕ) → n + m ≤ length script → length (take m (drop n script)) ≡ m
length_part script m n h = omega (arith, length-take m (drop n script), length-drop n script)

uncompressed_pub_key-form :
    (curve : Curve) (script key : List ℕ)
    → uncompressed_pub_key curve script ≡ some key
    → PubKeyForm curve script key
unfolding uncompressed_pub_key
uncompressed_pub_key-form curve script key e = elim (Bool-cases (has_uncompressed_form script)) [
  | inr other ↦ absurd (ground arith)
  | inl form ↦
      let (same, k, valid) = if_valid-some curve _ key (rw form at e) in
      let long = (uncompressed_tests script form).0 in
      uncompressed_form (take 32 (drop 2 script)) (take 32 (drop 34 script))
        (length_part script 32 2 (omega arith)) (length_part script 32 34 (omega arith))
        (same ∙ uncompressed_key script form)
        (uncompressed_script script form
          ∙ ap (λ (key : List ℕ). op_data_65 ∷ (key ++ (op_checksig ∷ []))) (sym same))
        k (ap curve.parse_pub_key same ∙ valid)
]

pub is_pub_key-form :
    (curve : Curve) (script key : List ℕ)
    → is_pub_key curve script ≡ some key
    → PubKeyForm curve script key
unfolding is_pub_key if_valid
is_pub_key-form curve script key e = elim (Bool-cases (has_compressed_form script)) [
  | inr other ↦ uncompressed_pub_key-form curve script key (rw other at e)
  | inl form ↦ elim (Option-cases (curve.parse_pub_key (take 33 (drop 1 script)))) [
    | inl invalid ↦ uncompressed_pub_key-form curve script key (rw (form, if_valid, invalid) at e)
    | inr (k, valid) ↦
        let (parts, around, format) = compressed_parts script form in
        let same : key ≡ take 33 (drop 1 script) = ground arith in
        let long : length script ≡ 35 = ground arith in
        compressed_form (byte_at script 1) (take 32 (drop 2 script)) format
          (length_part script 32 2 (omega arith)) (same ∙ parts) around
  ]
]
