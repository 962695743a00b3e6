-- ===== src/Utxo/Types/RoundTrip.antt =====
-- An output gives back the script and the amount that were stored in it.
use bitcoin_utxo_indexer.Prelude.{
  ℕ, ◌+◌, ◌*◌, ◌^◌, ◌%◌, ◌≤◌, ◌≡◌, [], ◌∷◌, length-append, refl, ap, arith, List, ◌++◌, some,
  length, take, replicate, length-replicate, take-length, drop, inl, inr, Option-cases,
}
use bitcoin_utxo_indexer.Compression.Vlq.{IsU64, serialize_size_vlq}
use bitcoin_utxo_indexer.Compression.Vlq.Encode.{serialize_size_vlq-encoding, encoding_shape}
use bitcoin_utxo_indexer.Compression.Amount.RoundTrip.{decompress-compress}
use bitcoin_utxo_indexer.Compression.Script.{
  Curve, op_equalverify, op_checksig, op_equal, num_special_scripts, compressed_script_size,
  is_pub_key_hash, is_script_hash, is_pub_key,
}
use bitcoin_utxo_indexer.Compression.Script.Shapes.{
  is_pub_key_hash-shape, is_script_hash-shape, is_pub_key-form, PubKeyForm, compressed_form,
  uncompressed_form,
}
use bitcoin_utxo_indexer.Compression.Script.RoundTrip.{IsCurve, compress-Written}
use bitcoin_utxo_indexer.Utxo.Types.{
  Env, TransactionOutput, set_amount, get_amount, set_script_bytes, get_script_bytes, shorten,
}

-- The room of `make([]byte, len(pkScript)+16)` is enough.
pub_key-long :
    (curve : Curve) (script key : List ℕ) → PubKeyForm curve script key → 35 ≤ length script
pub_key-long curve script key (compressed_form format x kind hx ek es) =
    omega (arith, ap length es, length-append x (op_checksig ∷ []))
pub_key-long curve script key (uncompressed_form x y hx hy ek es k parsed) =
    omega
      (arith, ap length es, ap length ek, length-append x y, length-append key (op_checksig ∷ []))

plain_size : (n : ℕ) → IsU64 n → serialize_size_vlq (n % 2 ^ 64) ≤ 10
plain_size n h =
    let no_wrap : n % 2 ^ 64 ≡ n = omega arith in
    let (_, _, short) = encoding_shape n h in
    rw no_wrap (omega (arith, serialize_size_vlq-encoding n))

room_for_script :
    (curve : Curve) (script : List ℕ)
    → IsU64 (length script + num_special_scripts)
    → compressed_script_size curve script ≤ length script + 16
unfolding compressed_script_size
room_for_script curve script h = elim (Option-cases (is_pub_key_hash script)) [
  | inr (hash, e) ↦
      let (long, shape) = is_pub_key_hash-shape script hash e in
      let whole : 20 ≤ length script =
        omega (arith, ap length shape, length-append hash (op_equalverify ∷ op_checksig ∷ [])) in
      ground arith
  | inl e ↦ elim (Option-cases (is_script_hash script)) [
    | inr (hash, e') ↦
        let (long, shape) = is_script_hash-shape script hash e' in
        let whole : 20 ≤ length script =
          omega (arith, ap length shape, length-append hash (op_equal ∷ [])) in
        ground arith
    | inl e' ↦ elim (Option-cases (is_pub_key curve script)) [
      | inr (key, e'') ↦
          ground (arith, pub_key-long curve script key (is_pub_key-form curve script key e''))
      | inl e'' ↦ ground (arith, plain_size (length script + num_special_scripts) h)
    ]
  ]
]

-- `SetScriptBytes` never panics and keeps the amount, and `GetScriptBytes` gives back the script.
pub get-set_script_bytes :
    (env : Env)
    → IsCurve env.curve
    → (t : TransactionOutput) (script : List ℕ) → IsU64 (length script + num_special_scripts)
    → (t' : TransactionOutput) × (set_script_bytes env t script ≡ some t')
      × (get_script_bytes env t' ≡ some script)
      × (t'.compressed_amount ≡ t.compressed_amount)
unfolding set_script_bytes get_script_bytes shorten
get-set_script_bytes env laws t script h =
    let target : List ℕ = replicate (length script + 16) 0 in
    let size : ℕ = compressed_script_size env.curve script in
    let w = compress-Written env.curve laws script target h (
      omega (
        arith,
        room_for_script env.curve script h,
        length-replicate {A = ℕ} (length script + 16) 0,
      )) in
    let kept : take size (w.compressed ++ drop size target) ≡ w.compressed =
      rw w.width at (take-length w.compressed (drop size target)) in
    (
      record t { compressed_script = w.compressed },
      rw (w.put, set_script_bytes)
          (ap (λ (r : List ℕ). some (record t { compressed_script = r })) kept),
      w.restored,
      refl,
    )

-- `GetAmount` gives back the amount of `SetAmount`, which keeps the script.
get-set_amount :
    (t : TransactionOutput) (amount : ℕ)
    → 9 * amount + 10 ≤ 2 ^ 64
    → (get_amount (set_amount t amount) ≡ amount)
      × ((set_amount t amount).compressed_script ≡ t.compressed_script)
unfolding set_amount get_amount
get-set_amount t amount h = (decompress-compress amount h, refl)
