-- ===== src/Chainstate/Reader/Bytes.antt =====
-- Reading a quantity from a reader takes the bytes that the slice's version counts.
use bitcoin_utxo_indexer.Prelude.{
  ℕ, suc, ◌+◌, ◌-◌, ◌*◌, ◌^◌, ◌%◌, ◌≤◌, bit_and, bit_or, List, [], ◌∷◌, ◌≡◌, refl, ap, ◌∙◌, sym,
  drop, ◌==◌, arith, Bool-cases, inl, inr,
}
use bitcoin_utxo_indexer.Prelude.Slices.{drop_all}
use bitcoin_utxo_indexer.Compression.Vlq.{deserialize_loop, deserialize_vlq}
use bitcoin_utxo_indexer.Chainstate.Reader.{read_vlq, deserialize_vlq_from}

loop-size : (bytes : List ℕ) (n size : ℕ) → size ≤ (deserialize_loop bytes n size).1
unfolding deserialize_loop
loop-size [] n size = omega arith
loop-size (val ∷ rest) n size =
    let n' = bit_or (n * 2 ^ 7 % 2 ^ 64) (bit_and val 0x7f) in
    let ih = loop-size rest ((n' + 1) % 2 ^ 64) (size + 1) in
    elim (Bool-cases (bit_and val 0x80 == 0x80)) [
      | inl e ↦ rw (deserialize_loop, e) (omega arith)
      | inr e ↦ rw (deserialize_loop, e) (omega arith)
    ]

read_vlq-loop :
    (bytes : List ℕ) (n size : ℕ)
    → read_vlq bytes n size
      ≡ (deserialize_loop bytes n size, drop ((deserialize_loop bytes n size).1 - size) bytes)
unfolding read_vlq deserialize_loop
read_vlq-loop [] n size =
    ap (λ (l : List ℕ). ((n, size), l)) (sym (drop_all [] (size - size) (omega arith)))
read_vlq-loop (val ∷ rest) n size =
    let n' = bit_or (n * 2 ^ 7 % 2 ^ 64) (bit_and val 0x7f) in
    let ih = read_vlq-loop rest ((n' + 1) % 2 ^ 64) (size + 1) in
    let grows = loop-size rest ((n' + 1) % 2 ^ 64) (size + 1) in
    elim (Bool-cases (bit_and val 0x80 == 0x80)) [
      | inl e ↦
          let last : ℕ = (deserialize_loop rest ((n' + 1) % 2 ^ 64) (size + 1)).1 in
          let count : last - size ≡ suc (last - (size + 1)) = omega arith in
          rw (read_vlq, deserialize_loop, e) (rw (ih, count) refl)
      | inr e ↦
          let count : size + 1 - size ≡ 1 = omega arith in
          rw (read_vlq, deserialize_loop, e) (rw count refl)
    ]

-- From a reader the same number and count are read as from a slice of the bytes, and the reader stands
-- behind the bytes that were counted.
pub deserialize_vlq_from-deserialize_vlq :
    (bytes : List ℕ)
    → deserialize_vlq_from bytes ≡ (deserialize_vlq bytes, drop (deserialize_vlq bytes).1 bytes)
unfolding deserialize_vlq_from deserialize_vlq
deserialize_vlq_from-deserialize_vlq bytes =
    let whole : (deserialize_loop bytes 0 0).1 - 0 ≡ (deserialize_loop bytes 0 0).1 = omega arith in
    read_vlq-loop bytes 0 0 ∙ ap (λ (k : ℕ). (deserialize_loop bytes 0 0, drop k bytes)) whole
