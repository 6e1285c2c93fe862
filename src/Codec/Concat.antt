-- ===== src/Codec/Concat.antt =====
-- `concatBytes` of src/bitswap-codec.ts and the concatenation of lists.
use ipfs_shard.Shared.{
  ℕ, zero, suc, ◌+◌, List, [], ◌∷◌, ◌++◌, ◌≡◌, refl, sym, ap, ◌∙◌, arith, length, drop, replicate,
  flatten, length-append, take-append, drop-append, drop-add, append_assoc, append-nil,
}
use ipfs_shard.Codec.Fields.{
  set_bytes, total_length, place, concat_bytes, encode_with_length_prefix,
}
use ipfs_shard.Varint.{append_varint}

drop-replicate : (n k : ℕ) → drop {A = ℕ} n (replicate (n + k) 0) ≡ replicate k 0
drop-replicate zero k = ap (λ (t : ℕ). replicate {A = ℕ} t 0) (omega arith)
drop-replicate (suc n) k =
    let e : suc n + k ≡ suc (n + k) = omega arith in rw e (drop-replicate n k)

-- What is written already, then the rest of the buffer.
set_bytes-append :
    (front back part : List ℕ)
    → set_bytes (front ++ back) part (length front) ≡ (front ++ part) ++ drop (length part) back
set_bytes-append front back part =
    rw
      (
        take-append front back,
        drop-add (length front) (length part) (front ++ back),
        drop-append front back,
      )
      (sym (append_assoc front part (drop (length part) back)))

place-flatten :
    (ps : List (List ℕ)) (front : List ℕ)
    → place ps (front ++ replicate (total_length ps) 0) (length front) ≡ front ++ flatten ps
unfolding place
place-flatten [] front = refl
place-flatten (p ∷ ps) front =
    let back : List ℕ = replicate (length p + total_length ps) 0 in
    let off : length front + length p ≡ length (front ++ p) = sym (length-append front p) in
    rw (set_bytes-append front back p, drop-replicate (length p) (total_length ps), off)
      (place-flatten ps (front ++ p) ∙ append_assoc front p (flatten ps))

-- `concat_bytes` of any parts is their concatenation, in order.
pub concat_bytes-flatten : (ps : List (List ℕ)) → concat_bytes ps ≡ flatten ps
unfolding concat_bytes
concat_bytes-flatten ps = place-flatten ps []

pub encode_with_length_prefix_lem :
    (msg : List ℕ) → encode_with_length_prefix msg ≡ append_varint [] (length msg) ++ msg
unfolding encode_with_length_prefix
encode_with_length_prefix_lem msg =
    concat_bytes-flatten (append_varint [] (length msg) ∷ msg ∷ [])
    ∙ ap (λ (t : List ℕ). append_varint [] (length msg) ++ t) (append-nil msg)
