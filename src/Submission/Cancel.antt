-- ===== src/Submission/Cancel.antt =====
-- What a raw cancellation that reports success has done.
use arrow_head.Prelude.{
  ℕ, ◌^◌, ◌<◌, ◌≡◌, ◌≢◌, refl, ap, ◌∙◌, Bool, true, false, Option, none, some, List, [], ◌∷◌, ◌++◌,
  map, ◌&&◌, arith, All, Bool-cases, Option-cases, inl, inr, u64_mod, u256_mod,
}
use arrow_head.Prelude.Outcome.{Outcome, value, absent, panicked, out_of_fuel, ◌>>=◌}
use arrow_head.Types.{Address, B256, Bytes}
use arrow_head.Signer.{Eip1559Tx, sign_eip1559, encode_signed, encode_for_signing}
use arrow_head.Envelope.{decode_eip1559_nonce}
use arrow_head.Envelope.Fields.{IsWord, IsSignature}
use arrow_head.Envelope.RoundTrip.{decode_eip1559_envelope-encode_signed}
use arrow_head.Submission.{replacement_fees}
use arrow_head.Submission.Raw.{
  Node, Receipt, is_found, SubmissionGateway, replacement_tx, send_replacement, cancel_one,
  cancel_loop, cancel_raw,
}

-- A transaction that the bot has signed.
pub record Signed : Type 0 where
  pub tx : Eip1559Tx
  pub v : ℕ
  pub r : Bytes
  pub s : Bytes

abbrev pub bytes_of : Signed → Bytes
bytes_of x = encode_signed x.tx x.v x.r x.s

abbrev pub IsSound : Signed → Type 0
IsSound x = IsWord x.tx × IsSignature x.v x.r x.s

-- The words of a gateway.
pub record IsGateway (g : SubmissionGateway) (searcher : Address) : Type 0 where
  pub chain_id : g.chain_id < u64_mod
  pub max_fee : g.raw_cancel_max_fee < u256_mod
  pub searcher_word : searcher < 256 ^ 20

-- The nonces that are read of raw transactions, and those of signed ones.
abbrev pub nonces_read : List Bytes → List (Outcome ℕ)
nonces_read raws = map decode_eip1559_nonce raws

abbrev pub nonces_signed : List Signed → List (Outcome ℕ)
nonces_signed xs = map (λ x. value x.tx.nonce) xs

-- Success: one accepted transaction for each, with the nonce of it, and no receipt found of any.
unfoldable pub IsCancelled :
    (Bytes → B256) → Node → List Signed → Outcome (Bool × List Bytes) → Type 0
IsCancelled keccak node xs (value (true, sent)) =
    (nonces_read sent ≡ nonces_signed xs)
    × All (λ raw. node.accepts raw ≡ true) sent
    × All (λ x. node.receipt (keccak (bytes_of x)) ≢ Receipt.found) xs
IsCancelled keccak node xs (value (false, sent)) = Unit {0}
IsCancelled keccak node xs absent = ⊥
IsCancelled keccak node xs panicked = ⊥
IsCancelled keccak node xs out_of_fuel = ⊥

nonces_read-append :
    (raws more : List Bytes) → nonces_read (raws ++ more) ≡ nonces_read raws ++ nonces_read more
nonces_read-append [] more = refl
nonces_read-append (a ∷ raws) more =
    ap (λ l. decode_eip1559_nonce a ∷ l) (nonces_read-append raws more)

All-append :
    (P : Bytes → Type 0) (raws more : List Bytes) → All P raws → All P more → All P (raws ++ more)
All-append P [] more ha hb = hb
All-append P (a ∷ raws) more (h, ha) hb = (h, All-append P raws more ha hb)

-- A round and the rounds behind it.
IsCancelled-cons :
    (keccak : Bytes → B256) (node : Node) (x : Signed) (xs : List Signed)
    (one rest : Outcome (Bool × List Bytes))
    → IsCancelled keccak node (x ∷ []) one
    → IsCancelled keccak node xs rest
    → IsCancelled keccak node
        (x ∷ xs)
        (do (ok, sent) ← one; (all_ok, later) ← rest; value (ok && all_ok, sent ++ later))
unfolding IsCancelled
IsCancelled-cons keccak node x xs (value (true, s)) (value (true, l)) (n, a, m) (ns, taken, ms) = (
  nonces_read-append s l ∙ ap (λ k. k ++ nonces_read l) n ∙ ap (λ k. value x.tx.nonce ∷ k) ns,
  All-append _ s l a taken,
  (m.0, ms),
)
IsCancelled-cons keccak node x xs (value (true, s)) (value (false, l)) h hs = tt
IsCancelled-cons keccak node x xs (value (false, s)) (value (b, l)) h hs = tt
IsCancelled-cons keccak node x xs (value (b, s)) absent h hs = hs
IsCancelled-cons keccak node x xs (value (b, s)) panicked h hs = hs
IsCancelled-cons keccak node x xs (value (b, s)) out_of_fuel h hs = hs
IsCancelled-cons keccak node x xs absent rest h hs = h
IsCancelled-cons keccak node x xs panicked rest h hs = h
IsCancelled-cons keccak node x xs out_of_fuel rest h hs = h

replacement_fees-word :
    (p0 m0 base configured bps hard p m : ℕ)
    → hard < u256_mod
    → replacement_fees p0 m0 base configured bps hard ≡ some (p, m)
    → (p < u256_mod) × (m < u256_mod)
unfolding replacement_fees
replacement_fees-word p0 m0 base configured bps hard p m h e = ground arith

module _ (keccak : Bytes → B256) (sign_hash : B256 → ℕ × Bytes × Bytes)
    (signs : (h : B256) → IsSignature (sign_hash h).0 (sign_hash h).1 (sign_hash h).2) where
  -- The nonce of a replacement is read back from its bytes.
  replacement-nonce :
      (g : SubmissionGateway) (searcher : Address) (nonce p m : ℕ)
      → IsGateway g searcher
      → nonce < u64_mod
      → p < u256_mod
      → m < u256_mod
      → decode_eip1559_nonce
          (sign_eip1559 keccak sign_hash (replacement_tx g searcher nonce (p, m))).0
        ≡ value nonce
  unfolding sign_eip1559 decode_eip1559_nonce replacement_tx
  replacement-nonce g searcher nonce p m w hn hp hm =
      let tx = replacement_tx g searcher nonce (p, m) in
      let (v, r, s) = sign_hash (keccak (encode_for_signing tx)) in
      let word : IsWord tx = record {
        chain_id = w.chain_id;
        nonce = hn;
        tip = hp;
        cap = hm;
        gas_limit = omega arith;
        value_word = omega arith;
        to_word = w.searcher_word;
        payload_bytes = tt;
        payload_length = omega arith;
      } in
      rw
        (decode_eip1559_envelope-encode_signed tx v r s word
          (signs (keccak (encode_for_signing tx))))
        refl

  send_replacement-IsCancelled :
      (g : SubmissionGateway) (node : Node) (searcher : Address) (x : Signed)
      (fees : Option (ℕ × ℕ))
      → IsGateway g searcher
      → IsSound x
      → node.receipt (keccak (bytes_of x)) ≢ Receipt.found
      → ((p m : ℕ) → fees ≡ some (p, m) → (p < u256_mod) × (m < u256_mod))
      → IsCancelled keccak node
          (x ∷ [])
          (value (send_replacement keccak sign_hash g node searcher x.tx.nonce fees))
  unfolding IsCancelled
  send_replacement-IsCancelled g node searcher x none w sound pending words = tt
  send_replacement-IsCancelled g node searcher x (some (p, m)) w (word, sig) pending words =
      let raw = (sign_eip1559 keccak sign_hash (replacement_tx g searcher x.tx.nonce (p, m))).0 in
      let (hp, hm) = words p m refl in
      elim (Bool-cases (node.accepts raw)) [
        | inl taken ↦ rw taken (
          ap (λ n. n ∷ []) (replacement-nonce g searcher x.tx.nonce p m w word.nonce hp hm),
          (taken, tt),
          (pending, tt),
        )
        | inr refused ↦ rw refused tt
      ]

  cancel_one-IsCancelled :
      (g : SubmissionGateway) (node : Node) (searcher : Address) (base_fee : ℕ) (x : Signed)
      → IsGateway g searcher
      → IsSound x
      → IsCancelled keccak node
          (x ∷ [])
          (cancel_one keccak sign_hash g node searcher base_fee (bytes_of x))
  unfolding cancel_one
  cancel_one-IsCancelled g node searcher base_fee x w (word, sig) =
      elim (Bool-cases (is_found (node.receipt (keccak (bytes_of x))))) [
        | inl final ↦ rw final (unfold IsCancelled in tt)
        | inr pending ↦
            rw (pending, decode_eip1559_envelope-encode_signed x.tx x.v x.r x.s word sig)
              (send_replacement-IsCancelled g node searcher x _ w (word, sig)
                (λ e. let mined = rw e at pending in cc)
                (λ p m e. replacement_fees-word _ _ _ _ _ _ p m w.max_fee e))
      ]

  cancel_loop-IsCancelled :
      (g : SubmissionGateway) (node : Node) (searcher : Address) (base_fee : ℕ) (xs : List Signed)
      → IsGateway g searcher
      → All IsSound xs
      → IsCancelled keccak node xs
          (cancel_loop keccak sign_hash g node searcher base_fee (map bytes_of xs))
  unfolding cancel_loop
  cancel_loop-IsCancelled g node searcher base_fee [] w h = unfold IsCancelled in (refl, tt, tt)
  cancel_loop-IsCancelled g node searcher base_fee (x ∷ xs) w (hx, h) =
      IsCancelled-cons keccak node x xs _ _ (cancel_one-IsCancelled g node searcher base_fee x w hx)
        (cancel_loop-IsCancelled g node searcher base_fee xs w h)

  -- For a signer whose signatures have 32-byte scalars and a gateway of words, the cancellation of
  -- transactions that the bot has signed ends without a panic. Where it reports success, the node has
  -- given a receipt of none of them (it may have failed to answer), and for each of them it has
  -- accepted one replacement from whose bytes the nonce of that transaction is read, in the same
  -- order.
  pub cancel_raw-IsCancelled :
      (g : SubmissionGateway) (node : Node) (searcher : Address) (xs : List Signed)
      → g.raw_rpc ≡ some node
      → g.tx_signer ≡ some sign_hash
      → g.searcher ≡ some searcher
      → IsGateway g searcher
      → All IsSound xs
      → IsCancelled keccak node xs (cancel_raw keccak g (some (map bytes_of xs)))
  unfolding cancel_raw cancel_loop cancel_one replacement_tx IsCancelled
  cancel_raw-IsCancelled g node searcher xs e1 e2 e3 w h =
      rw (e1, e2, e3)
        (elim (Option-cases node.base_fee) [
          | inl missing ↦ rw missing tt
          | inr (base_fee, known) ↦
              rw known (cancel_loop-IsCancelled g node searcher base_fee xs w h)
        ])
