-- ===== src/Flashblocks/Window.antt =====
-- The window of seen transactions of bot/crates/mev-bot/src/flashblocks.rs, and the sequence.
use arrow_head.Prelude.{
  ℕ, ◌≡◌, inl, inr, refl, arith, true, false, List, [], ◌∷◌, ◌++◌, leb, ◌==◌, All, All-snoc,
  Bool-cases, ap,
}
use arrow_head.Prelude.Sets.{
  contains, remove, Distinct, contains-append, remove-fresh, Distinct-snoc, ==_sym,
}
use arrow_head.Types.{B256, Bytes}
use arrow_head.Types.Pending.{PreconfirmedState, PendingTx}
use arrow_head.Envelope.{DecodedTx}
use arrow_head.Flashblocks.Parser.{Key, eq_key}
use arrow_head.Flashblocks.Intake.{Intake, pending_of, admit, evict_before}

abbrev pub tagged : List (ℕ × Key) → List Key
tagged [] = []
tagged ((_, key) ∷ order) = key ∷ tagged order

abbrev pub hashes_of : List PendingTx → List B256
hashes_of [] = []
hashes_of (tx ∷ txs) = tx.hash ∷ hashes_of txs

-- The set and the queue hold the same keys, each once.
abbrev pub IsWindow : List Key → List (ℕ × Key) → Type 0
IsWindow seen order = (seen ≡ tagged order) × Distinct eq_key seen

pub eq_key-sym : (k l : Key) → eq_key k l ≡ false → eq_key l k ≡ false
eq_key-sym (a, b) (c, d) h = ground arith

pub eq_key_refl : (k : Key) → eq_key k k ≡ true
eq_key_refl (a, b) = ground arith

pub tagged-snoc :
    (order : List (ℕ × Key)) (b : ℕ) (k : Key)
    → tagged (order ++ ((b, k) ∷ [])) ≡ tagged order ++ (k ∷ [])
tagged-snoc [] b k = refl
tagged-snoc ((c, l) ∷ order) b k = ap (λ ks. l ∷ ks) (tagged-snoc order b k)

-- Eviction keeps the window.
pub evict_before-IsWindow :
    (min_block : ℕ) (order : List (ℕ × Key)) (seen : List Key)
    → IsWindow seen order
    → IsWindow (evict_before min_block order seen).1 (evict_before min_block order seen).0
unfolding evict_before
evict_before-IsWindow min_block [] seen w = w
evict_before-IsWindow min_block ((b, k) ∷ order) seen (e, d) = elim (Bool-cases (leb min_block b)) [
  | inl stay ↦ rw stay (e, d)
  | inr go ↦
      let (fresh, d1) : Distinct eq_key (k ∷ tagged order) = rw e at d in
      let gone : remove eq_key k seen ≡ tagged order =
        rw (e, eq_key_refl k) (remove-fresh eq_key k (tagged order) fresh) in
      rw go (evict_before-IsWindow min_block order (remove eq_key k seen) (gone, rw gone d1))
]

-- What holds of the transactions taken so far, `old` being the keys that were seen before.
unfoldable pub IsIntake : List Key → B256 → Intake → Type 0
IsIntake old id s =
    IsWindow s.seen s.seen_order
    × ((k : Key) → contains eq_key k old ≡ true → contains eq_key k s.seen ≡ true)
    × All
        (λ tx.
          (contains eq_key (id, tx.hash) old ≡ false)
          × (contains eq_key (id, tx.hash) s.seen ≡ true))
        s.txs
    × Distinct (λ a b. a == b) (hashes_of s.txs)

hashes_of-snoc :
    (txs : List PendingTx) (tx : PendingTx)
    → hashes_of (txs ++ (tx ∷ [])) ≡ hashes_of txs ++ (tx.hash ∷ [])
hashes_of-snoc [] tx = refl
hashes_of-snoc (t ∷ txs) tx = ap (λ hs. t.hash ∷ hs) (hashes_of-snoc txs tx)

-- A key that is not seen is of none of the transactions.
fresh-hash :
    (id h : B256) (seen old : List Key) (txs : List PendingTx)
    → All
        (λ tx.
          (contains eq_key (id, tx.hash) old ≡ false) × (contains eq_key (id, tx.hash) seen ≡ true))
        txs
    → contains eq_key (id, h) seen ≡ false
    → contains (λ a b. a == b) h (hashes_of txs) ≡ false
fresh-hash id h seen old [] all new = refl
fresh-hash id h seen old (tx ∷ txs) ((_, there), all) new = elim (Bool-cases (h == tx.hash)) [
  | inl same ↦
      let e : h ≡ tx.hash = ground arith in
      let clash : contains eq_key (id, h) seen ≡ true = rw e there in cc
  | inr apart ↦ rw apart (fresh-hash id h seen old txs all new)
]

-- The transactions stay seen when a key is added.
still-seen :
    (id : B256) (k : Key) (seen old : List Key) (txs : List PendingTx)
    → All
        (λ tx.
          (contains eq_key (id, tx.hash) old ≡ false) × (contains eq_key (id, tx.hash) seen ≡ true))
        txs
    → All
        (λ tx.
          (contains eq_key (id, tx.hash) old ≡ false)
          × (contains eq_key (id, tx.hash) (seen ++ (k ∷ [])) ≡ true))
        txs
still-seen id k seen old [] all = tt
still-seen id k seen old (tx ∷ txs) ((new, there), all) = (
  (new, rw (contains-append eq_key (id, tx.hash) seen (k ∷ []), there) refl),
  still-seen id k seen old txs all,
)

pub admit-IsIntake :
    (old : List Key) (state : PreconfirmedState) (bytes : Bytes) (d : DecodedTx) (s : Intake)
    → IsIntake old state.state_id s
    → IsIntake old state.state_id (admit state bytes d s)
unfolding IsIntake admit
admit-IsIntake old state bytes d s ((e, once), grows, all, distinct) =
    let key : Key = (state.state_id, d.hash) in
    elim (Bool-cases (contains eq_key key s.seen)) [
      | inl dup ↦ rw dup ((e, once), grows, all, distinct)
      | inr new ↦
          let here : contains eq_key key (s.seen ++ (key ∷ [])) ≡ true =
            rw (contains-append eq_key key s.seen (key ∷ []), new, eq_key_refl key) refl in
          let unseen : contains eq_key key old ≡ false =
            elim (Bool-cases (contains eq_key key old)) [
              | inl was ↦ let clash = grows key was in cc
              | inr not_was ↦ not_was
            ] in
          rw new (
            (
              rw (tagged-snoc s.seen_order state.block_number key) (ap (λ ks. ks ++ (key ∷ [])) e),
              Distinct-snoc eq_key eq_key-sym s.seen key once new,
            ),
            λ k h. rw (contains-append eq_key k s.seen (key ∷ []), grows k h) refl,
            All-snoc
                (λ tx.
                  (contains eq_key (state.state_id, tx.hash) old ≡ false)
                  × (contains eq_key (state.state_id, tx.hash) (s.seen ++ (key ∷ [])) ≡ true))
                s.txs (pending_of state bytes d state.observed_at_ms)
                (still-seen state.state_id key s.seen old s.txs all) (unseen, here),
            rw (hashes_of-snoc s.txs (pending_of state bytes d state.observed_at_ms)) (
                Distinct-snoc (λ a b. a == b) ==_sym (hashes_of s.txs) d.hash distinct
                  (fresh-hash state.state_id d.hash s.seen old s.txs all new)),
          )
    ]
