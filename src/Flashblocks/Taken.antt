-- ===== src/Flashblocks/Taken.antt =====
-- What an entry of a frame does to the intake of bot/crates/mev-bot/src/flashblocks.rs.
use arrow_head.Prelude.{
  ℕ, ◌≡◌, ◌⊎◌, inl, inr, refl, sym, true, false, Option, none, some, List, [], ◌∷◌, ◌==◌,
  Bool-cases,
}
use arrow_head.Prelude.Outcome.{Outcome, value, absent, panicked, out_of_fuel, >>=-eq-value}
use arrow_head.Types.{Address, B256, Bytes}
use arrow_head.Types.Pending.{PreconfirmedState}
use arrow_head.Envelope.{DecodedTx, decode_raw_transaction}
use arrow_head.Flashblocks.{Item}
use arrow_head.Flashblocks.Parser.{inc, Key}
use arrow_head.Flashblocks.Intake.{Intake, admit, admit_raw, intake_item, take_items}
use arrow_head.Flashblocks.Window.{IsIntake, admit-IsIntake}

-- The window and the transactions are those of another intake.
unfoldable pub IsSame : Intake → Intake → Type 0
IsSame s t = (t.seen ≡ s.seen) × (t.seen_order ≡ s.seen_order) × (t.txs ≡ s.txs)

IsSame-IsIntake :
    (old : List Key) (id : B256) (s t : Intake) → IsSame s t → IsIntake old id s → IsIntake old id t
unfolding IsSame IsIntake
IsSame-IsIntake old id s t (e1, e2, e3) h = rw (e1, e2, e3) h

pub value-IsSame : (s u t : Intake) → IsSame s u → value u ≡ value t → IsSame s t
value-IsSame s u t same h = let e : u ≡ t = cc in rw (sym e) same

module _ (keccak : Bytes → B256) (recover : B256 → Bytes → ℕ → Option Address) where
  -- The entry is the bytes of a transaction that decodes.
  unfoldable pub Decodes : Item → DecodedTx → Type 0
  Decodes item d =
      (kind : ℕ) × (rest : Bytes) × (item ≡ Item.text (some (kind ∷ rest)))
      × ((kind == 0x7e) ≡ false)
      × (decode_raw_transaction keccak recover (kind ∷ rest) ≡ value d)

  -- An entry is passed over, which does not decode, or it is admitted.
  unfoldable pub IsTaken : PreconfirmedState → Item → Intake → Intake → Type 0
  IsTaken state item s t =
      (IsSame s t × ((d : DecodedTx) → ¬ Decodes item d))
      ⊎ ((bytes : Bytes) × (d : DecodedTx) × Decodes item d × (t ≡ admit state bytes d s))

  admit_raw-IsTaken :
      (state : PreconfirmedState) (kind : ℕ) (rest : Bytes) (o : Outcome DecodedTx) (s t : Intake)
      → (kind == 0x7e) ≡ false
      → decode_raw_transaction keccak recover (kind ∷ rest) ≡ o
      → admit_raw keccak recover state (kind ∷ rest) o s ≡ value t
      → IsTaken state (Item.text (some (kind ∷ rest))) s t
  unfolding IsTaken Decodes IsSame
  admit_raw-IsTaken state kind rest (value d) s t other e h =
      let same : t ≡ admit state (kind ∷ rest) d s = cc in
      inr (kind ∷ rest, d, (kind, rest, refl, other, e), same)
  admit_raw-IsTaken state kind rest absent s t other e h =
      let same = value-IsSame s _ t (refl, refl, refl) h in
      inl (
        same,
        λ d (k, r, shape, _, dec).
            let here : decode_raw_transaction keccak recover (kind ∷ rest) ≡ value d = cc in cc,
      )
  admit_raw-IsTaken state kind rest panicked s t other e h = cc
  admit_raw-IsTaken state kind rest out_of_fuel s t other e h = cc

  deposit-IsTaken :
      (state : PreconfirmedState) (kind : ℕ) (rest : Bytes) (s t : Intake)
      → (kind == 0x7e) ≡ true
      → value (record s { stats = record s.stats { txs_deposit = inc s.stats.txs_deposit } })
        ≡ value t
      → IsTaken state (Item.text (some (kind ∷ rest))) s t
  unfolding IsTaken Decodes IsSame
  deposit-IsTaken state kind rest s t deposit h = inl (
    value-IsSame s _ t (refl, refl, refl) h,
    λ d (k, r, shape, other, _).
        let same : kind ≡ k = cc in let clash : (kind == 0x7e) ≡ false = rw same other in cc,
  )

  pub intake_item-IsTaken :
      (state : PreconfirmedState) (item : Item) (s t : Intake)
      → intake_item keccak recover state item s ≡ value t
      → IsTaken state item s t
  unfolding intake_item
  intake_item-IsTaken state Item.object s t h =
      unfold IsTaken Decodes IsSame in
      inl (value-IsSame s _ t (refl, refl, refl) h, λ d (k, r, shape, _, _). cc)
  intake_item-IsTaken state (Item.text none) s t h =
      unfold IsTaken Decodes IsSame in
      inl (value-IsSame s _ t (refl, refl, refl) h, λ d (k, r, shape, _, _). cc)
  intake_item-IsTaken state (Item.text (some [])) s t h =
      unfold IsTaken Decodes IsSame in
      inl (value-IsSame s _ t (refl, refl, refl) h, λ d (k, r, shape, _, _). cc)
  intake_item-IsTaken state (Item.text (some (kind ∷ rest))) s t h =
      elim (Bool-cases (kind == 0x7e)) [
        | inl deposit ↦ deposit-IsTaken state kind rest s t deposit (rw deposit at h)
        | inr other ↦
            admit_raw-IsTaken state kind rest (decode_raw_transaction keccak recover (kind ∷ rest))
              s t other refl (rw other at h)
      ]

  taken-IsIntake :
      (old : List Key) (state : PreconfirmedState) (item : Item) (s t : Intake)
      → IsTaken state item s t
      → IsIntake old state.state_id s
      → IsIntake old state.state_id t
  unfolding IsTaken
  taken-IsIntake old state item s t (inl (same, _)) k =
      IsSame-IsIntake old state.state_id s t same k
  taken-IsIntake old state item s t (inr (bytes, d, _, e)) k =
      rw e (admit-IsIntake old state bytes d s k)

  pub take_items-IsIntake :
      (old : List Key) (state : PreconfirmedState) (items : List Item) (s t : Intake)
      → take_items keccak recover state items s ≡ value t
      → IsIntake old state.state_id s
      → IsIntake old state.state_id t
  unfolding take_items
  take_items-IsIntake old state [] s t h k = let e : s ≡ t = cc in rw (sym e) k
  take_items-IsIntake old state (item ∷ items) s t h k =
      let (u, taken, rest) = >>=-eq-value (intake_item keccak recover state item s) _ t h in
      take_items-IsIntake old state items u t rest
        (one u (intake_item-IsTaken state item s u taken))
    where
      one : (u : Intake) → IsTaken state item s u → IsIntake old state.state_id u
      one u taken = taken-IsIntake old state item s u taken k
