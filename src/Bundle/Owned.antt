-- ===== src/Bundle/Owned.antt =====
-- The bot's own transactions of a bundle of bot/crates/mev-bot/src/bundle.rs, and the others'.
use arrow_head.Prelude.{
  ◌≡◌, refl, ap, List, [], ◌∷◌, ◌++◌, map, if◌then◌else◌, Bool-cases, inl, inr,
}
use arrow_head.Types.{B256, Bytes, BundleTx}
use arrow_head.Bundle.{victim_tx}

-- The bot's own transactions, and the raw bytes of the others.
abbrev pub owned : List BundleTx → List BundleTx
owned [] = []
owned (t ∷ ts) = if t.foreign then owned ts else t ∷ owned ts

abbrev pub victims : List BundleTx → List Bytes
victims [] = []
victims (t ∷ ts) = if t.foreign then t.raw ∷ victims ts else victims ts

pub owned-append : (ts us : List BundleTx) → owned (ts ++ us) ≡ owned ts ++ owned us
owned-append [] us = refl
owned-append (t ∷ ts) us = elim (Bool-cases t.foreign) [
  | inl f ↦ rw (f, owned-append ts us) refl
  | inr f ↦ rw (f, owned-append ts us) refl
]

pub victims-append : (ts us : List BundleTx) → victims (ts ++ us) ≡ victims ts ++ victims us
victims-append [] us = refl
victims-append (t ∷ ts) us = elim (Bool-cases t.foreign) [
  | inl f ↦ rw (f, victims-append ts us) refl
  | inr f ↦ rw (f, victims-append ts us) refl
]

module _ (keccak : Bytes → B256) where
  pub owned-victims : (raws : List Bytes) → owned (map (victim_tx keccak) raws) ≡ []
  unfolding victim_tx
  owned-victims [] = refl
  owned-victims (r ∷ rs) = owned-victims rs

  pub victims-victims : (raws : List Bytes) → victims (map (victim_tx keccak) raws) ≡ raws
  unfolding victim_tx
  victims-victims [] = refl
  victims-victims (r ∷ rs) = ap (λ l. r ∷ l) (victims-victims rs)
