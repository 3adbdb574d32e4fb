-- ===== src/Inventory/Nonces.antt =====
-- Reservations of nonces under any interleaving of the submission lane and the chain refresh.
use arrow_head.Prelude.{
  ℕ, zero, suc, ◌+◌, ◌≤◌, ◌<◌, ◌≡◌, true, false, Option, none, some, List, [], ◌∷◌, arith, u64_mod,
  get_elem?,
}
use arrow_head.Inventory.{
  Inventory, reserve_nonces, release_nonces, advance_chain_nonce, block_broadcast_until, refresh,
}

-- A reservation that its holder has not given back: its first nonce and how many.
pub record Reservation : Type 0 where
  pub start : ℕ
  pub count : ℕ

-- The inventory with the reservations that are held, the newest first.
pub record World : Type 0 where
  pub inventory : Inventory
  pub held : List Reservation

abbrev pub remove : ℕ → List Reservation → List Reservation
remove i [] = []
remove zero (r ∷ rs) = rs
remove (suc i) (r ∷ rs) = r ∷ remove i rs

-- The parsed answer of the node is a `u64`.
abbrev pub IsAnswer : Option ℕ → Type 0
IsAnswer none = Unit {0}
IsAnswer (some n) = n < u64_mod

-- One call of the inventory. A holder gives any of its reservations back, and loses it only when
-- the compare-exchange succeeds.
pub data Step : World → World → Type 0 where
  reserve :
      (w : World) (count : ℕ)
      → 0 < count
      → w.inventory.nonce + count < u64_mod
      → Step w (record {
        inventory = (reserve_nonces w.inventory count).1;
        held = record { start = (reserve_nonces w.inventory count).0; count = count } ∷ w.held;
      })
  release :
      (w : World) (i : ℕ) (r : Reservation)
      → get_elem? w.held i ≡ some r
      → (release_nonces w.inventory r.start r.count).0 ≡ true
      → Step w (record {
        inventory = (release_nonces w.inventory r.start r.count).1;
        held = remove i w.held;
      })
  release_refused :
      (w : World) (i : ℕ) (r : Reservation)
      → get_elem? w.held i ≡ some r
      → (release_nonces w.inventory r.start r.count).0 ≡ false
      → Step w (record w { inventory = (release_nonces w.inventory r.start r.count).1 })
  refreshed :
      (w : World) (count balance : Option ℕ) (executor : Option (Option ℕ))
      → IsAnswer count
      → Step w (record w { inventory = refresh count balance executor w.inventory })
  advanced :
      (w : World) (n : ℕ)
      → n < u64_mod
      → Step w (record w { inventory = advance_chain_nonce w.inventory n })
  blocked :
      (w : World) (block : ℕ)
      → Step w (record w { inventory = block_broadcast_until w.inventory block })

pub data Reach (s : World) : World → Type 0 where
  here : Reach s s
  next : {t u : World} → Reach s t → Step t u → Reach s u

-- Each reservation lies below the bound and above all that were made before it.
abbrev pub Stacked : ℕ → List Reservation → Type 0
Stacked n [] = Unit {0}
Stacked n (r ∷ rs) = (r.start + r.count ≤ n) × (0 < r.count) × Stacked r.start rs

pub record IsValid (w : World) : Type 0 where
  pub stacked : Stacked w.inventory.nonce w.held
  pub word : w.inventory.nonce < u64_mod

Stacked-weaken : (m n : ℕ) (rs : List Reservation) → Stacked m rs → m ≤ n → Stacked n rs
Stacked-weaken m n [] h le = tt
Stacked-weaken m n (r ∷ rs) h le = (omega arith, h.1, h.2)

-- A held reservation that reaches up to the bound is the newest one.
below-get_elem? :
    (n i : ℕ) (rs : List Reservation) (r : Reservation)
    → Stacked n rs
    → get_elem? rs i ≡ some r
    → r.start + r.count ≤ n
below-get_elem? n i [] r h e = cc
below-get_elem? n zero (x ∷ rs) r h e = ground arith
below-get_elem? n (suc i) (x ∷ rs) r h e =
    omega (arith, below-get_elem? x.start i rs r h.2 e, h.0, h.1)

Stacked-remove :
    (n i : ℕ) (rs : List Reservation) (r : Reservation)
    → Stacked n rs
    → get_elem? rs i ≡ some r
    → r.start + r.count ≡ n
    → Stacked r.start (remove i rs)
Stacked-remove n i [] r h e top = cc
Stacked-remove n zero (x ∷ rs) r h e top = ground arith
Stacked-remove n (suc i) (x ∷ rs) r h e top =
    absurd (omega (arith, below-get_elem? x.start i rs r h.2 e, h.0, h.1))

-- What a compare-exchange that succeeds has seen and stored.
release_nonces-true :
    (v : Inventory) (s c : ℕ)
    → (release_nonces v s c).0 ≡ true
    → s + c ≤ v.nonce
    → v.nonce < u64_mod
    → (s + c ≡ v.nonce) × ((release_nonces v s c).1.nonce ≡ s)
unfolding release_nonces
release_nonces-true v s c e le word = ground arith

release_nonces-false :
    (v : Inventory) (s c : ℕ) → (release_nonces v s c).0 ≡ false → (release_nonces v s c).1 ≡ v
unfolding release_nonces
release_nonces-false v s c e = ground arith

release_nonces-short :
    (v : Inventory) (r : Reservation)
    → r.start + r.count < v.nonce
    → v.nonce < u64_mod
    → release_nonces v r.start r.count ≡ (false, v)
unfolding release_nonces
release_nonces-short v r lt word = ground arith

nonce-le-refresh :
    (count balance : Option ℕ) (executor : Option (Option ℕ)) (v : Inventory)
    → v.nonce ≤ (refresh count balance executor v).nonce
unfolding refresh
nonce-le-refresh none balance executor v = omega arith
nonce-le-refresh (some n) balance executor v = omega arith

refresh-word :
    (count balance : Option ℕ) (executor : Option (Option ℕ)) (v : Inventory)
    → IsAnswer count
    → v.nonce < u64_mod
    → (refresh count balance executor v).nonce < u64_mod
unfolding refresh
refresh-word none balance executor v a h = omega arith
refresh-word (some n) balance executor v a h = omega arith

pub Step-IsValid : {w u : World} → Step w u → IsValid w → IsValid u
unfolding reserve_nonces
Step-IsValid (reserve w count pos fits) v = ground arith
Step-IsValid (release w i r e ok) v =
    let below = below-get_elem? w.inventory.nonce i w.held r v.stacked e in
    let (top, left) = release_nonces-true w.inventory r.start r.count ok below v.word in
    record {
      stacked = rw left (Stacked-remove w.inventory.nonce i w.held r v.stacked e top);
      word = omega (arith, v.word);
    }
Step-IsValid (release_refused w i r e no_release) v =
    rw (release_nonces-false w.inventory r.start r.count no_release) v
Step-IsValid (refreshed w count balance executor a) v = record {
  stacked =
      Stacked-weaken _ _ w.held v.stacked (nonce-le-refresh count balance executor w.inventory);
  word = refresh-word count balance executor w.inventory a v.word;
}
Step-IsValid (advanced w n a) v =
    unfold advance_chain_nonce in
    record {
      stacked = Stacked-weaken _ _ w.held v.stacked (omega arith);
      word = omega (arith, v.word);
    }
Step-IsValid (blocked w block) v =
    unfold block_broadcast_until in record { stacked = v.stacked; word = v.word }

pub Reach-IsValid : {w u : World} → Reach w u → IsValid w → IsValid u
Reach-IsValid here v = v
Reach-IsValid (next r s) v = Step-IsValid s (Reach-IsValid r v)

Stacked-disjoint :
    (n i j : ℕ) (rs : List Reservation) (r q : Reservation)
    → Stacked n rs
    → i < j
    → get_elem? rs i ≡ some r
    → get_elem? rs j ≡ some q
    → q.start + q.count ≤ r.start
Stacked-disjoint n i j [] r q h lt er eq = cc
Stacked-disjoint n zero zero (x ∷ rs) r q h lt er eq = absurd (omega arith)
Stacked-disjoint n zero (suc j) (x ∷ rs) r q h lt er eq =
    ground (arith, below-get_elem? x.start j rs q h.2 eq)
Stacked-disjoint n (suc i) zero (x ∷ rs) r q h lt er eq = absurd (omega arith)
Stacked-disjoint n (suc i) (suc j) (x ∷ rs) r q h lt er eq =
    Stacked-disjoint x.start i j rs r q h.2 (omega arith) er eq

-- Whatever the order of reservations (which do not wrap the counter), releases (granted or refused),
-- chain refreshes, advances of the chain nonce and blocks of the broadcast from a valid world, two
-- reservations that are held at once share no nonce: the older ends where the newer begins or
-- before, and both end at the inventory's nonce or before.
pub Reach-disjoint :
    {w u : World} (i j : ℕ) (r q : Reservation)
    → IsValid w
    → Reach w u
    → i < j
    → get_elem? u.held i ≡ some r
    → get_elem? u.held j ≡ some q
    → (q.start + q.count ≤ r.start) × (r.start + r.count ≤ u.inventory.nonce)
Reach-disjoint {u = u} i j r q v run lt er eq =
    let h = (Reach-IsValid run v).stacked in
    (Stacked-disjoint _ i j u.held r q h lt er eq, below-get_elem? _ i u.held r h er)

-- From a valid world, a release of any held reservation but the newest is refused and leaves the
-- inventory as it was, so that a nonce which is still reserved is not handed out again.
pub release_nonces-older :
    (w : World) (i : ℕ) (r : Reservation)
    → IsValid w
    → get_elem? w.held (suc i) ≡ some r
    → release_nonces w.inventory r.start r.count ≡ (false, w.inventory)
release_nonces-older w i r v e = refused w.inventory w.held v.stacked v.word e
  where
    refused :
        (n : Inventory) (rs : List Reservation)
        → Stacked n.nonce rs
        → n.nonce < u64_mod
        → get_elem? rs (suc i) ≡ some r
        → release_nonces n r.start r.count ≡ (false, n)
    refused n [] h word e = cc
    refused n (x ∷ rs) h word e =
        release_nonces-short n r (omega (arith, h.0, h.1, below-get_elem? x.start i rs r h.2 e))
          word
