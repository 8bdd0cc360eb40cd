-- ===== src/TxRing/Slots.antt =====
-- driver/wrapndis.c: the packets in the slots of the ring, as a list.
use ndiswrapper.Base.{
  ℕ, zero, suc, ◌+◌, ◌-◌, ◌%◌, ◌≤◌, ◌<◌, ◌≡◌, refl, sym, ap, ◌∙◌, true, List, [], ◌∷◌, ◌++◌, arith,
  ◌==◌, if◌then◌else◌, update, update_ne, length, take, drop,
}
use ndiswrapper.TxRing.{TxRing, array}

-- The packets in `n` slots from `i` on, around the ring.
unfoldable pub slots : (ℕ → ℕ) → ℕ → ℕ → List ℕ
slots f i zero = []
slots f i (suc n) = f i ∷ slots f ((i + 1) % 16) n

-- How many packets wait: the flag decides between none and all where the ends meet.
unfoldable pub queued : TxRing → ℕ
queued r =
    if r.tx_ring_end == r.tx_ring_start
    then (if r.is_tx_ring_full then 16 else 0)
    else (r.tx_ring_end + 16 - r.tx_ring_start) % 16

-- The packets that wait, oldest first.
unfoldable pub contents : TxRing → List ℕ
contents r = slots r.tx_ring r.tx_ring_start (queued r)

-- The ends are slots, and the flag is set only where they meet.
pub record IsRing (r : TxRing) : Type 0 where
  pub start : r.tx_ring_start < 16
  pub end : r.tx_ring_end < 16
  pub full : r.is_tx_ring_full ≡ true → r.tx_ring_end ≡ r.tx_ring_start

pub length-slots : (f : ℕ → ℕ) (i n : ℕ) → length (slots f i n) ≡ n
unfolding slots
length-slots f i zero = refl
length-slots f i (suc n) = ap suc (length-slots f ((i + 1) % 16) n)

-- A write to a slot outside of the range.
pub slots-update :
    (f : ℕ → ℕ) (e p i n : ℕ)
    → i < 16
    → e < 16
    → n ≤ (e + 16 - i) % 16
    → slots (update f e p) i n ≡ slots f i n
unfolding slots
slots-update f e p i zero hi he h = refl
slots-update f e p i (suc n) hi he h =
    let rest = slots-update f e p ((i + 1) % 16) n (omega arith) he (omega arith) in
    rw (update_ne f e i p (omega arith)) (ap (λ l. f i ∷ l) rest)

pub slots_last :
    (f : ℕ → ℕ) (i n : ℕ) → i < 16 → slots f i (suc n) ≡ slots f i n ++ f ((i + n) % 16) ∷ []
unfolding slots
slots_last f i zero h = let same : (i + 0) % 16 ≡ i = omega arith in ap (λ k. f k ∷ []) (sym same)
slots_last f i (suc n) h =
    let same : ((i + 1) % 16 + n) % 16 ≡ (i + suc n) % 16 = omega arith in
    ap (λ l. f i ∷ l)
      (slots_last f ((i + 1) % 16) n (omega arith)
        ∙ ap (λ k. slots f ((i + 1) % 16) n ++ f k ∷ []) same)

pub drop-slots :
    (f : ℕ → ℕ) (i k n : ℕ) → i < 16 → k ≤ n → drop k (slots f i n) ≡ slots f ((i + k) % 16) (n - k)
unfolding slots
drop-slots f i zero n h g =
    let same : (i + 0) % 16 ≡ i = omega arith in let all : n - 0 ≡ n = omega arith in rw (same, all)
drop-slots f i (suc k) zero h g = absurd (omega arith)
drop-slots f i (suc k) (suc n) h g =
    let same : ((i + 1) % 16 + k) % 16 ≡ (i + suc k) % 16 = omega arith in
    let less : n - k ≡ suc n - suc k = omega arith in
    drop-slots f ((i + 1) % 16) k n (omega arith) (omega arith)
    ∙ ap (λ j. slots f j (n - k)) same
    ∙ ap (λ m. slots f ((i + suc k) % 16) m) less

pub take-slots :
    (f : ℕ → ℕ) (i k n : ℕ) → i < 16 → i + k ≤ 16 → k ≤ n → take k (slots f i n) ≡ array f i k
unfolding slots array
take-slots f i zero n h g l = refl
take-slots f i (suc k) zero h g l = absurd (omega arith)
take-slots f i (suc zero) (suc n) h g l = refl
take-slots f i (suc (suc k)) (suc n) h g l =
    let same : (i + 1) % 16 ≡ suc i = omega arith in
    ap (λ l. f i ∷ l)
      (ap (λ j. take (suc k) (slots f j n)) same
        ∙ take-slots f (suc i) (suc k) n (omega arith) (omega arith) (omega arith))
