-- ===== src/SequenceRing/RcvRing/Create.antt =====
-- Wiping and creating a receive ring of src/sequence_ring.c.
use skylink.Base.{
  ℕ, zero, suc, ◌+◌, ◌<◌, ◌≤◌, ◌≡◌, refl, sym, subst, ◌∙◌, arith, true, ◌&&◌, Option, some, none,
  if◌then◌else◌, ltb, leb,
}
use skylink.Base.Int.{ℤ, pos, negsuc}
use skylink.ElementBuffer.{ElementBuffer}
use skylink.SequenceRing.{RingItem, empty_item, is_vacant}
use skylink.SequenceRing.RcvRing.{
  RcvRing, put_item, delete_item, wipe_slots, wipe, allocated, create,
}
use skylink.SequenceRing.RcvRing.Invariant.{IsValid, IsSettled, readable}

-- Every slot of the range is empty afterwards.
pub wipe_slots-vacant :
    (k i : ℕ) (buff : ℕ → RingItem) (eb : Option ElementBuffer) (y : ℕ)
    → (wipe_slots k i buff eb).0 y ≡ (if leb i y && ltb y (i + k) then empty_item else buff y)
unfolding wipe_slots
wipe_slots-vacant zero i buff eb y = ground arith
wipe_slots-vacant (suc k) i buff eb y =
    wipe_slots-vacant k (i + 1) (put_item buff i empty_item) (delete_item (buff i) eb) y
    ∙ ground arith

-- A wiped ring is valid, settled and empty, and starts at the given sequence.
pub wipe-IsSettled :
    (r : RcvRing) (eb : Option ElementBuffer) (initial_sequence : ℕ)
    → r.horizon_width < r.size
    → r.horizon_width < 256
    → initial_sequence < 256
    → let r' = (wipe r eb initial_sequence).0 in
      IsValid r'
      × IsSettled r'
      × (readable r' ≡ 0)
      × (r'.head_sequence ≡ initial_sequence)
      × ((i : ℕ) → i < r.size → is_vacant (r'.buff i) ≡ true)
unfolding wipe
wipe-IsSettled r eb initial_sequence h narrow u8 = (
  record {
    head_in = omega arith;
    tail_in = omega arith;
    head_u8 = u8;
    tail_u8 = u8;
    sequences = omega arith;
    room = omega arith;
    narrow = narrow;
    received = λ k p. absurd (omega arith);
  },
  ground (arith, vacant 0 (omega arith)),
  omega arith,
  refl,
  vacant,
)
  where
    vacant : (i : ℕ) → i < r.size → is_vacant ((wipe_slots r.size 0 r.buff eb).0 i) ≡ true
    vacant i p = ground (arith, wipe_slots-vacant r.size 0 r.buff eb i)

-- What `create` has checked of its arguments.
created :
    (size horizon_width : ℤ) (initial_sequence : ℕ) (r : RcvRing)
    → create size horizon_width initial_sequence ≡ some r
    → (n : ℕ) × (w : ℕ) × (w + 3 ≤ n) × (r ≡ (wipe (allocated n w) none initial_sequence).0)
unfolding create
created (pos n) (pos w) i r e = (n, w, ground arith, ground arith)
created (negsuc n) w i r e = absurd (ground arith)
created (pos n) (negsuc w) i r e = absurd (ground arith)

-- A created ring is valid, settled and empty, and its horizon is at most the maximum.
pub create-IsValid :
    (size horizon_width : ℤ) (initial_sequence : ℕ) (r : RcvRing)
    → initial_sequence < 256
    → create size horizon_width initial_sequence ≡ some r
    → IsValid r × IsSettled r × (readable r ≡ 0) × (r.head_sequence ≡ initial_sequence)
create-IsValid size horizon_width i r u8 e =
    let (n, w, fits, made) = created size horizon_width i r e in
    let v = wipe-IsSettled (allocated n w) none i (ground arith) (ground arith) u8 in
    subst (λ (k : RcvRing). IsValid k × IsSettled k × (readable k ≡ 0) × (k.head_sequence ≡ i))
      (sym made) (v.0, v.1, v.2, v.3)
