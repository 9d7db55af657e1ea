-- ===== src/Spsc/Threads.antt =====
-- One thread in TryPush and one in TryPop of SpscRingBuffer at the same time: each load and store of
-- an atomic index, and each access to a slot, is a step of its own, sequentially consistent. The
-- locals `w`, `r` and the copied item live in the place that a thread has reached.
use hotpathcplusplus.Base.{
  ℕ, ◌%◌, ◌^◌, ◌≡◌, List, [], ◌∷◌, ◌++◌, get_or, set, leb, ◌==◌, if◌then◌else◌, add64, sub64,
}
use hotpathcplusplus.Spsc.Ring.{SpscRingBuffer, new_ring}

pub data Pushing {ℓ} (T : Type ℓ) : Type ℓ where
  outside : Pushing T
  loaded_write : (w : ℕ) → T → Pushing T
  has_room : (w : ℕ) → T → Pushing T
  filled_slot : (w : ℕ) → T → Pushing T

pub data Popping {ℓ} (T : Type ℓ) : Type ℓ where
  away : Popping T
  loaded_read : (r : ℕ) → Popping T
  has_item : (r : ℕ) → Popping T
  copied_item : (r : ℕ) → T → Popping T

-- The ring and the two threads, with the items of the calls that returned true, oldest first.
pub record System {ℓ} (T : Type ℓ) : Type ℓ where
  pub ring : SpscRingBuffer T
  pub pushing : Pushing T
  pub popping : Popping T
  pub sent : List T
  pub received : List T

module _ {ℓ} {T : Type ℓ} (k : ℕ) (d : T) where
  unfoldable pub initial : System T
  unfolding new_ring
  initial = record {
    ring = new_ring k d;
    pushing = outside;
    popping = away;
    sent = [];
    received = [];
  }

  -- The producer: `read_idx_.load` and the test for a full ring, the slot, `write_idx_.store`.
  unfoldable pub check_room : System T → ℕ → T → System T
  check_room s w item = record s {
    pushing = if leb (2 ^ k) (sub64 w s.ring.read_idx) then outside else has_room w item;
  }

  unfoldable pub fill_slot : System T → ℕ → T → System T
  fill_slot s w item = record s {
    ring = record s.ring { slots = set s.ring.slots (w % 2 ^ k) item };
    pushing = filled_slot w item;
  }

  unfoldable pub store_write : System T → ℕ → T → System T
  store_write s w item = record s {
    ring = record s.ring { write_idx = add64 w 1 };
    pushing = outside;
    sent = s.sent ++ item ∷ [];
  }

  -- The consumer: `write_idx_.load` and the test for an empty ring, the copy, `read_idx_.store`.
  unfoldable pub check_item : System T → ℕ → System T
  check_item s r = record s { popping = if r == s.ring.write_idx then away else has_item r }

  unfoldable pub copy_item : System T → ℕ → System T
  copy_item s r = record s { popping = copied_item r (get_or s.ring.slots (r % 2 ^ k) d) }

  unfoldable pub store_read : System T → ℕ → T → System T
  store_read s r x = record s {
    ring = record s.ring { read_idx = add64 r 1 };
    popping = away;
    received = s.received ++ x ∷ [];
  }

  pub data Step (s : System T) : System T → Type ℓ where
    load_write :
        (item : T)
        → s.pushing ≡ outside
        → Step s (record s { pushing = loaded_write s.ring.write_idx item })
    load_read_acquire :
        (w : ℕ) (item : T) → s.pushing ≡ loaded_write w item → Step s (check_room s w item)
    fill : (w : ℕ) (item : T) → s.pushing ≡ has_room w item → Step s (fill_slot s w item)
    release_write :
        (w : ℕ) (item : T) → s.pushing ≡ filled_slot w item → Step s (store_write s w item)
    load_read : s.popping ≡ away → Step s (record s { popping = loaded_read s.ring.read_idx })
    load_write_acquire : (r : ℕ) → s.popping ≡ loaded_read r → Step s (check_item s r)
    copy : (r : ℕ) → s.popping ≡ has_item r → Step s (copy_item s r)
    release_read : (r : ℕ) (x : T) → s.popping ≡ copied_item r x → Step s (store_read s r x)

  pub data Reach : System T → Type ℓ where
    start : Reach initial
    step : {s t : System T} → Reach s → Step s t → Reach t
