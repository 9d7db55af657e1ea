-- ===== src/Spsc/Fifo.antt =====
-- Whatever the interleaving of one TryPush with one TryPop, the consumer gets the producer's items in
-- order, each once.
use hotpathcplusplus.Base.{
  ℕ, suc, ◌%◌, ◌^◌, ◌≤◌, ◌<◌, ◌≡◌, refl, sym, ap, subst, ◌∙◌, inl, inr, [], ◌∷◌, ◌++◌, length,
  get_or, add64, u64_mod, arith, length-replicate,
}
use Prim.Native.Nat.{◌∣◌}
use mathlib.Core.List.{append_assoc}
use hotpathcplusplus.Spsc.Window.{window, contents, length-window}
use hotpathcplusplus.Spsc.Ring.{SpscRingBuffer, new_ring}
use hotpathcplusplus.Spsc.Refine.{IsRing}
use hotpathcplusplus.Spsc.Threads.{
  System, check_room, fill_slot, store_write, check_item, copy_item, store_read, initial, Step,
  load_write, load_read_acquire, fill, release_write, load_read, load_write_acquire, copy,
  release_read, Reach, start, step,
}
use hotpathcplusplus.Spsc.Moves.{
  PushingAt, PoppingAt, used, filled-IsRing, filled-contents, filled-past, filled-PoppingAt,
  used-published, published-IsRing, published-PoppingAt, taken-IsRing, contents-taken,
  taken-PushingAt, room_or_full, empty_or_not,
}

module _ {ℓ} {T : Type ℓ} (k : ℕ) (d : T) where
  -- The ring holds what was sent and not yet received, and each thread's knowledge is true.
  pub record IsRunning (s : System T) : Type ℓ where
    pub ring : IsRing k d s.ring
    pub fifo : s.sent ≡ s.received ++ contents k d s.ring
    pub producer : PushingAt k d s.ring s.pushing
    pub consumer : PoppingAt k d s.ring s.popping

  check_room-IsRunning :
      (s : System T) (item : T) → IsRunning s → IsRunning (check_room k d s s.ring.write_idx item)
  unfolding check_room
  check_room-IsRunning s item v = elim (room_or_full k d (used k d s.ring)) [
    | inl e ↦ rw e (record { ring = v.ring; fifo = v.fifo; producer = tt; consumer = v.consumer })
    | inr (e, room) ↦ rw e (record {
      ring = v.ring;
      fifo = v.fifo;
      producer = (tt, refl, room);
      consumer = v.consumer;
    })
  ]

  fill_slot-IsRunning :
      (s : System T) (item : T)
      → IsRunning s
      → used k d s.ring < 2 ^ k
      → IsRunning (fill_slot k d s s.ring.write_idx item)
  unfolding fill_slot
  fill_slot-IsRunning s item v room = record {
    ring = filled-IsRing k d s.ring item v.ring room;
    fifo = v.fifo ∙ ap (λ xs. s.received ++ xs) (sym (filled-contents k d s.ring item v.ring room));
    producer = (
      refl,
      room,
      filled-past k d s.ring item v.ring room
          ∙ ap (λ xs. xs ++ item ∷ []) (sym (filled-contents k d s.ring item v.ring room)),
    );
    consumer = filled-PoppingAt k d s.ring item v.ring room s.popping v.consumer;
  }

  store_write-IsRunning :
      (s : System T) (item : T)
      → IsRunning s
      → used k d s.ring < 2 ^ k
      → window k d s.ring.slots s.ring.read_idx (suc (used k d s.ring))
        ≡ contents k d s.ring ++ item ∷ []
      → IsRunning (store_write k d s s.ring.write_idx item)
  unfolding store_write
  store_write-IsRunning s item v room past = record {
    ring = published-IsRing k d s.ring v.ring room;
    fifo =
        ap (λ xs. xs ++ item ∷ []) v.fifo
        ∙ append_assoc s.received (contents k d s.ring) (item ∷ [])
        ∙ ap (λ xs. s.received ++ xs)
            (sym past
              ∙ ap (window k d s.ring.slots s.ring.read_idx)
                  (sym (used-published k d s.ring v.ring room)));
    producer = tt;
    consumer = published-PoppingAt k d s.ring v.ring room s.popping v.consumer;
  }

  check_item-IsRunning : (s : System T) → IsRunning s → IsRunning (check_item k d s s.ring.read_idx)
  unfolding check_item
  check_item-IsRunning s v = elim (empty_or_not k d s.ring v.ring) [
    | inl e ↦ rw e (record { ring = v.ring; fifo = v.fifo; producer = v.producer; consumer = tt })
    | inr (e, some_used) ↦ rw e (record {
      ring = v.ring;
      fifo = v.fifo;
      producer = v.producer;
      consumer = (tt, refl, some_used);
    })
  ]

  store_read-IsRunning :
      (s : System T) (x : T)
      → IsRunning s
      → 0 < used k d s.ring
      → x ≡ get_or s.ring.slots (s.ring.read_idx % 2 ^ k) d
      → IsRunning (store_read k d s s.ring.read_idx x)
  unfolding store_read
  store_read-IsRunning s x v some_used e = record {
    ring = taken-IsRing k d s.ring v.ring some_used;
    fifo =
        v.fifo
        ∙ ap (λ xs. s.received ++ xs)
            (contents-taken k d s.ring v.ring some_used ∙ ap (λ y. y ∷ contents k d after) (sym e))
        ∙ sym (append_assoc s.received (x ∷ []) _);
    producer = taken-PushingAt k d s.ring v.ring some_used s.pushing v.producer;
    consumer = tt;
  }
    where
      after : SpscRingBuffer T
      after = record s.ring { read_idx = add64 s.ring.read_idx 1 }

  Step-IsRunning : {s t : System T} → Step k d s t → IsRunning s → IsRunning t
  unfolding copy_item
  Step-IsRunning {s} (load_write item at) v = record {
    ring = v.ring;
    fifo = v.fifo;
    producer = (tt, refl);
    consumer = v.consumer;
  }
  Step-IsRunning {s} (load_read_acquire w item at) v =
      let (_, e) = subst (PushingAt k d s.ring) at v.producer in
      rw e (check_room-IsRunning s item v)
  Step-IsRunning {s} (fill w item at) v =
      let (_, e, room) = subst (PushingAt k d s.ring) at v.producer in
      rw e (fill_slot-IsRunning s item v room)
  Step-IsRunning {s} (release_write w item at) v =
      let (e, room, past) = subst (PushingAt k d s.ring) at v.producer in
      rw e (store_write-IsRunning s item v room past)
  Step-IsRunning {s} (load_read at) v = record {
    ring = v.ring;
    fifo = v.fifo;
    producer = v.producer;
    consumer = (tt, refl);
  }
  Step-IsRunning {s} (load_write_acquire r at) v =
      let (_, e) = subst (PoppingAt k d s.ring) at v.consumer in rw e (check_item-IsRunning s v)
  Step-IsRunning {s} (copy r at) v =
      let (_, e, some_used) = subst (PoppingAt k d s.ring) at v.consumer in
      record {
        ring = v.ring;
        fifo = v.fifo;
        producer = v.producer;
        consumer = (e, some_used, ap (λ (i : ℕ). get_or s.ring.slots (i % 2 ^ k) d) e);
      }
  Step-IsRunning {s} (release_read r x at) v =
      let (e, some_used, h) = subst (PoppingAt k d s.ring) at v.consumer in
      rw e (store_read-IsRunning s x v some_used h)

  initial-IsRunning : 2 ^ k ∣ u64_mod → 2 ^ k < u64_mod → IsRunning (initial k d)
  unfolding initial new_ring window
  initial-IsRunning dvd small = record {
    ring = record {
      width = length-replicate (2 ^ k) d;
      divides = dvd;
      small = small;
      write_in = omega arith;
      read_in = omega arith;
      bounded = omega arith;
    };
    fifo = refl;
    producer = tt;
    consumer = tt;
  }

  Reach-IsRunning : {s : System T} → 2 ^ k ∣ u64_mod → 2 ^ k < u64_mod → Reach k d s → IsRunning s
  Reach-IsRunning dvd small start = initial-IsRunning dvd small
  Reach-IsRunning dvd small (step r t) = Step-IsRunning t (Reach-IsRunning dvd small r)

  -- After any interleaving of the two threads from the empty ring, the items of the pushes that
  -- returned true are those of the pops that returned true, in order, and then at most `2 ^ k` items
  -- that are still in the ring: none is lost, doubled or overtaken, also when the indices wrap. The
  -- capacity `2 ^ k` divides 2^64 and is below it.
  pub received-sent :
      (s : System T)
      → 2 ^ k ∣ u64_mod
      → 2 ^ k < u64_mod
      → Reach k d s
      → (s.sent ≡ s.received ++ contents k d s.ring) × (length (contents k d s.ring) ≤ 2 ^ k)
  received-sent s dvd small r =
      let v = Reach-IsRunning dvd small r in
      (
        v.fifo,
        omega (
          arith,
          length-window k d s.ring.slots s.ring.read_idx (used k d s.ring),
          v.ring.bounded,
        ),
      )
