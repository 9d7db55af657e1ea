-- ===== src/Ring/Publish.antt =====
-- The bytes that one publication leaves behind.
use hotpathcplusplus.Base.{ℕ, ◌+◌, ◌%◌, ◌^◌, ◌≤◌, ◌<◌, ◌≡◌, ◌∙◌, List, length, bit_or, add32, arith}
use hotpathcplusplus.Base.Bits.{bit_or-one}
use hotpathcplusplus.Ring.Memory.{
  Memory, load, store, read_bytes, write_bytes, read_bytes-write_bytes,
  read_bytes-write_bytes-Apart,
}
use hotpathcplusplus.Ring.Words.{
  places, read_bytes-store, load-store-Apart, load-write_bytes, load-store_four, load-store_mod,
  load-store_eight,
}
use hotpathcplusplus.Ring.Producer.{write_header}
use hotpathcplusplus.Ring.Log.{entry_size, Stored, SameBelow}

-- Reserve's header, the producer's payload and Commit's version, at address `at`.
abbrev pub image : ℕ → Memory → ℕ → ℕ → ℕ → List ℕ → Memory
image capacity m at type stamp payload =
    let m1 = write_header capacity m at (length payload) type stamp in
    let m2 = write_bytes capacity m1 (at + 24) payload in
    store capacity m2 at 4 (add32 (load capacity m2 at 4) 1)

module _ (capacity : ℕ) (m : Memory) (c type stamp : ℕ) where
  -- The address modulo the capacity serves as well as the stream position.
  pub image_congr :
      (payload : List ℕ)
      → image capacity m (c % capacity) type stamp payload ≡ image capacity m c type stamp payload
  unfolding write_header
  image_congr payload = simp places

  -- The frame fits the buffer; from here on addresses are stream positions.
  module _ (payload : List ℕ) (fits : entry_size payload ≤ capacity) where
    header : Memory
    header = write_header capacity m c (length payload) type stamp

    filled : Memory
    unfolding header
    filled = write_bytes capacity header (c + 24) payload

    -- The words of the header under what is written after them.
    under :
        (b : ℕ) (k : ℕ)
        → c + 4 ≤ b
        → b + k ≤ c + 24
        → load capacity (image capacity m c type stamp payload) b k ≡ load capacity header b k
    unfolding header
    under b k low high =
        load-store-Apart capacity _ c 4 _ b k (omega arith)
        ∙ load-write_bytes capacity header (c + 24) payload b k (omega arith)

    length_kept :
        length payload < 2 ^ 32
        → load capacity (image capacity m c type stamp payload) (c + 4) 4 ≡ length payload
    unfolding header write_header
    length_kept small =
        under (c + 4) 4 (omega arith) (omega arith)
        ∙ load-store-Apart capacity _ (c + 16) 8 stamp (c + 4) 4 (omega arith)
        ∙ load-store-Apart capacity _ (c + 8) 4 type (c + 4) 4 (omega arith)
        ∙ load-store_four capacity _ (c + 4) (length payload) (omega arith) small

    type_kept :
        type < 2 ^ 32 → load capacity (image capacity m c type stamp payload) (c + 8) 4 ≡ type
    unfolding header write_header
    type_kept small =
        under (c + 8) 4 (omega arith) (omega arith)
        ∙ load-store-Apart capacity _ (c + 16) 8 stamp (c + 8) 4 (omega arith)
        ∙ load-store_four capacity _ (c + 8) type (omega arith) small

    stamp_kept :
        stamp < 2 ^ 64 → load capacity (image capacity m c type stamp payload) (c + 16) 8 ≡ stamp
    unfolding header write_header
    stamp_kept small =
        under (c + 16) 8 (omega arith) (omega arith)
        ∙ load-store_eight capacity _ (c + 16) stamp (omega arith) small

    payload_kept :
        read_bytes capacity (image capacity m c type stamp payload) (c + 24) (length payload)
        ≡ payload
    unfolding header
    payload_kept =
        read_bytes-store capacity _ c 4 _ (c + 24) (length payload) (omega arith)
        ∙ read_bytes-write_bytes capacity header (c + 24) payload (omega arith)

    -- Reserve makes the version odd, whatever it was.
    header_odd : load capacity header c 4 % 2 ≡ 1
    unfolding header write_header
    header_odd = omega (
      arith,
      load-store-Apart capacity _ (c + 16) 8 stamp c 4 (omega arith)
          ∙ load-store-Apart capacity _ (c + 8) 4 type c 4 (omega arith)
          ∙ load-store-Apart capacity _ (c + 4) 4 (length payload) c 4 (omega arith)
          ∙ load-store_mod capacity m c (bit_or (load capacity m c 4) 1) (omega arith),
      bit_or-one (load capacity m c 4),
    )

    -- Commit makes it even again.
    version_even : load capacity (image capacity m c type stamp payload) c 4 % 2 ≡ 0
    version_even = omega (arith, stored, copied, header_odd)
      where
        copied : load capacity filled c 4 ≡ load capacity header c 4
        copied =
            unfold filled in load-write_bytes capacity header (c + 24) payload c 4 (omega arith)

        stored :
            load capacity (image capacity m c type stamp payload) c 4
            ≡ add32 (load capacity filled c 4) 1 % 2 ^ 32
        stored =
            unfold filled in
            load-store_mod capacity filled c (add32 (load capacity filled c 4) 1) (omega arith)

    pub image-Stored :
        length payload + 7 < 2 ^ 32
        → type < 2 ^ 32
        → stamp < 2 ^ 64
        → Stored capacity
            (image capacity m c type stamp payload)
            (record { pos = c; type = type; stamp = stamp; payload = payload })
    image-Stored h k l = record {
      fits = fits;
      small = h;
      version = version_even;
      length_field = length_kept (omega arith);
      type_field = type_kept k;
      stamp_field = stamp_kept l;
      payload_bytes = payload_kept;
    }

    -- Nothing that the frame does not overwrite has changed.
    pub image-SameBelow :
        SameBelow capacity m (image capacity m c type stamp payload) (c + entry_size payload) c
    unfolding header write_header
    image-SameBelow b n low high =
        read_bytes-store capacity _ c 4 _ b n (omega arith)
        ∙ read_bytes-write_bytes-Apart capacity _ (c + 24) payload b n (omega arith)
        ∙ read_bytes-store capacity _ (c + 16) 8 stamp b n (omega arith)
        ∙ read_bytes-store capacity _ (c + 8) 4 type b n (omega arith)
        ∙ read_bytes-store capacity _ (c + 4) 4 (length payload) b n (omega arith)
        ∙ read_bytes-store capacity m c 4 (bit_or (load capacity m c 4) 1) b n (omega arith)
