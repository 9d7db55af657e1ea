-- ===== src/Events/Flat.antt =====
-- Event with its subclasses (cpp_vs_java_jit.h and cpp_vs_java_jit_oop_tu.cc) and FlatEvent. An
-- std::int64_t is its two's complement word; an overflow, undefined in C++, wraps here on both sides.
use hotpathcplusplus.Base.{
  ℕ, zero, suc, ◌+◌, ◌-◌, ◌/◌, ◌^◌, ◌≡◌, refl, Option, some, update, ltb, if◌then◌else◌, bit_xor,
  add64, sub64, mul64, u64_mod,
}

-- `x >> k` on std::int64_t rounds down
unfoldable pub shift_right : ℕ → ℕ → ℕ
shift_right x k = if ltb x (2 ^ 63) then x / 2 ^ k else u64_mod - (u64_mod - x + 2 ^ k - 1) / 2 ^ k

pub record OrderResult : Type 0 where
  pub notional : ℕ
  pub fee_ticks : ℕ

-- the members of the base class
pub record Event : Type 0 where
  pub price : ℕ
  pub qty : ℕ
  pub symbol_id : ℕ
  pub type_tag : ℕ

-- an object, by its dynamic type
pub data EventObject : Type 0 where
  limit_order_event cancel_order_event modify_order_event : Event → EventObject
  pegged_order_event market_halt_event : Event → EventObject

-- MakeEventByType
unfoldable pub make_event_by_type : (type_tag price qty symbol_id : ℕ) → EventObject
make_event_by_type zero price qty symbol_id =
    limit_order_event (record { price = price; qty = qty; symbol_id = symbol_id; type_tag = 0 })
make_event_by_type (suc zero) price qty symbol_id =
    cancel_order_event (record { price = price; qty = qty; symbol_id = symbol_id; type_tag = 1 })
make_event_by_type (suc (suc zero)) price qty symbol_id =
    modify_order_event (record { price = price; qty = qty; symbol_id = symbol_id; type_tag = 2 })
make_event_by_type (suc (suc (suc zero))) price qty symbol_id =
    pegged_order_event (record { price = price; qty = qty; symbol_id = symbol_id; type_tag = 3 })
make_event_by_type (suc (suc (suc (suc n)))) price qty symbol_id =
    market_halt_event (record {
      price = price;
      qty = qty;
      symbol_id = symbol_id;
      type_tag = suc (suc (suc (suc n)));
    })

-- ConstructEventInPlace: an arena is what each slot holds, and the same switch fills one slot
unfoldable pub construct_event_in_place :
    (ℕ → Option EventObject) → ℕ → (type_tag price qty symbol_id : ℕ) → ℕ → Option EventObject
unfolding make_event_by_type
construct_event_in_place arena arena_slot type_tag price qty symbol_id =
    update arena arena_slot (some (make_event_by_type type_tag price qty symbol_id))

unfoldable pub process_heap_alloc : EventObject → OrderResult
process_heap_alloc (limit_order_event e) =
    let gross = mul64 e.price e.qty in record { notional = gross; fee_ticks = shift_right gross 10 }
process_heap_alloc (cancel_order_event e) = record {
  notional = sub64 0 (mul64 e.price e.qty);
  fee_ticks = 0;
}
process_heap_alloc (modify_order_event e) =
    let gross = mul64 e.price (add64 e.qty 1) in
    record { notional = gross; fee_ticks = shift_right gross 9 }
process_heap_alloc (pegged_order_event e) = record {
  notional = mul64 (add64 e.price 2) e.qty;
  fee_ticks = 1;
}
process_heap_alloc (market_halt_event e) = record {
  notional = bit_xor (mul64 (mul64 e.price e.qty) 3) e.symbol_id;
  fee_ticks = 0;
}

unfoldable pub process_no_alloc : EventObject → ℕ
process_no_alloc (limit_order_event e) =
    let gross = mul64 e.price e.qty in sub64 gross (shift_right gross 10)
process_no_alloc (cancel_order_event e) = sub64 0 (mul64 e.price e.qty)
process_no_alloc (modify_order_event e) =
    sub64 (mul64 e.price (add64 e.qty 1)) (shift_right (mul64 e.price e.qty) 9)
process_no_alloc (pegged_order_event e) = mul64 (add64 e.price 2) e.qty
process_no_alloc (market_halt_event e) = bit_xor (mul64 (mul64 e.price e.qty) 3) e.symbol_id

pub record FlatEvent : Type 0 where
  pub price : ℕ
  pub qty : ℕ
  pub symbol_id : ℕ
  pub type_tag : ℕ

-- the switch of ProcessInline, on the tag
unfoldable pub process_tag : (type_tag price qty symbol_id : ℕ) → ℕ
process_tag zero price qty symbol_id = sub64 (mul64 price qty) (shift_right (mul64 price qty) 10)
process_tag (suc zero) price qty symbol_id = sub64 0 (mul64 price qty)
process_tag (suc (suc zero)) price qty symbol_id =
    sub64 (mul64 price (add64 qty 1)) (shift_right (mul64 price qty) 9)
process_tag (suc (suc (suc zero))) price qty symbol_id = mul64 (add64 price 2) qty
process_tag (suc (suc (suc (suc n)))) price qty symbol_id =
    bit_xor (mul64 (mul64 price qty) 3) symbol_id

unfoldable pub process_inline : FlatEvent → ℕ
unfolding process_tag
process_inline e = process_tag e.type_tag e.price e.qty e.symbol_id

by_tag : (t p q s : ℕ) → process_tag t p q s ≡ process_no_alloc (make_event_by_type t p q s)
unfolding process_tag process_no_alloc make_event_by_type
by_tag zero p q s = refl
by_tag (suc zero) p q s = refl
by_tag (suc (suc zero)) p q s = refl
by_tag (suc (suc (suc zero))) p q s = refl
by_tag (suc (suc (suc (suc n)))) p q s = refl

-- For every tag, known or not, ProcessInline gives what ProcessNoAlloc gives on the object that
-- MakeEventByType makes of the same tag, price, quantity and symbol.
pub process_inline-process_no_alloc :
    (e : FlatEvent)
    → process_inline e ≡ process_no_alloc (make_event_by_type e.type_tag e.price e.qty e.symbol_id)
unfolding process_inline
process_inline-process_no_alloc e = by_tag e.type_tag e.price e.qty e.symbol_id
