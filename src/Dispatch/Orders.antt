-- ===== src/Dispatch/Orders.antt =====
-- common/dispatch/order_dispatcher.h. An object behind a BaseOrder pointer is its dynamic type with
-- its fields, and the virtual call chooses by that type; std::visit chooses by the alternative.
use hotpathcplusplus.Base.{ℕ, ◌≡◌, refl, if◌then◌else◌}
use hotpathcplusplus.Dispatch.Float.{Float}

pub record BuyLimitOrder {ℓ} (D : Type ℓ) : Type ℓ where
  pub id_ : ℕ
  pub limit_price_ : D
  pub quantity_ : ℕ

pub record SellMarketOrder : Type 0 where
  pub id_ : ℕ
  pub quantity_ : ℕ

pub record CancelOrder : Type 0 where
  pub id_ : ℕ

pub record BuyLimit {ℓ} (D : Type ℓ) : Type ℓ where
  pub id : ℕ
  pub limit_price : D
  pub quantity : ℕ

pub record SellMarket : Type 0 where
  pub id : ℕ
  pub quantity : ℕ

pub record Cancel : Type 0 where
  pub id : ℕ

pub data BaseOrder {ℓ} (D : Type ℓ) : Type ℓ where
  buy_limit_order : BuyLimitOrder D → BaseOrder D
  sell_market_order : SellMarketOrder → BaseOrder D
  cancel_order : CancelOrder → BaseOrder D

pub data OrderVariant {ℓ} (D : Type ℓ) : Type ℓ where
  buy_limit : BuyLimit D → OrderVariant D
  sell_market : SellMarket → OrderVariant D
  cancel : Cancel → OrderVariant D

module _ {ℓ} {D : Type ℓ} ⦃f : Float D⦄ where
  -- BaseOrder::Execute with its overrides
  unfoldable pub execute : BaseOrder D → D → D
  execute (buy_limit_order o) price =
      if f.at_most price o.limit_price_
      then f.times o.limit_price_ (f.of_int o.quantity_)
      else f.zero_value
  execute (sell_market_order o) price = f.times price (f.of_int o.quantity_)
  execute (cancel_order o) price = f.zero_value

  unfoldable pub execute_variant : OrderVariant D → D → D
  execute_variant (buy_limit o) price =
      if f.at_most price o.limit_price
      then f.times o.limit_price (f.of_int o.quantity)
      else f.zero_value
  execute_variant (sell_market o) price = f.times price (f.of_int o.quantity)
  execute_variant (cancel o) price = f.zero_value

  unfoldable pub dispatch_order : OrderVariant D → D → D
  dispatch_order order price = execute_variant order price

-- The same order in the other representation.
abbrev pub to_variant {ℓ} : {D : Type ℓ} → BaseOrder D → OrderVariant D
to_variant (buy_limit_order o) =
    buy_limit (record { id = o.id_; limit_price = o.limit_price_; quantity = o.quantity_ })
to_variant (sell_market_order o) = sell_market (record { id = o.id_; quantity = o.quantity_ })
to_variant (cancel_order o) = cancel (record { id = o.id_ })

module _ {ℓ} {D : Type ℓ} ⦃f : Float D⦄ where
  -- For any arithmetic on prices, DispatchOrder on the variant gives what the virtual call gives.
  pub dispatch_order-execute :
      (o : BaseOrder D) (price : D) → dispatch_order (to_variant o) price ≡ execute o price
  unfolding dispatch_order execute execute_variant
  dispatch_order-execute (buy_limit_order o) price = refl
  dispatch_order-execute (sell_market_order o) price = refl
  dispatch_order-execute (cancel_order o) price = refl
