-- ===== src/Dispatch/Instruments.antt =====
-- common/dispatch/instrument_feed.h, in the same way as the orders.
use hotpathcplusplus.Base.{ℕ, ◌≡◌, refl, Bool}
use hotpathcplusplus.Dispatch.Float.{Float}

pub record Stock {ℓ} (D : Type ℓ) : Type ℓ where
  pub id_ : ℕ
  pub price_ : D
  pub volume_ : ℕ

pub record Bond {ℓ} (D : Type ℓ) : Type ℓ where
  pub id_ : ℕ
  pub face_value_ : D
  pub coupon_rate_ : D

-- the class Option of the source
pub record OptionContract {ℓ} (D : Type ℓ) : Type ℓ where
  pub id_ : ℕ
  pub strike_ : D
  pub premium_ : D
  pub is_call_ : Bool

pub record StockPod {ℓ} (D : Type ℓ) : Type ℓ where
  pub id : ℕ
  pub price : D
  pub volume : ℕ

pub record BondPod {ℓ} (D : Type ℓ) : Type ℓ where
  pub id : ℕ
  pub face_value : D
  pub coupon_rate : D

pub record OptionPod {ℓ} (D : Type ℓ) : Type ℓ where
  pub id : ℕ
  pub strike : D
  pub premium : D
  pub is_call : Bool

pub data Instrument {ℓ} (D : Type ℓ) : Type ℓ where
  stock : Stock D → Instrument D
  bond : Bond D → Instrument D
  option : OptionContract D → Instrument D

pub data InstrumentVariant {ℓ} (D : Type ℓ) : Type ℓ where
  stock_pod : StockPod D → InstrumentVariant D
  bond_pod : BondPod D → InstrumentVariant D
  option_pod : OptionPod D → InstrumentVariant D

module _ {ℓ} {D : Type ℓ} ⦃f : Float D⦄ where
  -- Instrument::Process with its overrides
  unfoldable pub process : Instrument D → D
  process (stock s) = f.times s.price_ (f.of_int s.volume_)
  process (bond b) = f.times b.face_value_ (f.plus f.one_value b.coupon_rate_)
  process (option o) = f.plus o.strike_ o.premium_

  unfoldable pub process_instrument : InstrumentVariant D → D
  process_instrument (stock_pod s) = f.times s.price (f.of_int s.volume)
  process_instrument (bond_pod b) = f.times b.face_value (f.plus f.one_value b.coupon_rate)
  process_instrument (option_pod o) = f.plus o.strike o.premium

-- The same instrument in the other representation.
abbrev pub to_pod {ℓ} : {D : Type ℓ} → Instrument D → InstrumentVariant D
to_pod (stock s) = stock_pod (record { id = s.id_; price = s.price_; volume = s.volume_ })
to_pod (bond b) =
    bond_pod (record { id = b.id_; face_value = b.face_value_; coupon_rate = b.coupon_rate_ })
to_pod (option o) =
    option_pod
      (record { id = o.id_; strike = o.strike_; premium = o.premium_; is_call = o.is_call_ })

module _ {ℓ} {D : Type ℓ} ⦃f : Float D⦄ where
  -- For any arithmetic on prices, ProcessInstrument gives what the virtual call gives.
  pub process_instrument-process : (i : Instrument D) → process_instrument (to_pod i) ≡ process i
  unfolding process_instrument process
  process_instrument-process (stock s) = refl
  process_instrument-process (bond b) = refl
  process_instrument-process (option o) = refl
