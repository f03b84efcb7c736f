-- ===== src/HyperCore/CoreWriter.antt =====
-- bot/crates/hypercore/src/corewriter.rs
use skua.Prelude.{ℕ, Bool, false}
use skua.Float.{Float}
use skua.World.{Call, place_order}

abbrev pub corewriter_address : ℕ
corewriter_address = 0x3333333333333333333333333333333333333333

pub data Tif : Type 0 where
  alo gtc ioc : Tif

unfoldable pub tif_code : Tif → ℕ
tif_code alo = 1
tif_code gtc = 2
tif_code ioc = 3

pub record PlaceOrderParams (F : Type 0) : Type 0 where
  pub market_index : ℕ
  pub is_buy : Bool
  pub limit_px_usd : F
  pub size : F
  pub tif : Tif
  pub cloid : ℕ

module _ {F : Type 0} ⦃fl : Float F⦄ where
  open fl use {dec, ◌⊗◌, trunc}

  unfoldable pub encode_price : PlaceOrderParams F → ℕ
  encode_price o = trunc 64 (◌⊗◌ o.limit_px_usd (dec 100_000_000 0))

  unfoldable pub encode_size : PlaceOrderParams F → ℕ
  encode_size o = trunc 64 (◌⊗◌ o.size (dec 100_000_000 0))

  unfoldable pub calldata : PlaceOrderParams F → Call
  unfolding encode_price encode_size tif_code
  calldata o =
      place_order o.market_index o.is_buy (encode_price o) (encode_size o) (tif_code o.tif) o.cloid

  unfoldable pub build_s1_sell_order : ℕ → F → F → ℕ → PlaceOrderParams F
  build_s1_sell_order market_index size limit_px_usd cloid = record {
    market_index = market_index;
    is_buy = false;
    limit_px_usd = limit_px_usd;
    size = size;
    tif = ioc;
    cloid = cloid;
  }
