-- ===== src/Utils/Conv.antt =====
-- internal/utils/conv.go, over the operations of `big.Float` that it uses.
use d8x_etherfi.Base.{ℕ, ◌^◌}
use d8x_etherfi.Base.Int.{ℤ, pos}

-- `new(big.Float).SetInt`, `new(big.Float).Quo` and the number of `Float64`.
pub record BigFloat (B F : Type 0) : Type 0 where
  pub set_int : ℤ → B
  pub quo : B → B → B
  pub float64 : B → F

module _ {B F : Type 0} (big : BigFloat B F) where
  -- `DecNToFloat`: the divisor is never 0.
  unfoldable pub dec_n_to_float : ℤ → ℕ → F
  dec_n_to_float num dec_n =
      let divisor = big.set_int (pos (10 ^ dec_n)) in
      let numf = big.set_int num in
      let small_float = big.quo numf divisor in big.float64 small_float
