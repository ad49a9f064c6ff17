-- ===== src/Utils/Payload.antt =====
-- The payload of a request for balances, of internal/utils/utils.go.
use d8x_etherfi.Base.{ℕ, List, Text}

-- `APIBalancesPayload`
pub record Payload : Type 0 where
  pub block_number : ℕ
  pub addresses : List Text
