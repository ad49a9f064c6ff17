-- ===== src/Utils.antt =====
-- internal/utils: addresses, the token bucket, the RPC handler and conversions.
pub mod Address
pub mod TokenBucket
pub mod RpcHandler
pub mod Payload
pub mod Conv
pub mod Config
