-- ===== src/Monitor/Bytes.antt =====
-- Numbers in the memory of the target.
use native.Mathlib.Nat.{pow-suc}
use dmlog.Base.{ℕ, zero, suc, ◌/◌, ◌^◌, ◌<◌, ◌≡◌, refl, ap, length, arith}
use dmlog.Monitor.{from_bytes, to_bytes}

-- What is written as `n` bytes is read back, if it fits in `n` bytes, and takes `n` bytes.
pub from_bytes-to_bytes :
    (n v : ℕ) → v < 256 ^ n → (from_bytes (to_bytes n v) ≡ v) × (length (to_bytes n v) ≡ n)
unfolding from_bytes to_bytes
from_bytes-to_bytes zero v small = (omega arith, refl)
from_bytes-to_bytes (suc n) v small =
    let rest = from_bytes-to_bytes n (v / 256) (omega (arith, pow-suc 256 n)) in
    (omega (arith, rest.0), ap suc rest.1)
