-- ===== src/Share/Util/Sizes.antt =====
-- driver/filestorage/util.go: bytesToGiB.
use csi_bizflycloud.Base.{
  Bool-cases, arith, inl, inr, ltb, refl, ℕ, ◌%◌, ◌*◌, ◌+◌, ◌/◌, ◌<◌, ◌^◌, ◌≡◌, ◌≤◌,
}
use csi_bizflycloud.Base.Int.{gib, pos, wrap64}
use csi_bizflycloud.Share.Util.{bytes_to_gib, share_bytes}

-- The GiB of n bytes, n not negative, hold the bytes, and one GiB less does not.
pub bytes_to_gib_bounds :
    (n : ℕ) → (r : ℕ) × (bytes_to_gib (pos n) ≡ pos r) × (n ≤ r * gib) × (r * gib < n + gib)
unfolding bytes_to_gib
bytes_to_gib_bounds n = elim (Bool-cases (ltb 0 (n % gib))) [
  | inl b ↦ (n / gib + 1, rw b refl, ground arith, ground arith)
  | inr b ↦ (n / gib, rw b refl, ground arith, ground arith)
]

-- A size below 2^33 GiB comes back from the bytes that the answers give for it.
pub bytes_to_gib-share_bytes : (n : ℕ) → n < 2 ^ 33 → bytes_to_gib (share_bytes (pos n)) ≡ pos n
unfolding bytes_to_gib share_bytes wrap64
bytes_to_gib-share_bytes n h = ground arith
