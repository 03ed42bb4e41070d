-- ===== src/Block/Controller/Sizes.antt =====
-- driver/blockstorage/controller.go: bytes against GiB, and the limit of an expansion.
use csi_bizflycloud.Base.{
  List, arith, false, is_empty, refl, some, true, ℕ, ◌*◌, ◌+◌, ◌<◌, ◌^◌, ◌∙◌, ◌∷◌, ◌≡◌, ◌≤◌,
}
use csi_bizflycloud.Base.Int.{gib, ltℤ, pos, wrap64}
use csi_bizflycloud.Base.Go.{calls, err, format, ok, out_of_range, status}
use csi_bizflycloud.Csi.{
  CapacityRange, CreateVolumeRequest, CsiVolume, ExpandRequest, ExpandResponse,
}
use csi_bizflycloud.Cloud.{Cloud, History, Volume, volume_extended, volume_got}
use csi_bizflycloud.Cloud.Store.{IsStore}
use csi_bizflycloud.Block.Controller.Volumes.{
  RoundUp, bytes_of_gib, create_volume, get_create_volume_response, volume_request,
}
use csi_bizflycloud.Block.Controller.Queries.{controller_expand_volume, over_limit}
use csi_bizflycloud.Block.Controller.Retry.{create_volume-Provided, shown_after}

-- What the documentation of util.RoundUpSize promises at units of 1 GiB: the number of units that
-- accommodate the bytes, where the sum with the unit fits an int64.
pub record IsRoundUp (round_up : RoundUp) : Type 0 where
  pub rounds :
      (n : ℕ)
      → n + gib < 2 ^ 63
      → (r : ℕ) × (round_up (pos n) gib ≡ pos r) × (n ≤ r * gib) × (r * gib < n + gib)

-- Below 2^33 GiB the bytes of a size do not wrap around.
bytes_of_gib-exact : (n : ℕ) → n < 2 ^ 33 → bytes_of_gib (pos n) ≡ pos (n * gib)
unfolding bytes_of_gib wrap64
bytes_of_gib-exact n h = ground arith

-- From 2^33 GiB up to 2^34 GiB, the latter not included, the bytes that are answered are
-- negative.
bytes_of_gib-negative :
    (n : ℕ) → 2 ^ 33 ≤ n → n < 2 ^ 34 → ltℤ (bytes_of_gib (pos n)) (pos 0) ≡ true
unfolding bytes_of_gib wrap64
bytes_of_gib-negative n h k = ground arith

-- The rounded size holds the bytes, with less than one GiB to spare, and is not too large.
rounded_bytes :
    (round_up : RoundUp)
    → IsRoundUp round_up
    → (n : ℕ) → n < 2 ^ 62
    → (c : ℕ) × (bytes_of_gib (round_up (pos n) gib) ≡ pos c) × (n ≤ c) × (c < n + gib)
rounded_bytes round_up law n h =
    let (r, e, low, high) = law.rounds n (omega arith) in
    (r * gib, rw e (bytes_of_gib-exact r (omega arith)), low, high)

module _ (cloud : Cloud) (volumes : History → List Volume) (store : IsStore cloud volumes)
    (round_up : RoundUp) (law : IsRoundUp round_up) where
  -- On a cloud that is a store, with sizes rounded up as documented: for n required bytes, n
  -- below 2^62, a CreateVolume that succeeds answers a capacity of at least n bytes and of
  -- less than one GiB more.
  pub create_volume-capacity :
      (req : CreateVolumeRequest) (range : CapacityRange) (n : ℕ) (h : History) (resp : CsiVolume)
      → req.capacity_range ≡ some range
      → range.required_bytes ≡ pos n
      → n < 2 ^ 62
      → (create_volume cloud round_up req h).0 ≡ ok resp
      → (c : ℕ) × (resp.capacity_bytes ≡ pos c) × (n ≤ c) × (c < n + gib)
  unfolding get_create_volume_response volume_request
  create_volume-capacity req range n h resp e f small p =
      let shown =
        shown_after cloud volumes store _ h _ resp
          (create_volume-Provided cloud round_up req h resp p) in
      let (c, bytes, low, high) = rounded_bytes round_up law n small in
      (c, rw (shown.3, shown.2, e, f) bytes, low, high)

module _ (cloud : Cloud) (round_up : RoundUp) (req : ExpandRequest) (range : CapacityRange)
    (h : History) where
  -- An expansion within a capacity range that succeeds was within the limit in bytes, has
  -- called Get and then ExtendVolume with the size rounded up to GiB, and answers the bytes
  -- that were required.
  pub controller_expand-calls :
      (resp : ExpandResponse)
      → req.capacity_range ≡ some range
      → (controller_expand_volume cloud round_up req h).0 ≡ ok resp
      → (over_limit range ≡ false)
        × ((controller_expand_volume cloud round_up req h).1
            ≡ volume_extended req.volume_id (round_up range.required_bytes gib)
              ∷ volume_got req.volume_id
              ∷ h)
        × (resp.capacity_bytes ≡ range.required_bytes)
        × (resp.node_expansion_required ≡ true)
  unfolding controller_expand_volume calls
  controller_expand-calls resp e p = ground (arith, e)

  -- An expansion over the limit in bytes calls nothing.
  controller_expand-refused :
      is_empty req.volume_id ≡ false
      → req.capacity_range ≡ some range
      → over_limit range ≡ true
      → controller_expand_volume cloud round_up req h ≡ (
        err (
            status out_of_range (format "After round-up, volume size exceeds the limit specified")),
        h,
      )
  unfolding controller_expand_volume calls
  controller_expand-refused e f g = rw (e, f, g)

  within_limit :
      (n l : ℕ)
      → range.required_bytes ≡ pos n
      → range.limit_bytes ≡ pos l
      → over_limit range ≡ false
      → 0 < l
      → n ≤ l
  within_limit n l f g b k = ground (arith, f, g)

  -- With sizes rounded up as documented: an expansion that succeeds, for n required bytes, n below 2^62,
  -- and a limit of l bytes, l not 0, has found n within the limit, and has extended the volume to r GiB
  -- that hold the n bytes; and these exceed the limit by less than one GiB, if they do.
  pub controller_expand-near_limit :
      IsRoundUp round_up
      → (n l : ℕ) (resp : ExpandResponse) → req.capacity_range ≡ some range
      → range.required_bytes ≡ pos n
      → range.limit_bytes ≡ pos l
      → n < 2 ^ 62
      → 0 < l
      → (controller_expand_volume cloud round_up req h).0 ≡ ok resp
      → (n ≤ l)
        × ((r : ℕ) × ((controller_expand_volume cloud round_up req h).1
              ≡ volume_extended req.volume_id (pos r) ∷ volume_got req.volume_id ∷ h)
            × (n ≤ r * gib)
            × (r * gib < l + gib))
  controller_expand-near_limit law n l resp e f g small some_limit p =
      let (within, extended, bytes, grown) = controller_expand-calls resp e p in
      let (r, rounded, low, high) = law.rounds n (omega arith) in
      let inside = within_limit n l f g within some_limit in
      (inside, (r, extended ∙ rw (f, rounded) refl, low, omega (arith, inside, high)))
