-- ===== src/Share/Controller/NoPanic.antt =====
-- driver/filestorage/controllerserver.go: where a nil share would be read.
use csi_bizflycloud.Base.{
  Bool-cases, List, Option, String, [], any, inl, inr, none, some, subst, sym, ◌==◌, ◌∷◌, ◌≡◌, ◌≢◌,
}
use csi_bizflycloud.Base.Int.{eqℤ, leℤ, ℤ}
use csi_bizflycloud.Base.Go.{
  Exec, Failure, GoError, Result, err, err-injective, err_not_found, errors_is, ok, ok-injective,
  panicked,
}
use csi_bizflycloud.Base.Post.{Ends, Ends-bind, Ends-wrap_err}
use csi_bizflycloud.Base.Failure.{
  Fails, Fails-after, Fails-fail, Fails-pure, Fails-then, Fails-wrap_err, fails_rules,
}
use csi_bizflycloud.Base.Answers.{IsHandled}
use csi_bizflycloud.Csi.{CreateVolumeRequest, ExpandRequest, ValidateRequest}
use csi_bizflycloud.Wait.{Wait}
use csi_bizflycloud.Share.Api.{Calls, CreateShareRequest, FileStorage, Share}
use csi_bizflycloud.Share.Util.{share_available}
use csi_bizflycloud.Share.Shares.{
  get_or_create_share, resize_share, reuse_or_create, wait_for_share_available,
}
use csi_bizflycloud.Share.Shares.Laws.{IsAvailable, wait_for_share_available_sound}
use csi_bizflycloud.Share.Controller.Pending.{World, exclusively, load_or_store}
use csi_bizflycloud.Share.Controller.Volumes.{
  capacity_of, controller_expand_volume, create_body, create_volume, delete_volume, expand_body,
  exported, grow, not_found_or_internal, share_answer, share_request, validate_volume_capabilities,
  validated,
}

-- The share of a successful call is there and available.
abbrev There : Option Share → Type 0
There o = (s : Share) × (o ≡ some s) × IsAvailable s

module _ (api : FileStorage) (wait : Wait) where
  abbrev EndsThere : Exec Calls GoError (Option Share) → Type 0
  EndsThere = Ends (λ o h. There o)

  wait-EndsThere : (id : String) → EndsThere (wait_for_share_available api wait id)
  wait-EndsThere id = record {
    at = λ h o e. let (s, p, a, l) = wait_for_share_available_sound api wait id h o e in (s, p, a);
  }

  reuse-EndsThere :
      (r : CreateShareRequest) (x : Result GoError Share) → EndsThere (reuse_or_create api wait r x)
  reuse-EndsThere r (ok s) = elim (Bool-cases (s.state == share_available)) [
    | inl b ↦ rw b (record { at = λ h o e. (s, sym (ok-injective e), b) })
    | inr b ↦ rw b (wait-EndsThere s.id)
  ]
  reuse-EndsThere r (err e) = Ends-bind _ _ _ (λ s. wait-EndsThere s.id)

  get_or_create-EndsThere : (r : CreateShareRequest) → EndsThere (get_or_create_share api wait r)
  unfolding get_or_create_share
  get_or_create-EndsThere r = Ends-bind _ _ _ (reuse-EndsThere r)

  resize-EndsThere : (id : String) (size : ℤ) → EndsThere (resize_share api wait id size)
  unfolding resize_share
  resize-EndsThere id size = Ends-bind _ _ _ (λ s. wait-EndsThere s.id)

lookup_failure : (e : GoError) → IsHandled (not_found_or_internal e)
lookup_failure e = elim (Bool-cases (errors_is e err_not_found)) [
  | inl b ↦ rw b tt
  | inr b ↦ rw b tt
]

capacity-IsHandled : (o : Option Share) → There o → Fails IsHandled (capacity_of o)
capacity-IsHandled none (s, e, a) = cc
capacity-IsHandled (some t) t' = Fails-pure IsHandled _

share_answer-IsHandled :
    (size : ℤ) (o : Option Share) → There o → Fails IsHandled (share_answer size o)
share_answer-IsHandled size none (s, e, a) = cc
share_answer-IsHandled size (some t) th = elim (Bool-cases (eqℤ t.size size)) [
  | inl b ↦ rw b (exported-IsHandled t.export_locations)
  | inr b ↦ rw b (Fails-fail IsHandled _ tt)
]
  where
    exported-IsHandled : (ls : List String) → Fails IsHandled (exported t ls)
    exported-IsHandled [] = Fails-fail IsHandled _ tt
    exported-IsHandled (x ∷ xs) = Fails-pure IsHandled _

exclusively-IsHandled :
    {A : Type 0} (key : String) (m : Exec World Failure A)
    → Fails IsHandled m
    → Fails IsHandled (exclusively key m)
unfolding exclusively load_or_store
exclusively-IsHandled key m f = record {
  at = λ w x p. elim (Bool-cases (any (λ k. k == key) w.pending)) [
    | inl b ↦ subst IsHandled (err-injective (rw b at p)) tt
    | inr b ↦ f.at _ x (rw b at p)
  ];
}

validated-IsHandled :
    {A : Type 0} (r : Result GoError (Unit {0})) (m : Exec World Failure A)
    → Fails IsHandled m
    → Fails IsHandled (validated r m)
validated-IsHandled (ok u) m f = f
validated-IsHandled (err e) m f = Fails-fail IsHandled _ tt

module _ (api : FileStorage) (wait : Wait) where
  grow-IsHandled : (size : ℤ) (s : Share) → Fails IsHandled (grow api wait size s)
  grow-IsHandled size s = elim (Bool-cases (leℤ size s.size)) [
    | inl b ↦ rw b (Fails-pure IsHandled _)
    | inr b ↦ rw b (
        Fails-after IsHandled There _ _
          (Ends-wrap_err _ _ _
            (record { at = λ w o e. (resize-EndsThere api wait s.id size).at _ o e }))
          (Fails-wrap_err IsHandled _ _ (λ x. tt)) capacity-IsHandled)
  ]

  create-IsHandled :
      (proto : String) (req : CreateVolumeRequest)
      → Fails IsHandled (create_body api wait proto req)
  unfolding create_body
  create-IsHandled proto req =
      Fails-after IsHandled There _ _
        (Ends-wrap_err _ _ _ (record {
          at = λ w o e. (get_or_create-EndsThere api wait (share_request proto req)).at _ o e;
        }))
        (Fails-wrap_err IsHandled _ _ (λ x. tt))
        (share_answer-IsHandled (share_request proto req).size)

  pub create_volume-IsHandled :
      (proto : String) (req : CreateVolumeRequest)
      → Fails IsHandled (create_volume api wait proto req)
  unfolding create_volume
  create_volume-IsHandled proto req =
      validated-IsHandled _ _ (exclusively-IsHandled req.name _ (create-IsHandled proto req))

  pub controller_expand-IsHandled :
      (req : ExpandRequest) → Fails IsHandled (controller_expand_volume api wait req)
  unfolding controller_expand_volume expand_body
  controller_expand-IsHandled req =
      validated-IsHandled _ _ (
        exclusively-IsHandled req.volume_id _
          (search (fails_rules, lookup_failure, grow-IsHandled)))

  pub delete_volume-IsHandled : (id : String) → Fails IsHandled (delete_volume api id)
  unfolding delete_volume
  delete_volume-IsHandled id = validated-IsHandled _ _ (Fails-wrap_err IsHandled _ _ (λ e. tt))

  pub validate-IsHandled :
      (req : ValidateRequest) → Fails IsHandled (validate_volume_capabilities api req)
  unfolding validate_volume_capabilities
  validate-IsHandled req = validated-IsHandled _ _ (
      Fails-then IsHandled _ _ (Fails-wrap_err IsHandled _ _ lookup_failure)
        (Fails-pure IsHandled _))

  -- CreateVolume and ControllerExpandVolume never end in a panic: where a wait gives no error, it
  -- gives a share.
  pub controller-ne-panicked :
      (proto : String) (req : CreateVolumeRequest) (ereq : ExpandRequest) (w : World)
      → ((create_volume api wait proto req w).0 ≢ err panicked)
        × ((controller_expand_volume api wait ereq w).0 ≢ err panicked)
  controller-ne-panicked proto req ereq w = (
    λ p. (create_volume-IsHandled proto req).at w panicked p,
    λ p. (controller_expand-IsHandled ereq).at w panicked p,
  )
