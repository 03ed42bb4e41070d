-- ===== src/Share/Controller/Retry.antt =====
-- driver/filestorage/controllerserver.go: CreateVolume, called again.
use csi_bizflycloud.Base.{
  Bool-cases, List, Option, String, [], any, ap, false, inl, inr, none, refl, some, subst, sym,
  true, ◌==◌, ◌∙◌, ◌∷◌, ◌≡◌, ◌≢◌,
}
use csi_bizflycloud.Base.Int.{eqℤ, ℤ}
use csi_bizflycloud.Base.Go.{GoError, Result-cases, calls, err, ok, ok-injective}
use csi_bizflycloud.Csi.{CreateVolumeRequest, CsiVolume}
use csi_bizflycloud.Wait.{Wait}
use csi_bizflycloud.Share.Api.{Calls, CreateShareRequest, FileStorage, Share, shares_listed}
use csi_bizflycloud.Share.Util.{validate_create_volume_request}
use csi_bizflycloud.Share.Shares.{get_or_create_share}
use csi_bizflycloud.Share.Shares.Store.{IsShareStore, get_or_create-IsShown, get_or_create-takes}
use csi_bizflycloud.Share.Controller.Pending.{World, exclusively, load_or_store}
use csi_bizflycloud.Share.Controller.Volumes.{
  Rpc, create_body, create_volume, exported, share_answer, share_request,
}
use csi_bizflycloud.Share.Controller.Locks.{delete_key-cons}

share_answer-again :
    (size : ℤ) (o : Option Share) (w later : World) (resp : CsiVolume)
    → (share_answer size o w).0 ≡ ok resp
    → ((share_answer size o w).1 ≡ w) × (share_answer size o later ≡ (ok resp, later))
share_answer-again size none w later resp e = cc
share_answer-again size (some s) w later resp e = elim (Bool-cases (eqℤ s.size size)) [
  | inl b ↦ rw b (located s.export_locations (rw b at e))
  | inr b ↦ cc (rw b at e)
]
  where
    located :
        (ls : List String)
        → (exported s ls w).0 ≡ ok resp
        → ((exported s ls w).1 ≡ w) × (exported s ls later ≡ (ok resp, later))
    located [] e = cc
    located (l ∷ ls) e = (refl, rw (ok-injective e) refl)

module _ (api : FileStorage) (wait : Wait) (shares : Calls → List Share)
    (store : IsShareStore api shares) (proto : String) (req : CreateVolumeRequest) where
  abbrev r : CreateShareRequest
  r = share_request proto req

  abbrev at_calls : List String → Calls → World
  at_calls keys h = record { pending = keys; calls_made = h }

  -- The body is what becomes of the share.
  body-runs :
      (keys : List String) (h : Calls) (o : Option Share)
      → (get_or_create_share api wait r h).0 ≡ ok o
      → create_body api wait proto req (at_calls keys h)
        ≡ share_answer r.size o (at_calls keys (get_or_create_share api wait r h).1)
  unfolding create_body calls
  body-runs keys h o e = rw e refl

  body-failed :
      (keys : List String) (h : Calls) (x : GoError) (resp : CsiVolume)
      → (get_or_create_share api wait r h).0 ≡ err x
      → (create_body api wait proto req (at_calls keys h)).0 ≢ ok resp
  unfolding create_body calls
  body-failed keys h x resp e p = cc (rw e at p)

  -- The second call of a body that succeeded, whatever keys are pending then.
  body-again :
      (keys later : List String) (h : Calls) (resp : CsiVolume)
      → (create_body api wait proto req (at_calls keys h)).0 ≡ ok resp
      → let h1 = (create_body api wait proto req (at_calls keys h)).1.calls_made in
        create_body api wait proto req (at_calls later h1)
        ≡ (ok resp, at_calls later (shares_listed ∷ h1))
  body-again keys later h resp e = elim (Result-cases (get_or_create_share api wait r h).0) [
    | inr (x, k) ↦ elim (body-failed keys h x resp k e) [ ]
    | inl (o, k) ↦
        let after = (get_or_create_share api wait r h).1 in
        let shown = get_or_create-IsShown api wait shares store r h o k in
        let run = body-runs keys h o k in
        let answered =
          share_answer-again r.size o (at_calls keys after) (at_calls later (shares_listed ∷ after))
            resp (ap (λ p. p.0) (sym run) ∙ e) in
        let same : (create_body api wait proto req (at_calls keys h)).1.calls_made ≡ after =
          ap (λ p. p.1.calls_made) run ∙ ap (λ (w : World). w.calls_made) answered.0 in
        let takes =
          get_or_create-takes api wait shares store r after shown.share shown.shown
            shown.available in
        subst
          (λ h1.
            create_body api wait proto req (at_calls later h1)
            ≡ (ok resp, at_calls later (shares_listed ∷ h1)))
          (sym same)
          (body-runs later after (some shown.share) (ap (λ p. p.0) takes)
            ∙ rw takes (
                subst
                  (λ q.
                    share_answer r.size q (at_calls later (shares_listed ∷ after))
                    ≡ (ok resp, at_calls later (shares_listed ∷ after)))
                  shown.there answered.1))
  ]

  exclusively-again :
      (keys : List String) (h h1 h2 : Calls) (resp : CsiVolume) (body : Rpc CsiVolume)
      → any (λ k. k == req.name) keys ≡ false
      → body (at_calls (req.name ∷ keys) h1) ≡ (ok resp, at_calls (req.name ∷ keys) h2)
      → exclusively req.name body (at_calls keys h1) ≡ (ok resp, at_calls keys h2)
  unfolding exclusively load_or_store
  exclusively-again keys h h1 h2 resp body free e =
      rw (free, e, delete_key-cons req.name keys free) refl

  abbrev m : Rpc CsiVolume
  m = create_body api wait proto req

  -- A free key: the answer and the calls are those of the body.
  exclusively-free :
      (keys : List String) (h : Calls)
      → any (λ k. k == req.name) keys ≡ false
      → ((exclusively req.name m (at_calls keys h)).0 ≡ (m (at_calls (req.name ∷ keys) h)).0)
        × ((exclusively req.name m (at_calls keys h)).1.calls_made
            ≡ (m (at_calls (req.name ∷ keys) h)).1.calls_made)
  unfolding exclusively load_or_store
  exclusively-free keys h free = rw free (refl, refl)

  exclusively-held :
      (keys : List String) (h : Calls) (resp : CsiVolume)
      → any (λ k. k == req.name) keys ≡ true
      → (exclusively req.name m (at_calls keys h)).0 ≢ ok resp
  unfolding exclusively load_or_store
  exclusively-held keys h resp held e = cc (rw held at e)

  locked-again :
      (keys : List String) (h : Calls) (resp : CsiVolume)
      → (exclusively req.name m (at_calls keys h)).0 ≡ ok resp
      → let h1 = (exclusively req.name m (at_calls keys h)).1.calls_made in
        exclusively req.name m (at_calls keys h1) ≡ (ok resp, at_calls keys (shares_listed ∷ h1))
  locked-again keys h resp e = elim (Bool-cases (any (λ k. k == req.name) keys)) [
    | inl b ↦ elim (exclusively-held keys h resp b e) [ ]
    | inr b ↦
        let (answer, same) = exclusively-free keys h b in
        let again = body-again (req.name ∷ keys) (req.name ∷ keys) h resp (sym answer ∙ e) in
        subst
          (λ h1.
            exclusively req.name m (at_calls keys h1)
            ≡ (ok resp, at_calls keys (shares_listed ∷ h1)))
          (sym same) (exclusively-again keys h _ _ resp m b again)
  ]

  -- On a cloud that keeps shares: called again with the same request after it succeeded, CreateVolume
  -- gives the same answer, makes no call but List, and leaves the pending names as they were.
  pub create_volume-repeats :
      (keys : List String) (h : Calls) (resp : CsiVolume)
      → (create_volume api wait proto req (record { pending = keys; calls_made = h })).0 ≡ ok resp
      → let h1 =
          (create_volume api wait proto req
            (record { pending = keys; calls_made = h })).1.calls_made in
        create_volume api wait proto req (record { pending = keys; calls_made = h1 })
        ≡ (ok resp, record { pending = keys; calls_made = shares_listed ∷ h1 })
  unfolding create_volume
  create_volume-repeats keys h resp e = elim (Result-cases (validate_create_volume_request req)) [
    | inl (u, v) ↦ rw v (locked-again keys h resp (rw v at e))
    | inr (x, v) ↦ cc (rw v at e)
  ]
