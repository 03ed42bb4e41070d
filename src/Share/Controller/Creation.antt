-- ===== src/Share/Controller/Creation.antt =====
-- driver/filestorage/controllerserver.go: CreateVolume.
use csi_bizflycloud.Base.{
  Bool-cases, List, Option, String, [], any, ap, inl, inr, none, refl, some, subst, sym, ◌==◌, ◌∙◌,
  ◌∷◌, ◌≡◌, ◌≢◌,
}
use csi_bizflycloud.Base.Int.{eqℤ, eqℤ→eq, ℤ}
use csi_bizflycloud.Base.Go.{
  Exec, Failure, GoError, Result, Result-cases, calls, err, ok, ok-injective,
}
use csi_bizflycloud.Base.Post.{Keeps, keeps_rules}
use csi_bizflycloud.Csi.{CreateVolumeRequest, CsiVolume}
use csi_bizflycloud.Wait.{Wait}
use csi_bizflycloud.Share.Api.{Calls, CreateShareRequest, FileStorage, Share}
use csi_bizflycloud.Share.Util.{share_bytes, validate_create_volume_request}
use csi_bizflycloud.Share.Shares.{get_or_create_share}
use csi_bizflycloud.Share.Shares.Origin.{Origin, get_or_create-Origin}
use csi_bizflycloud.Share.Controller.Pending.{World, exclusively, load_or_store, on_calls}
use csi_bizflycloud.Share.Controller.Volumes.{
  create_body, create_volume, exported, share_answer, share_context, share_request, share_volume,
}
use csi_bizflycloud.Share.Controller.Locks.{LeavesKeys, exclusively-pending}

pub keys_kept :
    {A : Type 0} (ks : List String) (m : Exec Calls GoError A)
    → Keeps (λ w. w.pending ≡ ks) (on_calls m)
keys_kept ks m = record { at = λ w e. e }

module _ (ks : List String) where
  HasKeys : World → Type 0
  HasKeys w = w.pending ≡ ks

  share_answer-Keeps :
      (size : ℤ) (o : Option Share) → Keeps (λ w. w.pending ≡ ks) (share_answer size o)
  share_answer-Keeps size none = record { at = λ w e. e }
  share_answer-Keeps size (some s) = elim (Bool-cases (eqℤ s.size size)) [
    | inl b ↦ rw b (exports s.export_locations)
    | inr b ↦ rw b (record { at = λ w e. e })
  ]
    where
      exports : (ls : List String) → Keeps (λ w. w.pending ≡ ks) (exported s ls)
      exports [] = record { at = λ w e. e }
      exports (l ∷ ls) = record { at = λ w e. e }

module _ (api : FileStorage) (wait : Wait) where
  create_body-LeavesKeys :
      (proto : String) (req : CreateVolumeRequest) → LeavesKeys (create_body api wait proto req)
  unfolding create_body
  create_body-LeavesKeys proto req = record { at = λ w. (kept w.pending).at w refl }
    where
      kept : (ks : List String) → Keeps (λ w. w.pending ≡ ks) (create_body api wait proto req)
      kept ks = search (keeps_rules, keys_kept, share_answer-Keeps)

  -- After CreateVolume the pending names are those of before, whatever it answers.
  pub create_volume-pending :
      (proto : String) (req : CreateVolumeRequest) (w : World)
      → (create_volume api wait proto req w).1.pending ≡ w.pending
  unfolding create_volume
  create_volume-pending proto req w = elim (Result-cases (validate_create_volume_request req)) [
    | inl (u, e) ↦ rw e (exclusively-pending req.name _ w (create_body-LeavesKeys proto req))
    | inr (x, e) ↦ rw e
  ]

-- The volume that CreateVolume answers where its calls were `h` before and are `h1` after it: it stands
-- for a share that List has shown, of the size, with its id and the bytes of the size, and its context has the first location of
-- those that the share exports.
pub record StandsFor (api : FileStorage) (r : CreateShareRequest) (h h1 : Calls) (resp : CsiVolume)
    : Type 0 where
  pub share : Share
  pub location : String
  pub others : List String
  pub origin : Origin api r h h1 share
  pub sized : share.size ≡ r.size
  pub exports : share.export_locations ≡ location ∷ others
  pub identified : resp.volume_id ≡ share.id
  pub capacity : resp.capacity_bytes ≡ share_bytes r.size
  pub answered : resp ≡ share_volume share (share_context share location)

-- An answer of the share is made of its first location, and calls nothing.
record Exports (s : Share) (w w1 : World) (resp : CsiVolume) : Type 0 where
  location : String
  others : List String
  exports : s.export_locations ≡ location ∷ others
  answered : resp ≡ share_volume s (share_context s location)
  same : w1 ≡ w

exported-Exports :
    (s : Share) (ls : List String) (w : World) (resp : CsiVolume)
    → s.export_locations ≡ ls
    → (exported s ls w).0 ≡ ok resp
    → Exports s w (exported s ls w).1 resp
exported-Exports s [] w resp l p = cc
exported-Exports s (x ∷ xs) w resp l p = record {
  location = x;
  others = xs;
  exports = l;
  answered = sym (ok-injective p);
  same = refl;
}

share_answer-Exports :
    (size : ℤ) (s : Share) (w : World) (resp : CsiVolume)
    → (share_answer size (some s) w).0 ≡ ok resp
    → (s.size ≡ size) × Exports s w (share_answer size (some s) w).1 resp
share_answer-Exports size s w resp p = elim (Bool-cases (eqℤ s.size size)) [
  | inl b ↦ rw b (eqℤ→eq _ _ b, exported-Exports s s.export_locations w resp refl (rw b at p))
  | inr b ↦ cc (rw b at p)
]

module _ (api : FileStorage) (wait : Wait) (proto : String) (req : CreateVolumeRequest) where
  abbrev r : CreateShareRequest
  r = share_request proto req

  abbrev Stands : World → Result Failure CsiVolume × World → Type 0
  Stands w (answer, w1) =
      (resp : CsiVolume) → answer ≡ ok resp → StandsFor api r w.calls_made w1.calls_made resp

  body-runs :
      (w : World) (o : Option Share)
      → (get_or_create_share api wait r w.calls_made).0 ≡ ok o
      → create_body api wait proto req w
        ≡ share_answer r.size o
            (record w { calls_made = (get_or_create_share api wait r w.calls_made).1 })
  unfolding create_body calls
  body-runs w o e = rw e refl

  body-failed :
      (w : World) (x : GoError) (resp : CsiVolume)
      → (get_or_create_share api wait r w.calls_made).0 ≡ err x
      → (create_body api wait proto req w).0 ≢ ok resp
  unfolding create_body calls
  body-failed w x resp e p = cc (rw e at p)

  body-Stands : (w : World) → Stands w (create_body api wait proto req w)
  body-Stands w resp p =
      let got = get_or_create_share api wait r w.calls_made in
      elim (Result-cases got.0) [
        | inr (x, k) ↦ elim (body-failed w x resp k p) [ ]
        | inl (o, k) ↦
            let (s, there, origin) = get_or_create-Origin api wait r w.calls_made o k in
            let run : create_body api wait proto req w
                ≡ share_answer r.size (some s) (record w { calls_made = got.1 }) =
              body-runs w o k ∙ rw there refl in
            let (sized, given) = share_answer-Exports r.size s _ resp (rw run at p) in
            record {
              share = s;
              location = given.location;
              others = given.others;
              origin =
                  subst (λ (v : World). Origin api r w.calls_made v.calls_made s)
                    (sym (ap (λ q. q.1) run ∙ given.same)) origin;
              sized = sized;
              exports = given.exports;
              identified = ap (λ (c : CsiVolume). c.volume_id) given.answered;
              capacity =
                  ap (λ (c : CsiVolume). c.capacity_bytes) given.answered ∙ ap share_bytes sized;
              answered = given.answered;
            }
      ]

  exclusively-Stands :
      (m : Exec World Failure CsiVolume)
      → ((w : World) → Stands w (m w))
      → (w : World) → Stands w (exclusively req.name m w)
  unfolding exclusively load_or_store
  exclusively-Stands m h w resp e = elim (Bool-cases (any (λ k. k == req.name) w.pending)) [
    | inl b ↦ cc (rw b at e)
    | inr b ↦ rw b (h (record w { pending = req.name ∷ w.pending }) resp (rw b at e))
  ]

  -- A volume that CreateVolume answers stands for an available share, of the requested size in GiB, with
  -- an export location. The share is the one that List shows under the name; or, where that one is not
  -- available or there is none, the one that the last call of List shows under the id of that one or of
  -- the share that Create has answered.
  pub create_volume-stands :
      (w : World) (resp : CsiVolume)
      → (create_volume api wait proto req w).0 ≡ ok resp
      → StandsFor api
          (share_request proto req)
          w.calls_made
          (create_volume api wait proto req w).1.calls_made
          resp
  unfolding create_volume
  create_volume-stands w resp p = elim (Result-cases (validate_create_volume_request req)) [
    | inl (u, e) ↦
        rw e (exclusively-Stands (create_body api wait proto req) body-Stands w resp (rw e at p))
    | inr (x, e) ↦ cc (rw e at p)
  ]
