-- ===== src/Block/Server/Services.antt =====
-- driver/blockstorage/server.go: what a server registers before it serves.
use csi_bizflycloud.Base.{
  Bool-cases, Option, String, if◌then◌else◌, inl, inr, none, refl, some, subst, true, ◌<>◌, ◌==◌,
  ◌∷◌, ◌≡◌, ◌≢◌,
}
use csi_bizflycloud.Base.Go.{GoError, Result, Result-cases, calls, err, ok, ◌>>=◌, ◌>>◌}
use csi_bizflycloud.Server.{
  Abort, Events, Host, Removal, Serving, controller_service, done, fatal, holding, identity_service,
  listen, listened, node_service, not_done, not_there, register_if, registered,
}
use csi_bizflycloud.Block.Server.{Servers, prepared, run_server, serve}
use csi_bizflycloud.Block.Driver.{parse_endpoint}
use csi_bizflycloud.Block.Driver.Endpoints.{parse_endpoint-answers}

-- A server before its Serve: it listens at the endpoint's address, that of a socket from the root on,
-- and every service is registered; or the process was aborted with the text.
pub data Registered (endpoint : String) : Result Abort (Unit {0}) × Events → Type 0 where
  all_registered :
      (proto addr : String) (t : Events)
      → parse_endpoint endpoint ≡ some (ok (proto, addr))
      → Registered endpoint (
        ok tt,
        registered node_service
            ∷ registered controller_service
            ∷ registered identity_service
            ∷ listened proto (if proto == "unix" then "/" <> addr else addr)
            ∷ t,
      )
  refused : (text : String) (t : Events) → Registered endpoint (err (fatal text), t)

module _ (host : Host) {A B C : Type 0} (x : Option A) (y : Option B) (z : Option C)
    (endpoint proto addr : String) (e : parse_endpoint endpoint ≡ some (ok (proto, addr))) where
  abbrev listening : String → Serving
  listening address = do
    listen host "Failed to listen: %v" proto address
    register_if identity_service (holding x)
    register_if controller_service (holding y)
    register_if node_service (holding z)

  listening-Registered :
      (address : String) (t : Events)
      → (if proto == "unix" then "/" <> addr else addr) ≡ address
      → Registered endpoint (listening address t)
  unfolding calls
  listening-Registered address t a = elim (Result-cases (host.on_listen t proto address)) [
    | inl (tt, l) ↦ rw l (
        subst
          (λ w. Registered endpoint (
            ok tt,
            registered node_service
                ∷ registered controller_service
                ∷ registered identity_service
                ∷ listened proto w
                ∷ t,
          ))
          a (all_registered proto addr t e))
    | inr (x, l) ↦ rw l (refused _ _)
  ]

  removing-Registered :
      (t : Events) (r : Removal)
      → host.on_remove t ("/" <> addr) ≡ r
      → (proto == "unix") ≡ true
      → Registered endpoint ((prepared host proto addr >>= listening) t)
  unfolding calls
  removing-Registered t done h b = rw (b, h) (listening-Registered _ _ (rw b refl))
  removing-Registered t not_there h b = rw (b, h) (listening-Registered _ _ (rw b refl))
  removing-Registered t not_done h b = rw (b, h) (refused _ _)

  prepared-Registered :
      (t : Events) → Registered endpoint ((prepared host proto addr >>= listening) t)
  unfolding calls
  prepared-Registered t = elim (Bool-cases (proto == "unix")) [
    | inl b ↦ removing-Registered t _ refl b
    | inr b ↦ rw b (listening-Registered addr t (rw b refl))
  ]

module _ {Client : Type 0} (host : Host) (endpoint : String) (d : Servers Client) where
  parsed-Registered :
      (t : Events) (r : Option (Result GoError (String × String)))
      → parse_endpoint endpoint ≡ r
      → r ≢ none
      → Registered endpoint (run_server host endpoint d t)
  unfolding run_server serve calls
  parsed-Registered t none e n = elim (n refl) [ ]
  parsed-Registered t (some (err x)) e n = rw e (refused _ t)
  parsed-Registered t (some (ok (proto, addr))) e n =
      rw e (prepared-Registered host d.ids d.cs d.ns endpoint proto addr e t)

  -- The server does not crash, whatever the endpoint is: it listens at the endpoint's address, that of a
  -- socket from the root on, with the identity, the controller, and the node service registered,
  -- whichever of them were set up, or its process ends with a message.
  pub run_server-Registered : (t : Events) → Registered endpoint (run_server host endpoint d t)
  run_server-Registered t = parsed-Registered t _ refl (parse_endpoint-answers endpoint)
