-- ===== src/Share/Server/Services.antt =====
-- driver/filestorage/driver.go: what a server registers before it serves.
use csi_bizflycloud.Base.{Bool-cases, Option, String, inl, inr, refl, some, sym, ◌==◌, ◌∷◌, ◌≡◌}
use csi_bizflycloud.Base.Go.{Result, Result-cases, calls, continue, err, err-injective, ok, ◌>>◌}
use csi_bizflycloud.Server.{
  Abort, Events, Host, Removal, Serving, controller_service, done, fatal, holding, identity_service,
  listen, listened, no_socket, node_service, not_done, not_there, register_if, registered,
}
use csi_bizflycloud.Share.Server.{Servers, prepared, run_server, serve}
use csi_bizflycloud.Share.Driver.{Driver}
use csi_bizflycloud.Share.Driver.Setup.{IsConfigured}

-- A server before its Serve: it listens at the address, and every service is registered; or the process
-- was aborted with the text.
pub data Prepared (addr : String) : Result Abort (Unit {0}) × Events → Type 0 where
  all_registered :
      (proto : String) (t : Events)
      → Prepared addr (
        ok tt,
        registered node_service
            ∷ registered controller_service
            ∷ registered identity_service
            ∷ listened proto addr
            ∷ t,
      )
  refused : (text : String) (t : Events) → Prepared addr (err (fatal text), t)

module _ (host : Host) {A B C : Type 0} (x : Option A) (y : Option B) (z : Option C) where
  abbrev listening : String → String → Serving
  listening proto addr = do
    listen host "listen failed for GRPC server: %v" proto addr
    register_if identity_service (holding x)
    register_if controller_service (holding y)
    register_if node_service (holding z)

  listening-Prepared : (proto addr : String) (t : Events) → Prepared addr (listening proto addr t)
  unfolding calls
  listening-Prepared proto addr t = elim (Result-cases (host.on_listen t proto addr)) [
    | inl (tt, e) ↦ rw e (all_registered proto t)
    | inr (x, e) ↦ rw e (refused _ _)
  ]

  removing-Prepared :
      (proto addr : String) (t : Events) (r : Result Abort (Unit {0}))
      → ((a : Abort) → r ≡ err a → (text : String) × (a ≡ fatal text))
      → Prepared addr (continue r (λ _. listening proto addr) t)
  removing-Prepared proto addr t (ok tt) f = listening-Prepared proto addr t
  removing-Prepared proto addr t (err a) f = let (text, e) = f a refl in rw e (refused text t)

  no_socket-fatal :
      (text : String) (r : Removal) (a : Abort)
      → no_socket host text r ≡ err a
      → (u : String) × (a ≡ fatal u)
  no_socket-fatal text done a h = cc
  no_socket-fatal text not_there a h = cc
  no_socket-fatal text not_done a h = (text, sym (err-injective h))

  prepared-Prepared :
      (proto addr : String) (t : Events)
      → Prepared addr ((prepared host proto addr >> listening proto addr) t)
  unfolding calls
  prepared-Prepared proto addr t = elim (Bool-cases (proto == "unix")) [
    | inl b ↦ rw b (removing-Prepared proto addr _ _ (no_socket-fatal _ _))
    | inr b ↦ rw b (listening-Prepared proto addr t)
  ]

module _ {Client : Type 0} (host : Host) (d : Driver) (s : Servers Client) where
  -- The server of a driver with an endpoint it can parse does not crash: it listens at the endpoint's
  -- address with the identity, the controller, and the node service registered, whichever of the
  -- services were set up, or its process ends with a message.
  pub run_server-Prepared :
      (c : IsConfigured d) (t : Events) → Prepared (c.server.addr) (run_server host d s t)
  unfolding run_server serve calls
  run_server-Prepared c t =
      rw c.server.parses (prepared-Prepared host (some d) s.cs s.ns c.server.proto c.server.addr t)
