-- ===== src/Share/Command/Exits.antt =====
-- cmd/csi-fs-bizflycloud/main.go: how the command ends.
use Prim.Native.Char.{Char}
use csi_bizflycloud.Base.{
  Bool-cases, List, Option, [], inl, inr, none, refl, some, subst, true, ◌≡◌,
}
use csi_bizflycloud.Base.Go.{
  Exec, GoError, Result, Result-cases, calls, err, ok, ok-injective, pure, ◌>>=◌,
}
use csi_bizflycloud.Server.{Abort, Goroutine, Host, abort, entry}
use csi_bizflycloud.Login.{Gobizfly, exit_code, log_in}
use csi_bizflycloud.Login.Exits.{exit_code-returned}
use csi_bizflycloud.Share.Driver.{Driver, setup_node_service}
use csi_bizflycloud.Share.Driver.Setup.{
  IsConfigured, IsSetUp, new_driver-IsConfigured, setup_node-IsSetUp,
}
use csi_bizflycloud.Share.Server.{Servers, neither, run, run_server}
use csi_bizflycloud.Share.Server.Laws.{IsServed, rest, schedule-IsServed}
use csi_bizflycloud.Share.Node.{NodeServer}
use csi_bizflycloud.Share.Plugin.{Plugin, Trace}
use csi_bizflycloud.Share.Command.{Flags, controller_if, handle, made, node_if, set_up}

module _ {Client Token : Type 0} (gobizfly : Gobizfly Client Token) (plugin : Plugin)
    (upper : Char → Char) (f : Flags) where
  -- What the command has set up before it runs the driver: a configured driver, and each service that
  -- was asked for.
  pub record IsComplete (d : Driver) (s : Servers Client) : Type 0 where
    pub configured : IsConfigured d
    pub controller :
        f.provide_controller_service ≡ true
        → (client : Client) × (log_in gobizfly f.account ≡ ok client) × (s.cs ≡ some client)
    pub node :
        f.provide_node_service ≡ true
        → (ns : NodeServer) × IsSetUp plugin d [] ns × (s.ns ≡ some ns)

  made-ok :
      (o : Option (Result GoError Driver))
      (rest : Driver → Exec Trace Abort (Driver × Servers Client)) (d : Driver) (s : Servers Client)
      → ((made gobizfly plugin upper o >>= rest) []).0 ≡ ok (d, s)
      → (e : Driver) × (o ≡ some (ok e)) × ((rest e []).0 ≡ ok (d, s))
  unfolding calls
  made-ok none rest d s h = cc
  made-ok (some (err x)) rest d s h = cc
  made-ok (some (ok e)) rest d s h = (e, refl, h)

  abbrev HasController : Option Client → Type 0
  HasController cs =
      f.provide_controller_service ≡ true
      → (client : Client) × (log_in gobizfly f.account ≡ ok client) × (cs ≡ some client)

  abbrev HasNode : Driver → Option NodeServer → Type 0
  HasNode d ns =
      f.provide_node_service ≡ true → (n : NodeServer) × IsSetUp plugin d [] n × (ns ≡ some n)

  controller-ok :
      (rest : Option Client → Exec Trace Abort (Driver × Servers Client)) (d : Driver)
      (s : Servers Client)
      → ((controller_if gobizfly plugin upper f.provide_controller_service f.account >>= rest) []).0
        ≡ ok (d, s)
      → (cs : Option Client) × HasController cs × ((rest cs []).0 ≡ ok (d, s))
  unfolding calls
  controller-ok rest d s h = elim (Bool-cases f.provide_controller_service) [
    | inr b ↦ (none, (λ c. cc), rw b at h)
    | inl b ↦ elim (Result-cases (log_in gobizfly f.account)) [
      | inl (client, l) ↦ (some client, (λ c. (client, l, refl)), rw (b, l) at h)
      | inr (text, l) ↦ cc (rw (b, l) at h)
    ]
  ]

  abbrev finish :
      Option Client → Driver → Option NodeServer → Exec Trace Abort (Driver × Servers Client)
  finish cs e ns = pure (e, record { cs = cs; ns = ns })

  node-ok :
      (cs : Option Client) (d e : Driver) (s : Servers Client)
      → ((node_if gobizfly plugin upper f.provide_node_service e >>= finish cs e) []).0 ≡ ok (d, s)
      → (ns : Option NodeServer) × HasNode e ns
        × ◌≡◌ {A = Driver × Servers Client} (e, record { cs = cs; ns = ns }) (d, s)
  unfolding calls
  node-ok cs d e s h = elim (Bool-cases f.provide_node_service) [
    | inr b ↦ (none, (λ c. cc), ok-injective (rw b at h))
    | inl b ↦ elim (Result-cases (setup_node_service plugin e []).0) [
      | inl (n, l) ↦ (
        some n,
        (λ c. (n, setup_node-IsSetUp plugin e [] n l, refl)),
        ok-injective (rw (b, l) at h),
      )
      | inr (x, l) ↦ cc (rw (b, l) at h)
    ]
  ]

  set_up-IsComplete :
      (d : Driver) (s : Servers Client)
      → (set_up gobizfly plugin upper f []).0 ≡ ok (d, s)
      → IsComplete d s
  unfolding set_up
  set_up-IsComplete d s h =
      let (e, made, h1) = made-ok _ _ d s h in
      let (cs, controller, h2) = controller-ok _ d s h1 in
      let (ns, node, same) = node-ok cs d e s h2 in
      subst (λ p. IsComplete p.0 p.1) same
        (record {
          configured = new_driver-IsConfigured upper f.opts e made;
          controller = controller;
          node = node;
        })

module _ {Client Token : Type 0} (gobizfly : Gobizfly Client Token) (plugin : Plugin)
    (upper : Char → Char) (host : Host) (f : Flags) (gs : List Goroutine) where
  served :
      (d : Driver) (s : Servers Client)
      → exit_code (run host d s gs) ≡ some 0
      → IsServed (run_server host d s) host
  unfolding run
  served d s h = elim (Bool-cases (neither host s.cs s.ns)) [
    | inl b ↦ cc ((exit_code-returned _ (rw b at h)).1)
    | inr b ↦ schedule-IsServed (run_server host d s) host gs (exit_code-returned _ (rw b at h)).1
  ]

  -- The process ends with the exit code 0 only where the driver was configured, every service that was
  -- asked for was set up, with a client that has its token and a plugin that was probed, and the server
  -- came to listen and to end without an error.
  pub handle-exits_zero :
      exit_code (handle gobizfly plugin upper host f gs) ≡ some 0
      → (d : Driver) × (s : Servers Client) × IsComplete gobizfly plugin upper f d s
        × IsServed (run_server host d s) host
  unfolding handle exit_code
  handle-exits_zero h = elim (Result-cases (set_up gobizfly plugin upper f []).0) [
    | inl ((d, s), e) ↦
        (d, s, set_up-IsComplete gobizfly plugin upper f d s e, served d s (rw e at h))
    | inr (a, e) ↦ cc ((exit_code-returned (abort a entry) (rw e at h)).1)
  ]
