-- ===== src/Share/Driver/Setup.antt =====
-- driver/filestorage/driver.go: NewDriver and SetupNodeService.
use Prim.Native.Char.{Char}
use csi_bizflycloud.Base.{
  Bool-cases, Option, String, any, ap, arith, false, inl, inr, is_empty, nat_eq, none, refl, some,
  subst, ◌∷◌, ◌≡◌,
}
use csi_bizflycloud.Base.Go.{GoError, Result, Result-cases, calls, err, ok}
use csi_bizflycloud.Share.Util.{endpoint_address, parse_grpc_endpoint}
use csi_bizflycloud.Share.Plugin.{
  Capabilities, Plugin, Trace, capabilities_asked, closed, dial, dialed, info_asked, probed_forever,
}
use csi_bizflycloud.Share.Node.{NodeServer}
use csi_bizflycloud.Share.Controller.Volumes.{or_default}
use csi_bizflycloud.Share.Driver.{
  Driver, DriverOpts, capability_set, driver_version, init_proxied_driver, new_driver, node_server,
  plugin_info, setup_node_service, stage_unstage_volume, to_upper, with_endpoint,
}
use csi_bizflycloud.Share.Util.Endpoints.{parse-endpoint_address}
use csi_bizflycloud.Share.Node.Invariants.{CacheComplete, open_connections}

-- An endpoint that the driver has made: it is parsed to the parts that make it.
pub record IsEndpoint (e : String) : Type 0 where
  pub proto : String
  pub addr : String
  pub parses : parse_grpc_endpoint e ≡ some (ok (proto, addr))
  pub made : e ≡ endpoint_address proto addr

-- What NewDriver makes: endpoints that the server can parse, and a name and a version to answer.
pub record IsConfigured (d : Driver) : Type 0 where
  pub server : IsEndpoint d.server_endpoint
  pub fwd : IsEndpoint d.fwd_endpoint
  pub info : plugin_info d ≡ ok (d.name, driver_version)

endpoint_address-IsEndpoint :
    (e p a : String) → parse_grpc_endpoint e ≡ some (ok (p, a)) → IsEndpoint (endpoint_address p a)
endpoint_address-IsEndpoint e p a h = record {
  proto = p;
  addr = a;
  parses = parse-endpoint_address e p a h;
  made = refl;
}

or_default-nonempty :
    (value default : String)
    → is_empty default ≡ false
    → is_empty (or_default value default) ≡ false
or_default-nonempty value default h = elim (Bool-cases (is_empty value)) [
  | inl b ↦ rw b h
  | inr b ↦ rw b b
]

-- The driver of a success.
abbrev driver_in : Driver → Option (Result GoError Driver) → Driver
driver_in d (some (ok e)) = e
driver_in d _ = d

abbrev configured : (Char → Char) → DriverOpts → String → String → Driver
configured upper o server fwd = record {
  name = or_default o.driver_name "fs.csi.bizflycloud.vn";
  version = driver_version;
  share_proto = or_default (to_upper upper o.share_proto) "NFS";
  server_endpoint = server;
  fwd_endpoint = fwd;
}

configured-IsConfigured :
    (upper : Char → Char) (o : DriverOpts) (server fwd : String)
    → IsEndpoint server
    → IsEndpoint fwd
    → IsConfigured (configured upper o server fwd)
unfolding plugin_info
configured-IsConfigured upper o server fwd s f = record {
  server = s;
  fwd = f;
  info = rw (or_default-nonempty o.driver_name "fs.csi.bizflycloud.vn" refl) refl;
}

with_fwd :
    (upper : Char → Char) (o : DriverOpts) (server text : String) (d : Driver)
    (r : Option (Result GoError (String × String)))
    → IsEndpoint server
    → parse_grpc_endpoint o.fwd_csi_endpoint ≡ r
    → with_endpoint text r (λ fwd. some (ok (configured upper o server fwd))) ≡ some (ok d)
    → IsConfigured d
with_fwd upper o server text d none s e h = cc
with_fwd upper o server text d (some (err x)) s e h = cc
with_fwd upper o server text d (some (ok (p, a))) s e h = subst IsConfigured (ap (driver_in d) h) (
    configured-IsConfigured upper o server (endpoint_address p a) s
      (endpoint_address-IsEndpoint _ p a e))

with_server :
    (upper : Char → Char) (o : DriverOpts) (text more : String) (d : Driver)
    (r : Option (Result GoError (String × String)))
    → parse_grpc_endpoint o.server_csi_endpoint ≡ r
    → with_endpoint text r (λ server.
      with_endpoint more
        (parse_grpc_endpoint o.fwd_csi_endpoint)
        (λ fwd. some (ok (configured upper o server fwd))))
      ≡ some (ok d)
    → IsConfigured d
with_server upper o text more d none e h = cc
with_server upper o text more d (some (err x)) e h = cc
with_server upper o text more d (some (ok (p, a))) e h =
    with_fwd upper o (endpoint_address p a) more d _ (endpoint_address-IsEndpoint _ p a e) refl h

-- A driver that NewDriver makes has endpoints that are parsed to the parts that make them, and its
-- identity service answers its name and the version.
pub new_driver-IsConfigured :
    (upper : Char → Char) (o : DriverOpts) (d : Driver)
    → new_driver upper o ≡ some (ok d)
    → IsConfigured d
unfolding new_driver
new_driver-IsConfigured upper o d h = elim (Bool-cases (is_empty o.server_csi_endpoint)) [
  | inl b ↦ cc (rw b at h)
  | inr b ↦ elim (Bool-cases (is_empty o.fwd_csi_endpoint)) [
    | inl c ↦ cc (rw c at (rw b at h))
    | inr c ↦ with_server upper o _ _ d _ refl (rw c at (rw b at h))
  ]
]

-- A node service that was set up: what was asked of the plugin, and what the service took from it.
pub record IsSetUp (plugin : Plugin) (d : Driver) (t : Trace) (ns : NodeServer) : Type 0 where
  pub caps : Capabilities
  pub asked :
      ns.trace
      ≡ closed ∷ capabilities_asked ∷ info_asked ∷ probed_forever ∷ dialed d.fwd_endpoint ∷ t
  pub answered :
      plugin.on_capabilities (info_asked ∷ probed_forever ∷ dialed d.fwd_endpoint ∷ t) ≡ ok caps
  pub stages :
      ns.supports_node_stage ≡ any (λ c. nat_eq c stage_unstage_volume) (capability_set caps)
  pub endpoint : ns.fwd_endpoint ≡ d.fwd_endpoint
  pub complete : CacheComplete ns
  pub connections : open_connections plugin ns.trace ≡ open_connections plugin t

module _ (plugin : Plugin) (d : Driver) (t : Trace) (ns : NodeServer) where
  abbrev server_in : Result GoError NodeServer → NodeServer
  server_in (ok s) = s
  server_in (err e) = ns

  caps_asked :
      (caps : Capabilities)
      → plugin.on_dial t d.fwd_endpoint ≡ ok tt
      → plugin.on_capabilities (info_asked ∷ probed_forever ∷ dialed d.fwd_endpoint ∷ t) ≡ ok caps
      → (node_server plugin d
          (capability_set caps)
          (closed ∷ capabilities_asked ∷ info_asked ∷ probed_forever ∷ dialed d.fwd_endpoint ∷ t)).0
        ≡ ok ns
      → IsSetUp plugin d t ns
  unfolding open_connections
  caps_asked caps dial e h =
      let same = ap server_in h in
      subst (IsSetUp plugin d t) same (record {
        caps = caps;
        asked = refl;
        answered = e;
        stages = refl;
        endpoint = refl;
        complete = tt;
        connections = rw dial (omega arith);
      })

  pub setup_node-IsSetUp : (setup_node_service plugin d t).0 ≡ ok ns → IsSetUp plugin d t ns
  unfolding setup_node_service init_proxied_driver calls
  setup_node-IsSetUp h = elim (Result-cases (plugin.on_dial t d.fwd_endpoint)) [
    | inr (x, e) ↦ cc (rw e at h)
    | inl (tt, e) ↦
        let h1 = rw e at h in
        let t1 = dialed d.fwd_endpoint ∷ t in
        elim (Result-cases (plugin.on_probe_forever t1)) [
          | inr (x, f) ↦ cc (rw f at h1)
          | inl (tt, f) ↦
              let h2 = rw f at h1 in
              elim (Result-cases (plugin.on_info (probed_forever ∷ t1))) [
                | inr (x, g) ↦ cc (rw g at h2)
                | inl (tt, g) ↦
                    let h3 = rw g at h2 in
                    elim (Result-cases
                      (plugin.on_capabilities (info_asked ∷ probed_forever ∷ t1))) [
                        | inr (x, k) ↦ cc (rw k at h3)
                        | inl (caps, k) ↦ caps_asked caps e k (rw k at h3)
                      ]
              ]
        ]
  ]
