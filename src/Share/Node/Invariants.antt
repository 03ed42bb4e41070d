-- ===== src/Share/Node/Invariants.antt =====
-- driver/filestorage/nodeserver.go: the cache of contexts and the connections, over requests in a row.
use csi_bizflycloud.Base.{
  All, Bool-cases, Dict, List, Option, String, [], false, index, inl, inr, insert, is_empty, lookup,
  none, refl, remove, some, subst, suc, ℕ, ◌-◌, ◌==◌, ◌∷◌, ◌≡◌,
}
use csi_bizflycloud.Base.Go.{GoError, Result, Result-cases, calls, err, ok, ok-injective}
use csi_bizflycloud.Base.Post.{Keeps, Keeps-bind, Keeps-then}
use csi_bizflycloud.Share.Node.{
  NodeRpc, NodeServer, build_volume_context, checked, context_or_fail, forget, keep_context,
  node_get_volume_stats, node_publish_volume, node_stage_volume, node_unpublish_volume,
  node_unstage_volume, send,
}
use csi_bizflycloud.Share.Node.Service.{
  NodeCall, asking_stats, node_serve, node_serve_all, publishing, staging, unpublishing, unstaging,
}
use csi_bizflycloud.Share.Plugin.{Plugin, Sent, Trace, closed, connected, dialed}

-- A context names a server and a share.
abbrev pub IsComplete : Dict String → Type 0
IsComplete ctx = (is_empty (index ctx "server") ≡ false) × (is_empty (index ctx "share") ≡ false)

-- Every context of the cache is complete.
abbrev pub CacheComplete : NodeServer → Type 0
CacheComplete ns = All (λ e. IsComplete e.1) ns.node_stage_cache

All-insert :
    (id : String) (ctx : Dict String) (m : Dict (Dict String))
    → IsComplete ctx
    → All (λ e. IsComplete e.1) m
    → All (λ e. IsComplete e.1) (insert id ctx m)
unfolding insert
All-insert id ctx [] c h = (c, tt)
All-insert id ctx ((j, v) ∷ m) c (x, h) = elim (Bool-cases (j == id)) [
  | inl b ↦ rw b (c, h)
  | inr b ↦ rw b (x, All-insert id ctx m c h)
]

All-remove :
    (id : String) (m : Dict (Dict String))
    → All (λ e. IsComplete e.1) m
    → All (λ e. IsComplete e.1) (remove id m)
unfolding remove
All-remove id [] h = h
All-remove id ((j, v) ∷ m) (x, h) = elim (Bool-cases (j == id)) [
  | inl b ↦ rw b (All-remove id m h)
  | inr b ↦ rw b (x, All-remove id m h)
]

abbrev opened : Result GoError (Unit {0}) → ℕ → ℕ
opened (ok u) n = suc n
opened (err e) n = n

module _ (plugin : Plugin) where
  -- The connections that are open after the calls: dialed with success, and not closed.
  unfoldable pub open_connections : Trace → ℕ
  open_connections [] = 0
  open_connections (dialed e ∷ t) = opened (plugin.on_dial t e) (open_connections t)
  open_connections (closed ∷ t) = open_connections t - 1
  open_connections (_ ∷ t) = open_connections t

  -- The requests of a body open and close nothing.
  record KeepsOpen {A : Type 0} (m : Sent A) : Type 0 where
    pub at : (t : Trace) → open_connections (m t).1 ≡ open_connections t

  open-dialed :
      (e : String) (t : Trace)
      → open_connections (dialed e ∷ t) ≡ opened (plugin.on_dial t e) (open_connections t)
  unfolding open_connections
  open-dialed e t = refl

  open-closed : (t : Trace) → open_connections (closed ∷ t) ≡ open_connections t - 1
  unfolding open_connections
  open-closed t = refl

  -- The deferred Close closes what the dial has opened.
  send-open :
      {A : Type 0} (m : Sent A)
      → KeepsOpen m
      → Keeps (λ ns. open_connections ns.trace ≡ 0) (send plugin m)
  unfolding connected calls
  send-open m k = record {
    at = λ ns h. elim (Result-cases (plugin.on_dial ns.trace ns.fwd_endpoint)) [
      | inl (u, e) ↦
          rw (e, open-closed, k.at (dialed ns.fwd_endpoint ∷ ns.trace), open-dialed, e, h) refl
      | inr (x, e) ↦ rw (e, open-dialed, e, h) refl
    ];
  }

  send-cache : {A : Type 0} (m : Sent A) → Keeps CacheComplete (send plugin m)
  send-cache m = record { at = λ ns h. h }

build-IsComplete : (given ctx : Dict String) → build_volume_context given ≡ ok ctx → IsComplete ctx
unfolding build_volume_context lookup
build-IsComplete given ctx h = elim (Bool-cases (is_empty (index given "server"))) [
  | inl b ↦ cc (rw b at h)
  | inr b ↦ elim (Bool-cases (is_empty (index given "share"))) [
    | inl c ↦ cc (rw (b, c) at h)
    | inr c ↦ let e = ok-injective (rw (b, c) at h) in subst IsComplete e (b, c)
  ]
]

module _ (plugin : Plugin) where
  -- Both properties, of a server.
  abbrev Sound : NodeServer → Type 0
  Sound ns = CacheComplete ns × (open_connections plugin ns.trace ≡ 0)

  send-Sound : {A : Type 0} (m : Sent A) → KeepsOpen plugin m → Keeps Sound (send plugin m)
  send-Sound m k = record {
    at = λ ns h. ((send-cache plugin m).at ns h.0, (send-open plugin m k).at ns h.1);
  }

  checked-Sound :
      (r : Result GoError (Unit {0})) (m : NodeRpc (Unit {0}))
      → Keeps Sound m
      → Keeps Sound (checked r m)
  checked-Sound (ok u) m k = k
  checked-Sound (err e) m k = record { at = λ ns h. h }

  context-Sound : (r : Result GoError (Dict String)) → Keeps Sound (context_or_fail r)
  context-Sound (ok ctx) = record { at = λ ns h. h }
  context-Sound (err e) = record { at = λ ns h. h }

  keep_context-Sound :
      (id : String) (c : Option (Dict String)) (given : Dict String)
      → Keeps Sound (keep_context plugin id c (build_volume_context given))
  keep_context-Sound id (some ctx) given = record { at = λ ns h. h }
  keep_context-Sound id none given = record {
    at = λ ns h. elim (Result-cases (build_volume_context given)) [
      | inl (ctx, e) ↦
          rw e (All-insert id ctx ns.node_stage_cache (build-IsComplete given ctx e) h.0, h.1)
      | inr (x, e) ↦ rw e h
    ];
  }

  forget-Sound : (id : String) → Keeps Sound (forget plugin id)
  forget-Sound id = record { at = λ ns h. (All-remove id ns.node_stage_cache h.0, h.1) }

  node_serve-Sound : (c : NodeCall) (ns : NodeServer) → Sound ns → Sound (node_serve plugin c ns)
  unfolding node_serve node_publish_volume node_unpublish_volume node_stage_volume
      node_unstage_volume node_get_volume_stats open_connections
  node_serve-Sound (publishing r) ns h =
      (checked-Sound _ _ (
          Keeps-bind Sound _ _ (record { at = λ m k. (context-Sound _).at m k })
            (λ ctx. send-Sound _ (record { at = λ t. refl })))).at
        ns h
  node_serve-Sound (unpublishing r) ns h =
      (checked-Sound _ _ (send-Sound _ (record { at = λ t. refl }))).at ns h
  node_serve-Sound (staging r) ns h =
      (checked-Sound _ _ (
          Keeps-bind Sound _ _
            (record { at = λ m k. (keep_context-Sound _ _ r.volume_context).at m k })
            (λ ctx. send-Sound _ (record { at = λ t. refl })))).at
        ns h
  node_serve-Sound (unstaging r) ns h =
      (checked-Sound _ _ (
          Keeps-then Sound _ _ (forget-Sound r.volume_id)
            (send-Sound _ (record { at = λ t. refl })))).at
        ns h
  node_serve-Sound (asking_stats r) ns h = (send-Sound _ (record { at = λ t. refl })).at ns h

  -- From a server whose contexts are complete and whose connections are closed, every sequence of
  -- requests comes to such a server, whatever the plugin answers.
  pub node_serve_all_sound :
      (cs : List NodeCall) (ns : NodeServer)
      → CacheComplete ns × (open_connections plugin ns.trace ≡ 0)
      → CacheComplete (node_serve_all plugin cs ns)
        × (open_connections plugin (node_serve_all plugin cs ns).trace ≡ 0)
  unfolding node_serve_all
  node_serve_all_sound [] ns h = h
  node_serve_all_sound (c ∷ cs) ns h = node_serve_all_sound cs _ (node_serve-Sound c ns h)
