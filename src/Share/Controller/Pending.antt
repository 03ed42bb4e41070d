-- ===== src/Share/Controller/Pending.antt =====
-- driver/filestorage/controllerserver.go: `pendingVolumes`, the map of the names and ids that some
-- call works on.
use csi_bizflycloud.Base.{
  Bool, List, String, any, false, if◌then◌else◌, not, select, true, ◌==◌, ◌∷◌,
}
use csi_bizflycloud.Base.Go.{Exec, Failure, GoError, aborted, err, format, status}
use csi_bizflycloud.Share.Api.{Calls}

-- `LoadOrStore(key, true)`: whether the key was there, and the keys after it.
unfoldable pub load_or_store : String → List String → Bool × List String
load_or_store key keys = if any (λ k. k == key) keys then (true, keys) else (false, key ∷ keys)

-- `Delete(key)`
unfoldable pub delete_key : String → List String → List String
delete_key key keys = select (λ k. not (k == key)) keys

-- The keys and the calls of the API.
pub record World : Type 0 where
  pub pending : List String
  pub calls_made : Calls

-- A call of the API leaves the keys alone.
abbrev pub on_calls : {A : Type 0} → Exec Calls GoError A → Exec World GoError A
on_calls m w = ((m w.calls_made).0, record w { calls_made = (m w.calls_made).1 })

abbrev pub run_pending : {A : Type 0} → String → Bool → Exec World Failure A → Exec World Failure A
run_pending key true m w = (err (status aborted (format "volume %s is already being processed")), w)
run_pending key false m w = let (r, v) = m w in (r, record v { pending = delete_key key v.pending })

-- A body between LoadOrStore and the deferred Delete.
unfoldable pub exclusively : {A : Type 0} → String → Exec World Failure A → Exec World Failure A
exclusively key m w =
    let (held, keys) = load_or_store key w.pending in
    run_pending key held m (record w { pending = keys })
