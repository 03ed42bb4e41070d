-- ===== src/Share/Controller/Interleaving.antt =====
-- driver/filestorage/controllerserver.go: handlers that run at once, as the steps that LoadOrStore and
-- the deferred Delete of pendingVolumes make.
use csi_bizflycloud.Base.{
  Bool-cases, List, String, [], any, ap, arith, eq_iff, false, if◌then◌else◌, inl, inr, refl, subst,
  tally, true, ℕ, ◌++◌, ◌+◌, ◌==◌, ◌∙◌, ◌∷◌, ◌≡◌, ◌≤◌,
}
use csi_bizflycloud.Share.Controller.Pending.{delete_key, load_or_store}

-- The keys of the map, and the keys of the calls that are between LoadOrStore and Delete.
pub record Calling : Type 0 where
  pub pending : List String
  pub running : List String

-- One step of some handler: LoadOrStore finds the key free, or taken, or a deferred Delete runs.
pub data Step : Calling → Calling → Type 0 where
  begins :
      (key : String) (s : Calling)
      → (load_or_store key s.pending).0 ≡ false
      → Step s (record { pending = (load_or_store key s.pending).1; running = key ∷ s.running })
  aborts :
      (key : String) (s : Calling)
      → (load_or_store key s.pending).0 ≡ true
      → Step s (record { pending = (load_or_store key s.pending).1; running = s.running })
  ends :
      (key : String) (s : Calling) (before after : List String)
      → s.running ≡ before ++ (key ∷ after)
      → Step s (record { pending = delete_key key s.pending; running = before ++ after })

pub data Reachable : Calling → Type 0 where
  starts : Reachable (record { pending = []; running = [] })
  steps : {s t : Calling} → Reachable s → Step s t → Reachable t

-- How often a key stands in a list.
abbrev pub times_in : String → List String → ℕ
times_in key = tally (λ k. k == key)

times_in-append :
    (key : String) (xs ys : List String)
    → times_in key (xs ++ ys) ≡ times_in key xs + times_in key ys
times_in-append key [] ys = omega arith
times_in-append key (x ∷ xs) ys = ground (arith, times_in-append key xs ys)

absent-times_in :
    (key : String) (xs : List String) → any (λ k. k == key) xs ≡ false → times_in key xs ≡ 0
absent-times_in key [] h = refl
absent-times_in key (x ∷ xs) h = ground (arith, absent-times_in key xs)

times_in-delete_key :
    (key other : String) (xs : List String)
    → times_in other (delete_key key xs) ≡ (if key == other then 0 else times_in other xs)
unfolding delete_key
times_in-delete_key key other [] = ground arith
times_in-delete_key key other (x ∷ xs) =
    ground (arith, eq_iff key other, eq_iff x key, eq_iff x other, times_in-delete_key key other xs)

-- A key is pending as often as a call runs with it, and that is once at most.
abbrev Exclusive : String → Calling → Type 0
Exclusive key s = (times_in key s.running ≡ times_in key s.pending) × (times_in key s.running ≤ 1)

same_key : (key other : String) → (key == other) ≡ true → key ≡ other
same_key key other h = ground (arith, eq_iff key other, h)

begin-Exclusive :
    (key k : String) (s : Calling)
    → Exclusive key s
    → any (λ j. j == k) s.pending ≡ false
    → Exclusive key (record { pending = k ∷ s.pending; running = k ∷ s.running })
begin-Exclusive key k s (e, l) free = elim (Bool-cases (k == key)) [
  | inl b ↦
      let none_there =
        absent-times_in key s.pending
          (subst (λ x. any (λ j. j == x) s.pending ≡ false) (same_key k key b) free) in
      rw b (omega (arith, e, none_there), omega (arith, e, none_there))
  | inr b ↦ rw b (e, l)
]

end-Exclusive :
    (key k : String) (s : Calling) (xs ys : List String)
    → Exclusive key s
    → s.running ≡ xs ++ (k ∷ ys)
    → Exclusive key (record { pending = delete_key k s.pending; running = xs ++ ys })
end-Exclusive key k s xs ys (e, l) r =
    let split = ap (times_in key) r ∙ times_in-append key xs (k ∷ ys) in
    let joined = times_in-append key xs ys in
    let deleted = times_in-delete_key k key s.pending in
    elim (Bool-cases (k == key)) [
      | inl b ↦
          let one = rw b at split in
          let gone = rw b at deleted in
          (omega (arith, e, l, one, joined, gone), omega (arith, l, one, joined))
      | inr b ↦
          let one = rw b at split in
          let gone = rw b at deleted in
          (omega (arith, e, l, one, joined, gone), omega (arith, l, one, joined))
    ]

Step-Exclusive : (key : String) (s t : Calling) → Exclusive key s → Step s t → Exclusive key t
unfolding load_or_store
Step-Exclusive key s t h (begins k s' free) = elim (Bool-cases (any (λ j. j == k) s.pending)) [
  | inl b ↦ cc (rw b at free)
  | inr b ↦ rw b (begin-Exclusive key k s h b)
]
Step-Exclusive key s t h (aborts k s' taken) = elim (Bool-cases (any (λ j. j == k) s.pending)) [
  | inl b ↦ rw b h
  | inr b ↦ cc (rw b at taken)
]
Step-Exclusive key s t h (ends k s' xs ys e) = end-Exclusive key k s xs ys h e

-- In every state that the handlers reach, in whatever order their steps come, at most one call runs
-- with a key, and the key is pending exactly while a call runs with it.
pub running-exclusive :
    {s : Calling} (key : String)
    → Reachable s
    → (times_in key s.running ≡ times_in key s.pending) × (times_in key s.running ≤ 1)
running-exclusive key starts = (refl, omega arith)
running-exclusive key (steps {s = s} {t = t} r step) =
    Step-Exclusive key s t (running-exclusive key r) step
