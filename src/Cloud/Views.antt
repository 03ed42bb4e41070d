-- ===== src/Cloud/Views.antt =====
-- The volumes of the cloud as a map from names, which forgets their order.
use mathlib.Core.Path.{fun_ext}
use text.Mathlib.TextPositions.{eq_refl}
use csi_bizflycloud.Base.{
  Bool-cases, List, Option, String, [], any, ap, arith, eq_iff, false, if◌then◌else◌, inl, inr, map,
  none, refl, some, sym, true, ◌++◌, ◌==◌, ◌∙◌, ◌∷◌, ◌≡◌,
}
use csi_bizflycloud.Base.Int.{ℤ}
use csi_bizflycloud.Cloud.{Volume}
use csi_bizflycloud.Cloud.Store.{first_named}
use csi_bizflycloud.Cloud.Volumes.{IsDistinct, extended, extended-name, has_id, tally-none, without}

-- The volume of each name.
abbrev pub Registry : Type 0
Registry = String → Option Volume

abbrev pub view : List Volume → Registry
view vs name = first_named name vs

abbrev pub updated : Volume → Registry → Registry
updated v a name = if v.name == name then some v else a name

abbrev pub forget_in : String → Option Volume → Option Volume
forget_in id none = none
forget_in id (some v) = if has_id id v then none else some v

abbrev pub forgotten : String → Registry → Registry
forgotten id a name = forget_in id (a name)

abbrev pub resize_in : String → ℤ → Option Volume → Option Volume
resize_in id size none = none
resize_in id size (some v) = some (extended id size v)

abbrev pub resized : String → ℤ → Registry → Registry
resized id size a name = resize_in id size (a name)

first_named-inserted :
    (name : String) (v : Volume) (xs ys : List Volume)
    → first_named v.name (xs ++ ys) ≡ none
    → first_named name (xs ++ (v ∷ ys)) ≡ updated v (view (xs ++ ys)) name
first_named-inserted name v [] ys h = refl
first_named-inserted name v (x ∷ xs) ys h = ground (
  arith,
  eq_iff v.name name,
  eq_iff x.name name,
  eq_iff x.name v.name,
  first_named-inserted name v xs ys,
)

pub view-insert :
    (v : Volume) (xs ys : List Volume)
    → first_named v.name (xs ++ ys) ≡ none
    → view (xs ++ (v ∷ ys)) ≡ updated v (view (xs ++ ys))
view-insert v xs ys h = fun_ext (λ name. first_named-inserted name v xs ys h)

tail-IsDistinct : (v : Volume) (vs : List Volume) → IsDistinct (v ∷ vs) → IsDistinct vs
tail-IsDistinct v vs d name = ground (arith, d name)

-- Behind a volume of distinct names, its name is not found again.
named-once :
    (name : String) (v : Volume) (vs : List Volume)
    → IsDistinct (v ∷ vs)
    → (v.name == name) ≡ true
    → first_named name vs ≡ none
named-once name v vs d h = tally-none name vs (ground (arith, h, d name))

first_named-without :
    (name id : String) (vs : List Volume)
    → IsDistinct vs
    → first_named name (without id vs) ≡ forget_in id (first_named name vs)
first_named-without name id [] d = refl
first_named-without name id (v ∷ vs) d =
    let rest = first_named-without name id vs (tail-IsDistinct v vs d) in
    elim (Bool-cases (has_id id v)) [
      | inl b ↦ elim (Bool-cases (v.name == name)) [
        | inl c ↦ rw (b, c, b) (rest ∙ ap (forget_in id) (named-once name v vs d c))
        | inr c ↦ rw (b, c) rest
      ]
      | inr b ↦ elim (Bool-cases (v.name == name)) [
        | inl c ↦ rw (b, c, b) refl
        | inr c ↦ rw (b, c) rest
      ]
    ]

pub view-without :
    (id : String) (vs : List Volume) → IsDistinct vs → view (without id vs) ≡ forgotten id (view vs)
view-without id vs d = fun_ext (λ name. first_named-without name id vs d)

first_named-extended :
    (name id : String) (size : ℤ) (vs : List Volume)
    → first_named name (map (extended id size) vs) ≡ resize_in id size (first_named name vs)
first_named-extended name id size [] = refl
first_named-extended name id size (v ∷ vs) =
    rw (extended-name id size v) (elim (Bool-cases (v.name == name)) [
      | inl b ↦ rw (b) refl
      | inr b ↦ rw (b) (first_named-extended name id size vs)
    ])

pub view-extended :
    (id : String) (size : ℤ) (vs : List Volume)
    → view (map (extended id size) vs) ≡ resized id size (view vs)
view-extended id size vs = fun_ext (λ name. first_named-extended name id size vs)

-- Where no volume has the id, nothing is forgotten.
pub without-missing :
    (id : String) (vs : List Volume) → any (has_id id) vs ≡ false → without id vs ≡ vs
without-missing id [] h = refl
without-missing id (v ∷ vs) h = ground (arith, without-missing id vs)

-- A volume of the id stands under its name.
pub id-shown :
    (id : String) (vs : List Volume)
    → IsDistinct vs
    → any (has_id id) vs ≡ true
    → (v : Volume) × (view vs v.name ≡ some v) × (has_id id v ≡ true)
id-shown id [] d h = cc
id-shown id (v ∷ vs) d h = elim (Bool-cases (has_id id v)) [
  | inl b ↦ (v, rw (eq_refl v.name) refl, b)
  | inr b ↦
      let (w, shown, same) = id-shown id vs (tail-IsDistinct v vs d) (rw b at h) in
      elim (Bool-cases (v.name == w.name)) [
        | inl c ↦ cc (sym (named-once w.name v vs d c) ∙ shown)
        | inr c ↦ (w, rw c shown, same)
      ]
]
