-- ===== src/Block/Driver/Endpoints.antt =====
-- driver/blockstorage/util.go: ParseEndpoint.
use Prim.Native.Char.{Char, code}
use text.Mathlib.TextLemmas.{nil-append, cons-append}
use csi_bizflycloud.Base.{
  Bool-cases, Option, String, ap, arith, false, inl, inr, is_empty, nat_eq, none, refl, some, sym,
  true, ℕ, ◌<>◌, ◌||◌, ◌∙◌, ◌≡◌, ◌≢◌,
}
use csi_bizflycloud.Base.Text.{has_prefix_folded, lower_code, split_at, split_once, strip_prefix}
use csi_bizflycloud.Base.Go.{GoError, Result, ok}
use csi_bizflycloud.Block.Driver.{parse_endpoint, split_endpoint}
use csi_bizflycloud.Share.Util.Endpoints.{strip_prefix_sound}

split_at-none :
    (c : Char) (x : Option String) (y : Option (String × String))
    → split_at c x y ≡ none
    → (x ≡ none) × (y ≡ none)
split_at-none c none none h = (refl, refl)
split_at-none c none (some p) h = cc
split_at-none c (some r) y h = cc

-- Where the split finds no separator, the text does not begin with one, and the split of what follows
-- the first character finds none.
split-nothing :
    (sep : String) (c : Char) (s : String)
    → split_once sep (String.◌∷◌ c s) ≡ none
    → (strip_prefix sep (String.◌∷◌ c s) ≡ none) × (split_once sep s ≡ none)
unfolding split_once
split-nothing sep c s h = split_at-none c _ _ h

abbrev parts_of : Option (String × String) → String × String
parts_of none = ("", "")
parts_of (some p) = p

joined :
    (sep : String) (c : Char) (s a b : String) (x : Option String) (y : Option (String × String))
    → strip_prefix sep (String.◌∷◌ c s) ≡ x
    → ((u v : String) → y ≡ some (u, v) → s ≡ u <> sep <> v)
    → split_at c x y ≡ some (a, b)
    → String.◌∷◌ c s ≡ a <> sep <> b
joined sep c s a b (some r) y e rec h =
    let left : "" ≡ a = ap (λ o. (parts_of o).0) h in
    let right : r ≡ b = ap (λ o. (parts_of o).1) h in
    rw (← left, ← right) (strip_prefix_sound sep _ r e ∙ sym (nil-append (sep <> r)))
joined sep c s a b none (some (u, v)) e rec h =
    let left : String.◌∷◌ c u ≡ a = ap (λ o. (parts_of o).0) h in
    let right : v ≡ b = ap (λ o. (parts_of o).1) h in
    rw (← left, ← right)
      (ap (λ t. String.◌∷◌ c t) (rec u v refl) ∙ sym (cons-append c u (sep <> v)))
joined sep c s a b none none e rec h = cc

-- The text before the separator, the separator, and the text after it.
split-joins : (sep s a b : String) → split_once sep s ≡ some (a, b) → s ≡ a <> sep <> b
unfolding split_once
split-joins sep String.[] a b h = cc
split-joins sep (String.◌∷◌ c s) a b h =
    joined sep c s a b _ (split_once sep s) refl (λ u v. split-joins sep s u v) h

-- Texts whose characters are no lower case of others.
abbrev IsCaseless : String → Type 0
IsCaseless String.[] = Unit
IsCaseless (String.◌∷◌ c p) =
    ((n : ℕ) → nat_eq (code c) (lower_code n) ≡ true → nat_eq (code c) n ≡ true) × IsCaseless p

separator-IsCaseless : IsCaseless "://"
separator-IsCaseless =
    (λ n h. ground (arith, h), (λ n h. ground (arith, h), (λ n h. ground (arith, h), tt)))

folded-cons :
    (d c : Char) (s p : String)
    → has_prefix_folded (String.◌∷◌ d s) (String.◌∷◌ c p) ≡ true
    → (nat_eq (code c) (lower_code (code d)) ≡ true) × (has_prefix_folded s p ≡ true)
unfolding has_prefix_folded
folded-cons d c s p h = elim (Bool-cases (nat_eq (code c) (lower_code (code d)))) [
  | inl b ↦ (b, rw b at h)
  | inr b ↦ cc (rw b at h)
]

folded-strip :
    (p s : String)
    → IsCaseless p
    → has_prefix_folded s p ≡ true
    → (r : String) × (strip_prefix p s ≡ some r)
unfolding strip_prefix has_prefix_folded
folded-strip String.[] s k h = (s, refl)
folded-strip (String.◌∷◌ c p) String.[] k h = cc
folded-strip (String.◌∷◌ c p) (String.◌∷◌ d s) (k, more) h =
    let (same, rest) = folded-cons d c s p h in
    let (r, e) = folded-strip p s more rest in (r, rw (k (code d) same) e)

no_prefix : has_prefix_folded "" ("" <> "://") ≡ true → ⊥
unfolding has_prefix_folded
no_prefix h = cc

no_text : (d : Char) (w : String) → has_prefix_folded "" (String.◌∷◌ d w <> "://") ≡ true → ⊥
unfolding has_prefix_folded
no_text d w h = cc (rw cons-append at h)

-- Where the scheme and the separator are a prefix in some case, the split finds the separator.
folded-finds :
    (scheme ep : String)
    → has_prefix_folded ep (scheme <> "://") ≡ true
    → split_once "://" ep ≢ none
folded-finds String.[] String.[] h n = no_prefix h
folded-finds String.[] (String.◌∷◌ c s) h n =
    let (r, e) = folded-strip "://" (String.◌∷◌ c s) separator-IsCaseless (rw nil-append at h) in
    cc (sym e ∙ (split-nothing "://" c s n).0)
folded-finds (String.◌∷◌ d w) String.[] h n = no_text d w h
folded-finds (String.◌∷◌ d w) (String.◌∷◌ c s) h n =
    folded-finds w s (folded-cons c d s (w <> "://") (rw cons-append at h)).1
      (split-nothing "://" c s n).1

split_endpoint-answers : (o : Option (String × String)) → o ≢ none → split_endpoint o ≢ none
split_endpoint-answers none h e = h refl
split_endpoint-answers (some (p, a)) h e = elim (Bool-cases (is_empty a)) [
  | inl b ↦ cc (rw b at e)
  | inr b ↦ cc (rw b at e)
]

-- ParseEndpoint never reads past the parts of the split, whatever the endpoint is.
pub parse_endpoint-answers : (ep : String) → parse_endpoint ep ≢ none
unfolding parse_endpoint
parse_endpoint-answers ep e = elim (Bool-cases (has_prefix_folded ep "unix://")) [
  | inl b ↦ split_endpoint-answers _ (folded-finds "unix" ep b) (rw b at e)
  | inr b ↦ elim (Bool-cases (has_prefix_folded ep "tcp://")) [
    | inl c ↦ split_endpoint-answers _ (folded-finds "tcp" ep c) (rw c at (rw b at e))
    | inr c ↦ cc (rw c at (rw b at e))
  ]
]

abbrev answer_of : Option (Result GoError (String × String)) → String × String
answer_of (some (ok p)) = p
answer_of _ = ("", "")

split_endpoint-joins :
    (ep p a : String) (o : Option (String × String))
    → split_once "://" ep ≡ o
    → split_endpoint o ≡ some (ok (p, a))
    → (ep ≡ p <> "://" <> a) × (is_empty a ≡ false)
split_endpoint-joins ep p a none e h = cc
split_endpoint-joins ep p a (some (u, v)) e h = elim (Bool-cases (is_empty v)) [
  | inl b ↦ cc (rw b at h)
  | inr b ↦
      let g = rw b at h in
      let left : u ≡ p = ap (λ o. (answer_of o).0) g in
      let right : v ≡ a = ap (λ o. (answer_of o).1) g in
      rw (← left, ← right) (split-joins "://" ep u v e, b)
]

-- Where ParseEndpoint gives a protocol and an address, the endpoint is the two with the separator
-- between them, and the address is not empty.
pub parse_endpoint-joins :
    (ep p a : String)
    → parse_endpoint ep ≡ some (ok (p, a))
    → (ep ≡ p <> "://" <> a) × (is_empty a ≡ false)
unfolding parse_endpoint
parse_endpoint-joins ep p a h =
    elim (Bool-cases (has_prefix_folded ep "unix://" || has_prefix_folded ep "tcp://")) [
      | inl b ↦ split_endpoint-joins ep p a _ refl (rw b at h)
      | inr b ↦ cc (rw b at h)
    ]
