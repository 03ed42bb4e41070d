-- ===== src/Share/Util/Endpoints.antt =====
-- driver/filestorage/util.go: parseGRPCEndpoint and endpointAddress.
use Prim.Native.Char.{Char, code}
use mathlib.Core.Option.{some-injective}
use text.Mathlib.TextEquality.{Char-path}
use text.Mathlib.TextLemmas.{nil-append, cons-append, append_assoc}
use csi_bizflycloud.Base.{
  Bool-cases, Option, Option-cases, String, ap, arith, false, inl, inr, nat_eq, none, refl, some,
  sym, true, ◌<>◌, ◌↔◌, ◌∙◌, ◌≡◌, ◌⊎◌,
}
use csi_bizflycloud.Base.Text.{strip_prefix}
use csi_bizflycloud.Base.Go.{GoError, Result, ok}
use csi_bizflycloud.Share.Util.{
  endpoint_address, parse_grpc_endpoint, scheme_endpoint, tcp_endpoint, unix_address, unix_endpoint,
}

strip_prefix-append : (p s : String) → strip_prefix p (p <> s) ≡ some s
unfolding strip_prefix
strip_prefix-append String.[] s = ap some (nil-append s)
strip_prefix-append (String.◌∷◌ c p) s = rw cons-append (ground (arith, strip_prefix-append p s))

strip_prefix-mismatch :
    (c d : Char) (p q s : String)
    → nat_eq (code c) (code d) ≡ false
    → strip_prefix (String.◌∷◌ c p) (String.◌∷◌ d q <> s) ≡ none
unfolding strip_prefix
strip_prefix-mismatch c d p q s h = rw cons-append (rw h)

unix_no_slash : (s : String) → strip_prefix "/" ("unix://" <> s) ≡ none
unix_no_slash s = strip_prefix-mismatch "/" "u" "" "nix://" s refl

tcp_no_slash : (s : String) → strip_prefix "/" ("tcp://" <> s) ≡ none
tcp_no_slash s = strip_prefix-mismatch "/" "t" "" "cp://" s refl

tcp_no_unix : (s : String) → strip_prefix "unix://" ("tcp://" <> s) ≡ none
tcp_no_unix s = strip_prefix-mismatch "u" "t" "nix://" "cp://" s refl

address_unix : (a : String) → endpoint_address "unix" a ≡ "unix://" <> a
address_unix a = sym (append_assoc "unix" "://" a)

address_tcp : (a : String) → endpoint_address "tcp" a ≡ "tcp://" <> a
address_tcp a = sym (append_assoc "tcp" "://" a)

pub strip_prefix_sound : (p s r : String) → strip_prefix p s ≡ some r → s ≡ p <> r
unfolding strip_prefix
strip_prefix_sound String.[] s r h = some-injective s r h ∙ sym (nil-append r)
strip_prefix_sound (String.◌∷◌ c p) String.[] r h = cc
strip_prefix_sound (String.◌∷◌ c p) (String.◌∷◌ d s) r h =
    elim (Bool-cases (nat_eq (code c) (code d))) [
      | inl b ↦
          let rest = strip_prefix_sound p s r (rw b at h) in
          let same : c ≡ d = Char-path c d (ground (arith, b)) in
          rw (cons-append, ← rest, same) refl
      | inr b ↦ cc (rw b at h)
    ]

-- The address of a Unix socket begins with a slash.
abbrev IsAddress : String → String → Type 0
IsAddress proto addr = (proto ≡ "tcp") ⊎ ((r : String) × (proto ≡ "unix") × (addr ≡ "/" <> r))

cons_slash : (c : Char) (s : String) → nat_eq (code c) b'/' ≡ true → String.◌∷◌ c s ≡ "/" <> s
cons_slash c s h =
    let same : c ≡ "/" = Char-path c "/" (ground (arith, h)) in
    rw same (sym (cons-append "/" "" s ∙ ap (λ t. String.◌∷◌ "/" t) (nil-append s)))

unix_address-slash : (s a : String) → unix_address s ≡ some a → (r : String) × (a ≡ "/" <> r)
unix_address-slash String.[] a h = cc
unix_address-slash (String.◌∷◌ c s) a h = elim (Bool-cases (nat_eq (code c) b'/')) [
  | inl b ↦ (s, sym (some-injective _ _ (rw b at h)) ∙ cons_slash c s b)
  | inr b ↦ (String.◌∷◌ c s, sym (some-injective _ _ (rw b at h)))
]

parse_tcp : (a : String) → parse_grpc_endpoint ("tcp://" <> a) ≡ some (ok ("tcp", a))
unfolding parse_grpc_endpoint
parse_tcp a = rw (tcp_no_slash a, tcp_no_unix a, strip_prefix-append "tcp://" a)

parse_unix :
    (r : String) → parse_grpc_endpoint ("unix://" <> ("/" <> r)) ≡ some (ok ("unix", "/" <> r))
unfolding parse_grpc_endpoint
parse_unix r =
    rw (unix_no_slash ("/" <> r), strip_prefix-append "unix://" ("/" <> r))
      (rw (cons-append "/" "" r) (rw (nil-append r) refl))

address-parse_endpoint :
    (p a : String) → IsAddress p a → parse_grpc_endpoint (endpoint_address p a) ≡ some (ok (p, a))
address-parse_endpoint p a (inl t) = rw (t, address_tcp a, parse_tcp a) refl
address-parse_endpoint p a (inr (r, u, s)) = rw (u, s, address_unix ("/" <> r), parse_unix r) refl

-- The pair that a parse gives.
abbrev parsed : Option (Result GoError (String × String)) → String × String
parsed (some (ok x)) = x
parsed _ = ("", "")

unix_endpoint-IsAddress :
    (s p a : String) → unix_endpoint (unix_address s) ≡ some (ok (p, a)) → IsAddress p a
unix_endpoint-IsAddress String.[] p a h = cc
unix_endpoint-IsAddress (String.◌∷◌ c s) p a h =
    let (r, e) = unix_address-slash (String.◌∷◌ c s) _ refl in
    inr (r, sym (ap (λ o. (parsed o).0) h), sym (ap (λ o. (parsed o).1) h) ∙ e)

tcp_endpoint-IsAddress :
    (o : Option String) (p a : String) → tcp_endpoint o ≡ some (ok (p, a)) → IsAddress p a
tcp_endpoint-IsAddress none p a h = cc
tcp_endpoint-IsAddress (some s) p a h = inl (sym (ap (λ o. (parsed o).0) h))

scheme_endpoint-IsAddress :
    (u t : Option String) (p a : String) → scheme_endpoint u t ≡ some (ok (p, a)) → IsAddress p a
scheme_endpoint-IsAddress (some s) t p a h = unix_endpoint-IsAddress s p a h
scheme_endpoint-IsAddress none t p a h = tcp_endpoint-IsAddress t p a h

parse_endpoint-IsAddress :
    (e p a : String) → parse_grpc_endpoint e ≡ some (ok (p, a)) → IsAddress p a
unfolding parse_grpc_endpoint
parse_endpoint-IsAddress e p a h = elim (Option-cases (strip_prefix "/" e)) [
  | inl n ↦ scheme_endpoint-IsAddress _ _ p a (rw n at h)
  | inr (r, q) ↦
      let g = rw q at h in
      inr (
        r,
        sym (ap (λ o. (parsed o).0) g),
        sym (ap (λ o. (parsed o).1) g) ∙ strip_prefix_sound "/" e r q,
      )
]

-- What an endpoint is parsed to is a fixed point of the parse: the endpoint that the driver makes of
-- the protocol and the address is parsed to the same protocol and address.
pub parse-endpoint_address :
    (e p a : String)
    → parse_grpc_endpoint e ≡ some (ok (p, a))
    → parse_grpc_endpoint (endpoint_address p a) ≡ some (ok (p, a))
parse-endpoint_address e p a h = address-parse_endpoint p a (parse_endpoint-IsAddress e p a h)

unix_endpoint-panics : (s : String) → unix_endpoint (unix_address s) ≡ none → s ≡ ""
unix_endpoint-panics String.[] h = refl
unix_endpoint-panics (String.◌∷◌ c s) h = cc

tcp_endpoint-answers : (o : Option String) → ¬ (tcp_endpoint o ≡ none)
tcp_endpoint-answers none h = cc
tcp_endpoint-answers (some s) h = cc

panics-lone_scheme : (e : String) → parse_grpc_endpoint e ≡ none → e ≡ "unix://"
unfolding parse_grpc_endpoint
panics-lone_scheme e h = elim (Option-cases (strip_prefix "/" e)) [
  | inr (r, q) ↦ cc (rw q at h)
  | inl n ↦
      let g = rw n at h in
      elim (Option-cases (strip_prefix "unix://" e)) [
        | inl m ↦ absurd (tcp_endpoint-answers _ (rw m at g))
        | inr (r, q) ↦
            let k = unix_endpoint-panics r (rw q at g) in
            strip_prefix_sound "unix://" e r q ∙ ap (λ t. "unix://" <> t) k
      ]
]

-- The parse of an endpoint panics exactly on the endpoint "unix://".
pub parse_grpc_endpoint-panics_iff : (e : String) → (parse_grpc_endpoint e ≡ none) ↔ (e ≡ "unix://")
unfolding parse_grpc_endpoint strip_prefix
parse_grpc_endpoint-panics_iff e = (panics-lone_scheme e, λ h. rw h refl)
