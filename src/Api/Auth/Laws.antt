-- ===== src/Api/Auth/Laws.antt =====
-- Who passes the bearer middleware, and what a session cookie is good for.
use mathlib.Core.Path.{subst}
use docsiq.Prelude.{
  sym, ap, ◌∙◌, ◌≡◌, ◌≢◌, ◌↔◌, ◌⊎◌, inl, inr, refl, Bool, true, false, ◌||◌, not, none, some, List,
  [], ◌∷◌, ◌++◌, any, arith, Option-cases,
}
use docsiq.Prelude.Text.{
  Bytes, codes, bytes_eq, bytes_eq_iff, cut_prefix, cut_prefix_split, cut_prefix-append, has_prefix,
  has_prefix-append,
}
use docsiq.Prelude.Space.{trim_space}
use docsiq.Api.{Request}
use docsiq.Api.Auth.{
  Gate, next, unauthorized, is_probe, bearer, extract_token, bearer_auth_middleware, set_cookie,
  new_session_handler,
}

-- The paths under no key: the probes and the session endpoint.
abbrev pub open_paths : List Bytes
open_paths =
    codes "/health"
    ∷ codes "/healthz"
    ∷ codes "/readyz"
    ∷ codes "/metrics"
    ∷ codes "/api/version"
    ∷ codes "/api/session"
    ∷ []

-- A request that needs no key: a preflight, or one to a path that is not under `/api/` or `/mcp`,
-- or is among those.
abbrev pub is_open : Request → Bool
is_open r =
    bytes_eq r.method (codes "OPTIONS")
    || (not (has_prefix r.path (codes "/api/") || has_prefix r.path (codes "/mcp"))
        || any (bytes_eq r.path) open_paths)

-- A request brings a key: its header is "Bearer " and the key, up to white space at the header's
-- ends, or the header does not begin with "Bearer " and the session cookie is the key, up to white
-- space at the cookie's ends.
abbrev pub Presents : Request → Bytes → Type 0
Presents r key =
    (trim_space r.authorization ≡ codes "Bearer " ++ key)
    ⊎ ((has_prefix (trim_space r.authorization) (codes "Bearer ") ≡ false)
        × ((v : Bytes) × (r.session_cookie ≡ some v) × (trim_space v ≡ key)))

or_chain :
    (a b c d e f : Bool)
    → (a || (b || (c || (d || e)))) || f ≡ a || (b || (c || (d || (e || (f || false)))))
or_chain true b c d e f = refl
or_chain false true c d e f = refl
or_chain false false true d e f = refl
or_chain false false false true e f = refl
or_chain false false false false true f = refl
or_chain false false false false false true = refl
or_chain false false false false false false = refl

is_probe-any :
    (path : Bytes)
    → is_probe path || bytes_eq path (codes "/api/session") ≡ any (bytes_eq path) open_paths
unfolding is_probe
is_probe-any path =
    or_chain (bytes_eq path (codes "/health")) (bytes_eq path (codes "/healthz"))
      (bytes_eq path (codes "/readyz")) (bytes_eq path (codes "/metrics"))
      (bytes_eq path (codes "/api/version")) (bytes_eq path (codes "/api/session"))

-- The same by the code's own test of the probes.
abbrev skips_key : Request → Bool
skips_key r =
    bytes_eq r.method (codes "OPTIONS")
    || (not (has_prefix r.path (codes "/api/") || has_prefix r.path (codes "/mcp"))
        || (is_probe r.path || bytes_eq r.path (codes "/api/session")))

is_open_lem : (r : Request) → skips_key r ≡ is_open r
is_open_lem r =
    ap
      (λ b.
        bytes_eq r.method (codes "OPTIONS")
        || (not (has_prefix r.path (codes "/api/") || has_prefix r.path (codes "/mcp")) || b))
      (is_probe-any r.path)

gate_skips :
    (api_key : Bytes) (r : Request)
    → api_key ≢ []
    → (bearer_auth_middleware api_key r ≡ next)
      ↔ ((skips_key r ≡ true) ⊎ (extract_token r ≡ api_key))
unfolding bearer_auth_middleware
gate_skips api_key r n = ground (
  arith,
  bytes_eq_iff api_key [],
  bytes_eq_iff (extract_token r) [],
  bytes_eq_iff (extract_token r) api_key,
)

gate_token :
    (api_key : Bytes) (r : Request)
    → api_key ≢ []
    → (bearer_auth_middleware api_key r ≡ next) ↔ ((is_open r ≡ true) ⊎ (extract_token r ≡ api_key))
gate_token api_key r n =
    subst
      (λ b. (bearer_auth_middleware api_key r ≡ next) ↔ ((b ≡ true) ⊎ (extract_token r ≡ api_key)))
      (is_open_lem r) (gate_skips api_key r n)

no_prefix :
    (r : Request) (key : Bytes)
    → cut_prefix bearer (trim_space r.authorization) ≡ none
    → trim_space r.authorization ≡ bearer ++ key
    → ⊥
no_prefix r key e h =
    let p = has_prefix-append bearer key in
    cc (e, ap (λ s. cut_prefix bearer s) h, cut_prefix-append bearer key)

cookie_presents :
    (r : Request) (key : Bytes)
    → key ≢ []
    → cut_prefix bearer (trim_space r.authorization) ≡ none
    → (extract_token r ≡ key) ↔ ((v : Bytes) × (r.session_cookie ≡ some v) × (trim_space v ≡ key))
unfolding extract_token
cookie_presents r key n e = elim (Option-cases r.session_cookie) [
  | inl f ↦ ((λ h. absurd (n (sym (rw (e, f, extract_token) at h)))), λ (v, g, h). cc)
  | inr (w, f) ↦ rw (e, f, extract_token) ((λ h. (w, refl, h)), λ (v, g, h). cc)
]

header_presents :
    (r : Request) (key : Bytes) {token : Bytes}
    → cut_prefix bearer (trim_space r.authorization) ≡ some token
    → (extract_token r ≡ key) ↔ (trim_space r.authorization ≡ codes "Bearer " ++ key)
unfolding extract_token
header_presents r key {token} e =
    let s : trim_space r.authorization ≡ bearer ++ token =
      cut_prefix_split bearer (trim_space r.authorization) e in
    rw (e, extract_token) ((λ h. rw h at s), λ h. cc)

-- The token of a request is a key, not empty, if and only if the request brings it.
token-Presents : (r : Request) (key : Bytes) → key ≢ [] → (extract_token r ≡ key) ↔ Presents r key
token-Presents r key n = elim (Option-cases (cut_prefix bearer (trim_space r.authorization))) [
  | inl e ↦
      let (a, b) = cookie_presents r key n e in
      (
        (λ h. inr (rw (e, has_prefix) refl, a h)),
        λ p. elim p [ inl q ↦ absurd (no_prefix r key e q) | inr q ↦ b q.1 ],
      )
  | inr (token, e) ↦
      let (a, b) = header_presents r key e in
      ((λ h. inl (a h)), λ p. elim p [ inl q ↦ b q | inr q ↦ cc (rw (e, has_prefix) at q.0) ])
]

-- With a key configured, a request reaches the next handler if and only if it needs no key or brings
-- the key, in its header or else in its cookie.
pub bearer_auth_middleware_lem :
    (api_key : Bytes) (r : Request)
    → api_key ≢ []
    → (bearer_auth_middleware api_key r ≡ next) ↔ ((is_open r ≡ true) ⊎ Presents r api_key)
bearer_auth_middleware_lem api_key r n =
    let (a, b) = gate_token api_key r n in
    let (c, d) = token-Presents r api_key n in
    (
      (λ h. elim (a h) [ inl o ↦ inl o | inr t ↦ inr (c t) ]),
      λ h. b (elim h [ inl o ↦ inl o | inr p ↦ inr (d p) ]),
    )

gate-cases : (g : Gate) → (g ≡ next) ⊎ (g ≡ unauthorized)
gate-cases next = inl refl
gate-cases unauthorized = inr refl

logged_in :
    (api_key : Bytes) (login : Request) {value : Bytes}
    → new_session_handler api_key login ≡ set_cookie value
    → (value ≡ api_key) × (api_key ≢ [])
unfolding new_session_handler
logged_in api_key login {value} h =
    elim (Option-cases (cut_prefix bearer (trim_space login.authorization))) [
      | inl e ↦ absurd (ground arith)
      | inr (token, e) ↦ ground (arith, bytes_eq_iff api_key [])
    ]

cookie_token :
    (r : Request) (value : Bytes)
    → cut_prefix bearer (trim_space r.authorization) ≡ none
    → r.session_cookie ≡ some value
    → extract_token r ≡ trim_space value
unfolding extract_token
cookie_token r value h k = rw (h, k, extract_token) refl

-- After a login that set a cookie, a request that brings the cookie back and has no bearer token of
-- its own reaches the next handler, provided that the key has no white space at its ends.
pub login-cookie :
    (api_key : Bytes) (login r : Request) {value : Bytes}
    → trim_space api_key ≡ api_key
    → new_session_handler api_key login ≡ set_cookie value
    → cut_prefix bearer (trim_space r.authorization) ≡ none
    → r.session_cookie ≡ some value
    → bearer_auth_middleware api_key r ≡ next
login-cookie api_key login r {value} t h b c =
    let (e, n) = logged_in api_key login {value = value} h in
    (gate_token api_key r n).1 (inr (cookie_token r value b c ∙ ap trim_space e ∙ t))

-- With a key that has white space at an end, the cookie of a login that succeeded is refused by
-- every request that needs a key and has no bearer token of its own.
pub login-cookie_spaced :
    (api_key : Bytes) (login r : Request) {value : Bytes}
    → trim_space api_key ≢ api_key
    → new_session_handler api_key login ≡ set_cookie value
    → cut_prefix bearer (trim_space r.authorization) ≡ none
    → r.session_cookie ≡ some value
    → is_open r ≡ false
    → bearer_auth_middleware api_key r ≡ unauthorized
login-cookie_spaced api_key login r {value} t h b c o =
    let (e, n) = logged_in api_key login {value = value} h in
    elim (gate-cases (bearer_auth_middleware api_key r)) [
      | inr u ↦ u
      | inl g ↦ elim ((gate_token api_key r n).0 g) [
        | inl p ↦ cc
        | inr p ↦ absurd (t (sym (ap trim_space e) ∙ sym (cookie_token r value b c) ∙ p))
      ]
    ]
