-- ===== src/Api/Auth.antt =====
-- internal/api/auth.go and internal/api/session.go: the bearer key and the session cookie.
use docsiq.Prelude.{
  ◌≡◌, refl, Bool, true, false, ◌&&◌, ◌||◌, not, Option, none, some, List, [], ◌∷◌, any,
  if◌then◌else◌,
}
use docsiq.Prelude.Text.{Bytes, codes, bytes_eq, cut_prefix, has_prefix}
use docsiq.Prelude.Space.{trim_space}
use docsiq.Api.{Request}
pub mod Laws
mod Tests

-- The request goes on to the next handler, or is answered with `writeJSON401`.
pub data Gate : Type 0 where
  next unauthorized : Gate

-- The paths of the switch.
unfoldable pub is_probe : Bytes → Bool
is_probe path =
    bytes_eq path (codes "/health")
    || (bytes_eq path (codes "/healthz")
        || (bytes_eq path (codes "/readyz")
            || (bytes_eq path (codes "/metrics") || bytes_eq path (codes "/api/version"))))

abbrev pub bearer : Bytes
bearer = codes "Bearer "

-- `constant_time_compare` is 1 exactly on equal slices.
unfoldable pub extract_token : Request → Bytes
extract_token r = elim (cut_prefix bearer (trim_space r.authorization)) [
  | some token ↦ token
  | none ↦ elim r.session_cookie [ none ↦ [] | some v ↦ trim_space v ]
]

unfoldable pub bearer_auth_middleware : Bytes → Request → Gate
bearer_auth_middleware api_key r =
    if bytes_eq api_key []
    then next
    else if bytes_eq r.method (codes "OPTIONS")
    then next
    else if is_probe r.path
    then next
    else if not (has_prefix r.path (codes "/api/")) && not (has_prefix r.path (codes "/mcp"))
    then next
    else if bytes_eq r.path (codes "/api/session")
    then next
    else if bytes_eq api_key []
    then unauthorized
    else if bytes_eq (extract_token r) []
    then unauthorized
    else if not (bytes_eq (extract_token r) api_key)
    then unauthorized
    else next

-- What the session handlers answer: 405, 401, or 204 with the cookie's value, or with the cookie
-- cleared (`MaxAge` -1).
pub data Session : Type 0 where
  method_not_allowed refused : Session
  set_cookie : Bytes → Session
  clear_cookie : Session

unfoldable pub new_session_handler : Bytes → Request → Session
new_session_handler api_key r =
    if not (bytes_eq r.method (codes "POST"))
    then method_not_allowed
    else elim (cut_prefix bearer (trim_space r.authorization)) [
      | none ↦ refused
      | some token ↦
          if bytes_eq api_key [] || not (bytes_eq token api_key)
          then refused
          else set_cookie api_key
    ]

unfoldable pub new_session_delete_handler : Request → Session
new_session_delete_handler r =
    if not (bytes_eq r.method (codes "DELETE")) then method_not_allowed else clear_cookie
