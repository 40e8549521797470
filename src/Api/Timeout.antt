-- ===== src/Api/Timeout.antt =====
-- internal/api/request_timeout.go: which requests run under a time limit.
use docsiq.Prelude.{
  ◌≡◌, refl, Bool, true, false, ◌&&◌, ◌||◌, not, List, [], ◌∷◌, if◌then◌else◌, arith,
}
use docsiq.Prelude.Int.{ℤ, pos}
use docsiq.Prelude.{ℕ, zero, suc, ltb}
use docsiq.Prelude.Text.{Bytes, codes, bytes_eq, bytes_eq_iff, has_prefix, has_suffix}
use docsiq.Api.{Request}
mod Tests

unfoldable pub is_upload_route : Request → Bool
is_upload_route r =
    if not (bytes_eq r.method (codes "POST"))
    then false
    else bytes_eq r.path (codes "/api/upload")
      || (has_prefix r.path (codes "/api/projects/") && has_suffix r.path (codes "/import"))

unfoldable pub is_streaming_route : Request → Bool
is_streaming_route r =
    if not (bytes_eq r.method (codes "GET"))
    then false
    else bytes_eq r.path (codes "/api/upload/progress") || bytes_eq r.path (codes "/mcp")

-- The inner handler as it is, or in `http.TimeoutHandler` with a duration in nanoseconds.
pub data Wrapped : Type 0 where
  inner : Wrapped
  timeout_handler : ℕ → Wrapped

abbrev pub wrap : ℤ → Wrapped
wrap (pos n) = if ltb 0 n then timeout_handler n else inner
wrap _ = inner

unfoldable pub request_timeout_middleware : ℤ → ℤ → Request → Wrapped
request_timeout_middleware request_timeout upload_timeout r =
    if is_streaming_route r
    then inner
    else if is_upload_route r
    then wrap upload_timeout
    else wrap request_timeout

-- An upload runs under the upload limit and no other: no upload is a stream.
pub request_timeout_middleware-upload :
    (request_timeout upload_timeout : ℤ) (r : Request)
    → is_upload_route r ≡ true
    → (is_streaming_route r ≡ false)
      × (request_timeout_middleware request_timeout upload_timeout r ≡ wrap upload_timeout)
unfolding is_upload_route is_streaming_route request_timeout_middleware
request_timeout_middleware-upload a b r h =
    ground (arith, bytes_eq_iff r.method (codes "POST"), bytes_eq_iff r.method (codes "GET"))
