-- ===== src/Api/Auth/Tests.antt =====
-- A login and a request with its cookie.
use docsiq.Prelude.{◌≡◌, ◌≢◌, ◌↔◌, ◌⊎◌, refl, true, false, [], none, some}
use docsiq.Prelude.Text.{Bytes, codes, cut_prefix}
use docsiq.Prelude.Space.{trim_space}
use docsiq.Api.{Request}
use docsiq.Api.Auth.{
  next, unauthorized, bearer, bearer_auth_middleware, set_cookie, new_session_handler,
}
use docsiq.Api.Auth.Laws.{is_open, Presents, bearer_auth_middleware_lem, login-cookie_spaced}

abbrev login : Bytes → Request
login header = record {
  method = codes "POST";
  path = codes "/api/session";
  authorization = header;
  session_cookie = none;
  project_query = [];
  project_header = [];
}

abbrev stats : Bytes → Request
stats cookie = record {
  method = codes "GET";
  path = codes "/api/stats";
  authorization = [];
  session_cookie = some cookie;
  project_query = [];
  project_header = [];
}

abbrev key : Bytes
key = codes "k1"

abbrev spaced : Bytes
spaced = codes " k1"

key-ne-nil : key ≢ []
key-ne-nil = λ e. cc

key_trimmed : trim_space key ≡ key
unfolding trim_space
key_trimmed = refl

spaced_trimmed : trim_space spaced ≡ key
unfolding trim_space
spaced_trimmed = refl

logs_in : new_session_handler key (login (codes "Bearer k1")) ≡ set_cookie key
unfolding new_session_handler trim_space
logs_in = refl

logs_in_spaced : new_session_handler spaced (login (codes "Bearer  k1")) ≡ set_cookie spaced
unfolding new_session_handler trim_space
logs_in_spaced = refl

no_bearer : cut_prefix bearer (trim_space []) ≡ none
unfolding trim_space
no_bearer = refl

stats_gated : is_open (stats spaced) ≡ false
stats_gated = refl

bearer_auth_middleware_lem_example :
    (bearer_auth_middleware key (stats key) ≡ next)
    ↔ ((is_open (stats key) ≡ true) ⊎ Presents (stats key) key)
bearer_auth_middleware_lem_example = bearer_auth_middleware_lem key (stats key) key-ne-nil

login-cookie_spaced_example : bearer_auth_middleware spaced (stats spaced) ≡ unauthorized
login-cookie_spaced_example =
    login-cookie_spaced spaced (login (codes "Bearer  k1")) (stats spaced)
      (λ e. cc (spaced_trimmed, e)) logs_in_spaced no_bearer refl stats_gated
