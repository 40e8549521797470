-- ===== src/Api/Timeout/Tests.antt =====
-- An upload.
use docsiq.Prelude.{◌≡◌, refl, true, [], none}
use docsiq.Prelude.Text.{codes}
use docsiq.Api.{Request}
use docsiq.Api.Timeout.{is_upload_route}

abbrev upload : Request
upload = record {
  method = codes "POST";
  path = codes "/api/upload";
  authorization = [];
  session_cookie = none;
  project_query = [];
  project_header = [];
}

upload_route : is_upload_route upload ≡ true
unfolding is_upload_route
upload_route = refl
