-- ===== src/Api.antt =====
-- internal/api: the request as the middlewares read it, and the layers around the handlers.
use docsiq.Prelude.{Option}
use docsiq.Prelude.Text.{Bytes}
pub mod Auth
pub mod Indexes
pub mod Stores
pub mod Timeout
pub mod Scope

-- What package net/http gives of a request: the method, `URL.Path`, the header Authorization, the
-- value of the cookie `docsiq_session`, the query parameter `project` and the header X-Project (an
-- absent parameter or header reads as the empty text).
pub record Request : Type 0 where
  pub method : Bytes
  pub path : Bytes
  pub authorization : Bytes
  pub session_cookie : Option Bytes
  pub project_query : Bytes
  pub project_header : Bytes
