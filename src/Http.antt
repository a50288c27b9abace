-- ===== src/Http.antt =====
-- Requests and responses of src/platform/http_server.h.
use homedeck.Base.{ℕ, Option, List, [], ◌++◌}
use homedeck.Base.Text.{codes}

pub record HttpRequest : Type 0 where
  pub path : List ℕ
  pub query : List ℕ
  pub body : List ℕ
  pub cookie_header : Option (List ℕ)

pub record HttpResponse : Type 0 where
  pub status_code : ℕ
  pub content_type : List ℕ
  pub body : List ℕ
  pub extra_headers : List (List ℕ × List ℕ)

-- A JSON response with no further headers.
unfoldable pub json_response : ℕ → List ℕ → HttpResponse
json_response status body = record {
  status_code = status;
  content_type = codes "application/json";
  body = body;
  extra_headers = [];
}

abbrev pub error_response : ℕ → List ℕ → HttpResponse
error_response status name = json_response status (codes "{\"error\":\"" ++ (name ++ codes "\"}"))
