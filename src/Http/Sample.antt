-- ===== src/Http/Sample.antt =====
-- A sample request to the server of pkg/api/httpserver/server.go.
use Prim.Native.String.{String}
use final_weave.Prelude.{false, ℕ, [], ◌∷◌, pos}
use final_weave.Http.Pipeline.{Exchange, empty}

-- "a1" as the ID.
abbrev pub request : String → ℕ → Exchange
request path body_length = record {
  id_header = b'a' ∷ b'1' ∷ [];
  method = "GET";
  path = path;
  route_path = "";
  content_length = pos 0;
  body_length = body_length;
  status = 200;
  body = empty;
  response_id = [];
  cache_control = "";
  content_type_options = "";
  context_id = [];
  root_done = false;
  context_done = false;
  sequence = 0;
  log = [];
}
