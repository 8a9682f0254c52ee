-- ===== src/Tests/Logs.antt =====
-- graylog/graylog.go and graylog/mux.go at concrete calls.
use zackup.Base.{Option, none, some, List, [], ◌∷◌, Str, codes, str_eq, if◌then◌else◌, ◌≡◌, refl}
use zackup.Graylog.{
  Level, new_middleware, Call, level, endpoint, calls, call, set_level, set_endpoint,
}
use zackup.Graylog.Calls.{Called, calls_lem, last_address, last_level}
use zackup.Graylog.Requests.{Request, Write, header, body}

abbrev parse : Str → Option Level
parse s = if str_eq s (codes "info") then some 4 else none

abbrev some_calls : List Call
some_calls =
    endpoint (codes "log:12201") ∷ level (codes "info") ∷ endpoint [] ∷ level (codes "loud") ∷ []

calls-some_calls :
    (calls parse some_calls (new_middleware (codes "zackup"))).0.hook ≡ some (codes "log:12201")
unfolding calls call set_level set_endpoint str_eq
calls-some_calls = refl

calls_lem_example :
    Called
      (last_address some_calls none)
      (last_level parse some_calls 0)
      (new_middleware (codes "zackup"))
      (calls parse some_calls (new_middleware (codes "zackup")))
calls_lem_example = calls_lem parse some_calls (codes "zackup")

abbrev behind_proxy : Request
behind_proxy = record {
  remote_addr = codes "127.0.0.1:4711";
  forwarded_for = codes "192.0.2.1, 10.0.0.1";
  real_ip_header = [];
  request_id = [];
}

abbrev not_found : List Write
not_found = header 404 ∷ body (codes "no page") ∷ []
