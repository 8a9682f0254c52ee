-- ===== src/Graylog/Requests.antt =====
-- graylog/mux.go: the address of a client, and the status of a response. A header that is not there
-- is empty, as `Header.Get` gives it.
pub mod Client
use zackup.Base.{
  ℕ, Bool, true, false, Option, none, some, List, [], ◌∷◌, Str, codes, str_eq, has_prefix,
  if◌then◌else◌,
}

pub record Request : Type 0 where
  pub remote_addr : Str
  pub forwarded_for : Str
  pub real_ip_header : Str
  pub request_id : Str

-- `strings.Split(s, sep)[0]`
unfoldable pub first_part : Str → Str → Str
unfolding has_prefix
first_part sep [] = []
first_part sep (c ∷ s) =
    let rest = c ∷ first_part sep s in if has_prefix (c ∷ s) sep then [] else rest

-- `realIP`; `host_of` is the host that `net.SplitHostPort` gives.
unfoldable pub real_ip : (Str → Str) → Request → Str
unfolding str_eq first_part
real_ip host_of req =
    if str_eq req.forwarded_for []
    then (if str_eq req.real_ip_header [] then host_of req.remote_addr else req.real_ip_header)
    else first_part (codes ", ") req.forwarded_for

-- What a handler does with the writer, and what the writer that is wrapped gets.
pub data Write : Type 0 where
  header : ℕ → Write
  body : Str → Write

pub record StatusCapture : Type 0 where
  pub wrapped : List Write
  pub status_code : ℕ

-- `(*statusCapture).WriteHeader` and `(*statusCapture).Write`
abbrev pub write : Write → StatusCapture → StatusCapture
write (header code) lw = record { wrapped = header code ∷ lw.wrapped; status_code = code }
write (body b) lw = record lw { wrapped = body b ∷ lw.wrapped }

-- The writes of the handler, one after the other. The last one is the first of `wrapped`.
unfoldable pub serve : List Write → StatusCapture → StatusCapture
serve [] lw = lw
serve (w ∷ ws) lw = serve ws (write w lw)

abbrev field_unless_empty : Str → Option Str
field_unless_empty s = if str_eq s [] then none else some s

-- The fields of the line that is logged; the duration is left out.
pub record Fields : Type 0 where
  pub request_id : Option Str
  pub remote : Option Str
  pub status_code : ℕ

-- `(*muxLogger).middleware`, for a handler that makes these writes: the line that is logged and what
-- goes to the writer
unfoldable pub middleware : (Str → Str) → List Write → Request → Fields × List Write
unfolding serve real_ip str_eq
middleware host_of writes req =
    let lw = serve writes (record { wrapped = []; status_code = 200 }) in
    (
      record {
        request_id = field_unless_empty req.request_id;
        remote = field_unless_empty (real_ip host_of req);
        status_code = lw.status_code;
      },
      lw.wrapped,
    )
