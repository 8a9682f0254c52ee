-- ===== src/Graylog/Requests/Client.antt =====
-- What is logged of a request, graylog/mux.go.
use zackup.Base.{
  ℕ, false, ◌==◌, some, List, [], ◌∷◌, ◌++◌, Str, codes, str_eq, has_prefix, contains_rune, ◌≡◌,
  refl, ◌∙◌, ap, arith, inl, inr, ◌⊎◌, append_assoc, append-nil,
}
use zackup.Graylog.Requests.{
  Request, first_part, real_ip, Write, header, body, StatusCapture, write, serve, middleware,
}

-- A text without a comma before the separator is the first part.
first_part-append :
    (client rest : Str)
    → contains_rune client b',' ≡ false
    → first_part (codes ", ") (client ++ (codes ", " ++ rest)) ≡ client
unfolding first_part has_prefix
first_part-append [] rest h = refl
first_part-append (c ∷ client) rest h =
    let other : (c == b',') ≡ false = ground arith in
    rw other (ap (λ s. c ∷ s) (first_part-append client rest (ground arith)))

first_part-whole :
    (client : Str) → contains_rune client b',' ≡ false → first_part (codes ", ") client ≡ client
unfolding first_part has_prefix
first_part-whole [] h = refl
first_part-whole (c ∷ client) h =
    let other : (c == b',') ≡ false = ground arith in
    rw other (ap (λ s. c ∷ s) (first_part-whole client (ground arith)))

-- The last status that is written, or the one before.
abbrev pub last_status : List Write → ℕ → ℕ
last_status [] code = code
last_status (header c ∷ ws) code = last_status ws c
last_status (body b ∷ ws) code = last_status ws code

abbrev pub reversed : List Write → List Write
reversed [] = []
reversed (w ∷ ws) = reversed ws ++ (w ∷ [])

serve_lem :
    (ws : List Write) (lw : StatusCapture)
    → (serve ws lw ≡ record {
      wrapped = reversed ws ++ lw.wrapped;
      status_code = last_status ws lw.status_code;
    })
unfolding serve
serve_lem [] lw = refl
serve_lem (header c ∷ ws) lw =
    serve_lem ws (write (header c) lw) ∙ rw (append_assoc (reversed ws) (header c ∷ []) lw.wrapped)
serve_lem (body b ∷ ws) lw =
    serve_lem ws (write (body b) lw) ∙ rw (append_assoc (reversed ws) (body b ∷ []) lw.wrapped)

-- Behind proxies, where the first address that the header X-Forwarded-For names is a text without a
-- comma, that is not empty, and others may follow: the line that is logged has this address; its
-- status is the last one that the handler wrote, or 200; and the writer gets all that was written.
pub middleware_lem :
    (host_of : Str → Str) (writes : List Write) (req : Request) (c : ℕ) (client rest : Str)
    → contains_rune (c ∷ client) b',' ≡ false
    → (req.forwarded_for ≡ c ∷ client) ⊎ (req.forwarded_for ≡ (c ∷ client) ++ (codes ", " ++ rest))
    → ((middleware host_of writes req).0.remote ≡ some (c ∷ client))
      × ((middleware host_of writes req).0.status_code ≡ last_status writes 200)
      × ((middleware host_of writes req).1 ≡ reversed writes)
unfolding middleware real_ip str_eq
middleware_lem host_of writes req c client rest no_comma named =
    let served = serve_lem writes (record { wrapped = []; status_code = 200 }) in
    let first : real_ip host_of req ≡ c ∷ client = elim named [
      | inl whole ↦ rw whole (first_part-whole (c ∷ client) no_comma)
      | inr more ↦ rw more (first_part-append (c ∷ client) rest no_comma)
    ] in
    (
      rw first,
      ap (λ (lw : StatusCapture). lw.status_code) served,
      ap (λ (lw : StatusCapture). lw.wrapped) served ∙ append-nil (reversed writes),
    )
