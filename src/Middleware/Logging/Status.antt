-- ===== src/Middleware/Logging/Status.antt =====
-- The status in the log, and the one that is sent.
use mathlib.Core.List.{append-nil, append_assoc}
use evm_rpc.Prelude.{ℕ, ◌-◌, ◌≡◌, refl, ◌∙◌, sym, ap, true, List, [], ◌∷◌, ◌++◌, ltb, if◌then◌else◌}
use evm_rpc.Middleware.Logging.{
  Call, header, body, ResponseWriter, new_response_writer, write_header, write, serve, incoming,
  completed, slow, Requested, log_served,
}

-- The calls of `Write`; further statuses are dropped.
abbrev pub bodies : List Call → List Call
bodies [] = []
bodies (header _ ∷ calls) = bodies calls
bodies (body b ∷ calls) = body b ∷ bodies calls

-- The first status that a handler gives, or 200 before its first byte and where it writes nothing.
abbrev pub first_status : List Call → ℕ
first_status [] = 200
first_status (header code ∷ calls) = code
first_status (body b ∷ calls) = 200

-- A status line before the bytes, unless nothing is written at all.
abbrev pub one_header : List Call → List Call
one_header [] = []
one_header (c ∷ calls) = header (first_status (c ∷ calls)) ∷ bodies (c ∷ calls)

abbrev begun : ℕ → List Call → ResponseWriter
begun code sent = record { status_code = code; written = true; sent = sent }

-- After the first call only bytes pass.
serve-begun :
    (code : ℕ) (calls sent : List Call)
    → serve calls (begun code sent) ≡ begun code (sent ++ bodies calls)
unfolding serve write_header write
serve-begun code [] sent = ap (begun code) (sym (append-nil sent))
serve-begun code (header _ ∷ calls) sent = serve-begun code calls sent
serve-begun code (body b ∷ calls) sent =
    serve-begun code calls (sent ++ body b ∷ [])
    ∙ ap (begun code) (append_assoc sent (body b ∷ []) (bodies calls))

serve-new :
    (c : Call) (calls : List Call)
    → serve (c ∷ calls) new_response_writer
      ≡ begun (first_status (c ∷ calls)) (one_header (c ∷ calls))
unfolding serve write_header write
serve-new (header code) calls = serve-begun code calls (header code ∷ [])
serve-new (body b) calls = serve-begun 200 calls (header 200 ∷ body b ∷ [])

-- Whatever a handler calls, its bytes are passed on in order behind one status line, the first that it
-- gives or 200 where bytes come first, and without any call nothing is; and the log has one line for
-- the request, one with that status and the duration, and a third exactly if the duration is above the
-- threshold.
pub log_served_lem :
    (threshold start end : ℕ) (r : Requested) (calls : List Call)
    → ((log_served threshold start end r calls).1.sent ≡ one_header calls)
      × ((log_served threshold start end r calls).0
          ≡ incoming r.method r.path r.remote
            ∷ completed r.method r.path (first_status calls) (end - start)
            ∷ (if ltb threshold (end - start) then slow r.method r.path (end - start) ∷ [] else []))
unfolding log_served serve
log_served_lem threshold start end r [] = (refl, refl)
log_served_lem threshold start end r (c ∷ calls) = (rw (serve-new c calls), rw (serve-new c calls))
