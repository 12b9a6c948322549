-- ===== src/Api/Serve/Refused.antt =====
-- Requests of internal/api/handler.go for the route /resolve that do not present the shared secret.
use mathlib.Core.Path.{subst}
use consent_owner_resolver.Prelude.{
  ℕ, ◌≡◌, ◌≢◌, inl, inr, refl, sym, ap, ◌∙◌, Option, none, some, List, [], ◌++◌, Bytes, str, ◌==◌,
  eq_refl, eqb, Bool-cases, if◌then◌else◌, Result, ok,
}
use consent_owner_resolver.Prelude.Int.{ℤ}
use consent_owner_resolver.Go.Library.{Attempt, done, failed}
use consent_owner_resolver.Api.Floats.{Floats}
use consent_owner_resolver.Api.Metrics.{observe}
use consent_owner_resolver.Api.RequestId.{request_id, with_request_id}
use consent_owner_resolver.Api.Handler.{
  bearer_prefix, HttpRequest, Decoding, Payload, Reply, Handler, Shared,
}
use consent_owner_resolver.Api.Handler.Laws.{refused_status, handle_resolve_refused}
use consent_owner_resolver.Api.Serve.{
  ResponseWriter, StatusRecorder, Arrival, write, logged, encoded, write_json, challenged, reply,
  counted, instrument, serve_resolve, dispatch, named_route, serve, route_resolve,
  request_id_header,
}
use consent_owner_resolver.Api.Serve.Statuses.{IsStatus, counted_status, write_json-status}
use consent_owner_resolver.Api.Serve.Sent.{
  IsHonest, final_status, AsSent, challenged-new, write_json-AsSent,
}

abbrev not_written : Bytes
not_written = str "[owner-resolver] write response: "

refused_status-IsStatus : (q : HttpRequest) → IsStatus (refused_status q)
refused_status-IsStatus q = elim (Bool-cases (q.method == str "POST")) [
  | inl post ↦ rw post (inr (inr (inl refl)))
  | inr other ↦ rw other (inr (inr (inr (inl refl))))
]

module _ {W S Fl : Type 0} (writer : ResponseWriter W) (sent : W → ℕ) where
  -- The answer to a request that is refused: the state of the resolver and the counted failures stay,
  -- the response is counted under its status, which is the one on the wire, and a line is logged only
  -- if the response cannot be written.
  pub record IsRefused (fl : Floats Fl) (a : Arrival W) (s : Shared S Fl)
      (r : Result W × Shared S Fl) : Type 0 where
    pub response : W
    pub failure : Option Bytes
    pub answered : r ≡ (
      ok response,
      logged writer not_written failure (record s {
        metrics = observe fl route_resolve (refused_status a.request) a.elapsed s.metrics;
      }),
    )
    pub status : final_status writer sent response ≡ refused_status a.request

  logged-record :
      (o : Option Bytes) (fl : Floats Fl) (n : ℕ) (elapsed : ℤ) (s : Shared S Fl)
      → record (logged writer not_written o s) {
        metrics = observe fl route_resolve n elapsed (logged writer not_written o s).metrics;
      }
        ≡ logged writer not_written o
            (record s { metrics = observe fl route_resolve n elapsed s.metrics })
  unfolding logged
  logged-record none fl n elapsed s = refl
  logged-record (some e) fl n elapsed s = refl

  module _ (honest : IsHonest writer sent) (encode : Payload → Attempt Bytes)
      (quote : Bytes → Bytes) (fl : Floats Fl) where
    encoded-logged :
        (o : Attempt Bytes) (r : StatusRecorder W) (s : Shared S Fl)
        → (failure : Option Bytes) × ((encoded writer encode o r s).1
            ≡ logged writer not_written failure s)
    unfolding encoded
    encoded-logged (failed why) r s = (some why, refl)
    encoded-logged (done b) r s = ((write writer b r).0, refl)

    write_json-logged :
        (n : ℕ) (v : Payload) (r : StatusRecorder W) (s : Shared S Fl)
        → (failure : Option Bytes) × ((write_json writer encode n v r s).1
            ≡ logged writer not_written failure s)
    unfolding write_json
    write_json-logged n v r s = encoded-logged (encode v) _ s

    -- A reply with the status of a refusal, written and counted.
    counted-IsRefused :
        (a : Arrival W) (out : Reply) (r : StatusRecorder W) (s : Shared S Fl)
        → sent r.response_writer ≡ 0
        → out.status ≡ refused_status a.request
        → IsRefused fl a s (
            counted writer encode quote fl route_resolve a.elapsed
              (reply writer encode r (ok out, s)))
    unfolding counted reply AsSent
    counted-IsRefused a out r s new status =
        let known = subst IsStatus (sym status) (refused_status-IsStatus a.request) in
        let t = challenged writer out.challenge r in
        let written = write_json writer encode out.status out.payload t s in
        let (failure, same) = write_json-logged out.status out.payload t s in
        let (counts, kept) = write_json-status writer encode out.status out.payload t s known in
        let on_wire =
          write_json-AsSent writer sent honest encode out.status out.payload t s
            (challenged-new writer sent honest out.challenge r new) in
        record {
          response = written.0.response_writer;
          failure = failure;
          answered =
              ap
                (λ u. (
                  ok written.0.response_writer,
                  record u {
                    metrics =
                        observe fl route_resolve (counted_status writer written.0) a.elapsed
                          u.metrics;
                  },
                ))
                same
              ∙ ap
                  (λ n. (
                    ok written.0.response_writer,
                    record (logged writer not_written failure s) {
                      metrics =
                          observe fl route_resolve n a.elapsed
                            (logged writer not_written failure s).metrics;
                    },
                  ))
                  (counts ∙ status)
              ∙ ap (λ u. (ok written.0.response_writer, u))
                  (logged-record failure fl (refused_status a.request) a.elapsed s);
          status = ap (λ n. if eqb n 0 then 200 else n) (sym on_wire) ∙ counts ∙ status;
        }

    module _ (digest : Bytes → Bytes) (decode : ℤ → Bytes → Decoding) (h : Handler S)
        (mux : List Bytes → Bytes → Option Bytes) (otherwise : HttpRequest → W → W) where
      instrument-IsRefused :
          (a : Arrival W) (s : Shared S Fl)
          → sent a.writer ≡ 0
          → h.auth_token ≢ []
          → a.request.authorization ≢ bearer_prefix ++ h.auth_token
          → IsRefused fl a s (
              instrument writer encode quote fl route_resolve
                (serve_resolve writer encode quote fl digest decode h)
                a
                s)
      unfolding instrument serve_resolve
      instrument-IsRefused a s new secret wrong =
          let id = request_id a.random a.request.given_id in
          let q = record a.request { context = with_request_id a.request.context id } in
          let (out, refused, status) =
            handle_resolve_refused quote digest h decode q s secret wrong in
          rw refused
            (counted-IsRefused a out _ s (honest.sets request_id_header id a.writer ∙ new) status)

      -- With a writer that sends a status once, as that of net/http does, and a new response: where a
      -- secret is configured, a request that the multiplexer gives to the route /resolve, and whose header
      -- is not the scheme with the secret behind it, is answered with 401, or with 405 if it is no POST.
      -- It is counted once, under that route and status. The state of the resolver and the counted
      -- failures stay as they are, and a line is logged only if the response cannot be written.
      pub serve-IsRefused :
          (a : Arrival W) (s : Shared S Fl)
          → sent a.writer ≡ 0
          → named_route mux a ≡ some route_resolve
          → h.auth_token ≢ []
          → a.request.authorization ≢ bearer_prefix ++ h.auth_token
          → IsRefused fl a s (serve writer encode quote fl digest decode h mux otherwise a s)
      unfolding serve dispatch
      serve-IsRefused a s new routed secret wrong =
          rw (routed, dispatch, eq_refl route_resolve) (instrument-IsRefused a s new secret wrong)
