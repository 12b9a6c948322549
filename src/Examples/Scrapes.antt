-- ===== src/Examples/Scrapes.antt =====
-- Scrapes of the metrics: a connection that breaks, and a map in two orders.
use consent_owner_resolver.Prelude.{
  ◌≢◌, sym, ◌∙◌, eq_iff, false, ℕ, ◌≡◌, refl, Option, none, some, List, [], ◌∷◌, length, Bytes, str,
  ◌==◌, leb, if◌then◌else◌,
}
use consent_owner_resolver.Prelude.Reordered.{exchange, none_left, find}
use consent_owner_resolver.Api.Metrics.{RequestKey, Metrics, new_metrics, same_key, observe}
use consent_owner_resolver.Prelude.Int.{pos}
use consent_owner_resolver.Api.Serve.{route_resolve, route_health}
use consent_owner_resolver.Api.Metrics.Orders.{
  Event, response, failure, record_events, record_events-exposition,
}
use consent_owner_resolver.Api.Metrics.Abstract.{IsTables, exposition_comm}
use consent_owner_resolver.Api.Metrics.Exposition.{exposition, write_to}
use consent_owner_resolver.Api.Metrics.Exposition.Writes.{Written, write_to-Written}
use consent_owner_resolver.Api.Metrics.Exposition.Order.{SameMetrics}
use consent_owner_resolver.Examples.{go}
use consent_owner_resolver.Examples.Serving.{fl}

scrapes : Unit {0}
unfolding str ◌==◌ same_key find
scrapes = tt

-- A connection that takes two lines.
abbrev two_lines : Bytes → List Bytes → Option Bytes × List Bytes
two_lines b sent =
    if leb 2 (length sent) then (some (str "broken pipe"), sent) else (none, b ∷ sent)

write_to-Written_example :
    Written two_lines
      (exposition go.quote fl new_metrics)
      []
      (write_to two_lines go.quote fl new_metrics [])
write_to-Written_example = write_to-Written two_lines go.quote fl new_metrics []

abbrev key : ℕ → RequestKey
key status = record { route = str "/resolve"; status = status }

abbrev with_requests : List (RequestKey × ℕ) → Metrics ℕ
with_requests requests = record {
  requests = requests;
  failures = [];
  bucket_counts = [];
  duration_sum = [];
  request_count = [];
}

abbrev one_order : Metrics ℕ
one_order = with_requests ((key 200, 7) ∷ (key 422, 1) ∷ [])

abbrev other_order : Metrics ℕ
other_order = with_requests ((key 422, 1) ∷ (key 200, 7) ∷ [])

same_metrics : SameMetrics one_order other_order
unfolding scrapes
same_metrics = record {
  requests = ((refl, (refl, tt)), exchange (key 200, 7) (key 422, 1) []);
  failures = (tt, none_left);
  bucket_counts = (tt, none_left);
  duration_sum = (tt, none_left);
  request_count = (tt, none_left);
}

tables : IsTables one_order
unfolding scrapes
tables = record {
  requests = (refl, (refl, tt));
  failures = tt;
  bucket_counts = tt;
  duration_sum = tt;
  request_count = tt;
}

differ : route_health ≢ route_resolve
unfolding scrapes
differ e = cc (sym routes_apart ∙ (eq_iff route_health route_resolve).1 e)
  where
    routes_apart : (route_health == route_resolve) ≡ false
    routes_apart = refl

exposition_comm_example :
    exposition go.quote fl
      (observe fl route_health 200 (pos 5) (observe fl route_resolve 422 (pos 7) one_order))
    ≡ exposition go.quote fl
        (observe fl route_resolve 422 (pos 7) (observe fl route_health 200 (pos 5) one_order))
exposition_comm_example =
    exposition_comm fl go.quote route_health route_resolve 200 422 (pos 5) (pos 7) one_order tables
      differ

abbrev events : List Event
events =
    response route_health 200 (pos 5)
    ∷ failure (str "json matcher")
    ∷ response route_resolve 422 (pos 7)
    ∷ []

record_events-exposition_example :
    exposition go.quote fl (record_events fl events one_order)
    ≡ exposition go.quote fl (record_events fl events other_order)
record_events-exposition_example =
    record_events-exposition fl go.quote events one_order other_order same_metrics
