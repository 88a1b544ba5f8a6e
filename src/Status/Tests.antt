-- ===== src/Status/Tests.antt =====
-- status.go: a page of a tunnel that listens.
use ghostunnel.Prelude.{
  panic, ◌≢◌, ◌↔◌, List, [], ◌∷◌, some, Text, text_eq, ◌≡◌, refl, ◌&&◌, true, codes, ok, err,
}
use ghostunnel.Status.Handler.{StatusHandler, PageSource, Reply, is_nil, respond, serve_http}
use ghostunnel.Status.Routes.{Values, lookup, prometheus, metrics_format, metrics_format_iff}
use ghostunnel.Status.Laws.{Healthy, serve_http-Healthy}

abbrev page : PageSource
page = record {
  now = 5;
  version = codes "1";
  go_version = codes "go";
  hostname = err (codes "unknown");
  marshal = λ r. ok r.message;
}

abbrev up : StatusHandler
up = record { listening = true; reloading = true }

encoded : page.marshal (respond page (err (codes "refused")) up) ≡ ok (codes "reloading")
unfolding respond
encoded = refl

serve_http-Healthy_example :
    (reply : Reply) × (serve_http page (err (codes "refused")) up ≡ ok reply)
    × (reply.body ≡ codes "reloading")
    × Healthy
        (up.listening && is_nil {A = Unit {0}} (err (codes "refused")))
        (respond page (err (codes "refused")) up)
        reply
serve_http-Healthy_example =
    serve_http-Healthy page (err (codes "refused")) up (codes "reloading") encoded

-- `?format=prometheus`
abbrev query : Values
query = (codes "format", codes "prometheus" ∷ []) ∷ []

metrics_format_iff_example :
    (metrics_format query ≢ panic)
    × ((metrics_format query ≡ ok prometheus)
        ↔ ((rest : List Text) × (lookup query (codes "format") ≡ some (codes "prometheus" ∷ rest))))
metrics_format_iff_example = metrics_format_iff query ((λ h. cc), tt)

formats : metrics_format query ≡ ok prometheus
unfolding metrics_format lookup text_eq
formats = refl
