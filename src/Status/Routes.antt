-- ===== src/Status/Routes.antt =====
-- main.go: the pages of the status listener.
use ghostunnel.Prelude.{
  ℕ, ◌≡◌, ◌≢◌, refl, ap, ◌⊎◌, inl, inr, Bool, true, false, ◌&&◌, Bool-cases, Option, none, some,
  List, [], ◌∷◌, ◌++◌, length, ltb, ◌==◌, if◌then◌else◌, Text, codes, text_eq, text_eq_iff,
  ne_of_text_eq, has_prefix, ◌↔◌, All, subst, Result, ok, panic,
}

-- What `serveStatus` registers.
pub data Page : Type 0 where
  status_page metrics_page profiler_index profiler_cmdline profiler_profile profiler_symbol
        profiler_trace :
      Page

-- `http.ServeMux`: patterns with what they are registered for.
abbrev pub Mux : Type 0
Mux = List (Text × Page)

-- The calls of `mux.Handle` and `mux.HandleFunc`, in order.
unfoldable pub routes : (enable_prof : Bool) → Mux
routes enable_prof =
    (codes "/_status", status_page)
    ∷ (codes "/_metrics", metrics_page)
    ∷ (if enable_prof
        then (codes "/debug/pprof/", profiler_index)
          ∷ (codes "/debug/pprof/cmdline", profiler_cmdline)
          ∷ (codes "/debug/pprof/profile", profiler_profile)
          ∷ (codes "/debug/pprof/symbol", profiler_symbol)
          ∷ (codes "/debug/pprof/trace", profiler_trace)
          ∷ []
        else [])

abbrev pub ends_with_slash : Text → Bool
ends_with_slash [] = false
ends_with_slash (c ∷ []) = c == b'/'
ends_with_slash (_ ∷ d ∷ s) = ends_with_slash (d ∷ s)

-- A pattern that is the path.
unfoldable pub exact : Mux → Text → Option Page
exact [] path = none
exact ((pattern, page) ∷ mux) path = if text_eq path pattern then some page else exact mux path

-- The longest pattern that ends in a slash and starts the path; `n` is the length of the one found.
unfoldable pub longest : ℕ → Option Page → Mux → Text → Option Page
longest n found [] path = found
longest n found ((pattern, page) ∷ mux) path =
    let other = longest n found mux path in
    let better = longest (length pattern) (some page) mux path in
    if ends_with_slash pattern && has_prefix path pattern && ltb n (length pattern)
    then better
    else other

abbrev pub or_else : Option Page → Option Page → Option Page
or_else none o = o
or_else (some page) o = some page

-- The page for a path that is clean; `none` is the page that is not found.
unfoldable pub handler_for : Mux → Text → Option Page
handler_for mux path = or_else (exact mux path) (longest 0 none mux path)

-- The pages of the profiler, by what follows `/debug/pprof/`.
abbrev pub profiler_page : Text → Page
profiler_page rest =
    if text_eq rest (codes "cmdline")
    then profiler_cmdline
    else if text_eq rest (codes "profile")
    then profiler_profile
    else if text_eq rest (codes "symbol")
    then profiler_symbol
    else if text_eq rest (codes "trace")
    then profiler_trace
    else profiler_index

-- What a path is answered with.
abbrev pub Routed : Bool → Text → Option Page → Type 0
Routed enable_prof path found =
    ((path ≡ codes "/_status") × (found ≡ some status_page))
    ⊎ (((path ≡ codes "/_metrics") × (found ≡ some metrics_page))
        ⊎ (((enable_prof ≡ true)
              × ((rest : Text) × (path ≡ codes "/debug/pprof/" ++ rest)
                  × (found ≡ some (profiler_page rest))))
            ⊎ ((path ≢ codes "/_status")
                × (path ≢ codes "/_metrics")
                × ((enable_prof ≡ false) ⊎ (has_prefix path (codes "/debug/pprof/") ≡ false))
                × (found ≡ none))))

abbrev pprof : Text
pprof = codes "/debug/pprof/"

-- `r.URL.Query()`: the values of each key.
abbrev pub Values : Type 0
Values = List (Text × List Text)

unfoldable pub lookup : Values → Text → Option (List Text)
lookup [] key = none
lookup ((k, vs) ∷ params) key = if text_eq k key then some vs else lookup params key

-- Which of the two handlers writes the metrics.
pub data Format : Type 0 where
  json prometheus : Format

abbrev pub format_of : Option (List Text) → Result Text Format
format_of none = ok json
format_of (some []) = panic
format_of (some (v ∷ _)) = if text_eq v (codes "prometheus") then ok prometheus else ok json

-- `!ok || format[0] != "prometheus"`
unfoldable pub metrics_format : Values → Result Text Format
metrics_format params = format_of (lookup params (codes "format"))

lookup-All :
    (P : List Text → Type 0) (params : Values) (key : Text) (vs : List Text)
    → All (λ (p : Text × List Text). P p.1) params
    → lookup params key ≡ some vs
    → P vs
unfolding lookup
lookup-All P [] key vs a e = cc
lookup-All P ((k, us) ∷ params) key vs (p, a) e = elim (Bool-cases (text_eq k key)) [
  | inl h ↦ subst P (some-injective (rw h at e)) p
  | inr h ↦ lookup-All P params key vs a (rw h at e)
]
  where
    some-injective :
        {us vs : List Text} → ◌≡◌ {A = Option (List Text)} (some us) (some vs) → us ≡ vs
    some-injective h = cc

-- A query has at least one value for each key that it has: the format is then chosen without a
-- panic, and it is that of Prometheus exactly if the first value of `format` says so.
pub metrics_format_iff :
    (params : Values)
    → All (λ (p : Text × List Text). p.1 ≢ []) params
    → (metrics_format params ≢ panic)
      × ((metrics_format params ≡ ok prometheus) ↔ (
          (rest : List Text) × (lookup params (codes "format") ≡ some (codes "prometheus" ∷ rest))))
unfolding metrics_format
metrics_format_iff params a =
    go (lookup params (codes "format")) (lookup-All (λ vs. vs ≢ []) params (codes "format"))
  where
    go :
        (o : Option (List Text))
        → ((vs : List Text)
            → All (λ (p : Text × List Text). p.1 ≢ []) params
            → o ≡ some vs
            → vs ≢ [])
        → (format_of o ≢ panic)
          × ((format_of o ≡ ok prometheus)
              ↔ ((rest : List Text) × (o ≡ some (codes "prometheus" ∷ rest))))
    go none n = (λ h. cc, (λ h. cc, λ (rest, h). cc))
    go (some []) n = absurd (n [] a refl refl)
    go (some (v ∷ vs)) n = elim (Bool-cases (text_eq v (codes "prometheus"))) [
      | inl h ↦ (
        λ k. cc (h, k),
        (λ _. (vs, ap (λ (x : Text). some (x ∷ vs)) ((text_eq_iff v _).0 h)), λ _. rw h refl),
      )
      | inr h ↦
          (λ k. cc (h, k), (λ k. cc (h, k), λ (rest, k). absurd (ne_of_text_eq v _ h (heads k))))
    ]
      where
        heads :
            {u w : Text} {us ws : List Text}
            → ◌≡◌ {A = Option (List Text)} (some (u ∷ us)) (some (w ∷ ws))
            → u ≡ w
        heads k = cc
