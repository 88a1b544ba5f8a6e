-- ===== src/Tunnel/Calls.antt =====
-- signals.go: a call of `Context.reload` that nothing comes between, as steps of the tunnel.
use ghostunnel.Prelude.{◌≡◌, refl, sym, ap, ◌∙◌, Bool, true, false, some, ok, Returns-no_panic}
use ghostunnel.Certloader.Source.{Source}
use ghostunnel.Certloader.Total.{Total, load-Returns}
use ghostunnel.Certloader.Reload.{Certificate, load}
use ghostunnel.Certloader.Store.{store, reload-store}
use ghostunnel.Status.Handler.{StatusHandler, set_listening, set_reloading}
use ghostunnel.Signals.Handler.{Context, reload}
use ghostunnel.Signals.Laws.{reload-some}
use ghostunnel.Tunnel.Steps.{
  idle, marked, read, stored, Main, handling, Tunnel, mark, load_cert, store_cert, unmark,
  refresh_step, Leads, done, then,
}

module _ {Key : Type 0} where
  -- The tunnel with what a reload changes.
  abbrev pub with_context : Tunnel Key → StatusHandler → Certificate Key → Tunnel Key
  with_context t status cert = record t { status = status; cert = cert }

  abbrev pub context_of : Context Key → Tunnel Key → Context Key
  context_of context t = record context { status = t.status; cert = some t.cert }

  -- A call of `Context.reload` by the main goroutine, on a signal, when no other step comes between
  -- its own: it leads to the tunnel whose status and certificate are those that `reload` returns.
  pub reload-Leads :
      (timed proxy_protocol : Bool) (source : Source Key) (context : Context Key) (t : Tunnel Key)
      → Total source
      → t.main ≡ handling idle
      → (u : Tunnel Key) × Leads timed proxy_protocol t u
        × (reload source (context_of context t) ≡ ok (context_of context u))
        × (u ≡ with_context t u.status u.cert)
  unfolding set_listening
  reload-Leads timed proxy_protocol source context t total e =
      let r = load source t.cert in
      let t1 = record t { status = set_reloading t.status } in
      let t2 = record t1 { main = handling marked } in
      let t3 = record t2 { main = handling (read r) } in
      let t4 = record t3 { cert = store t.cert r } in
      let t5 = record t4 { main = handling stored } in
      let t6 = record t5 { status = set_listening (set_reloading t.status) } in
      (
        record t6 { main = handling idle },
        then (refresh_step {u = t1} idle marked e mark) (
            then
              (refresh_step {t = t2} {u = t2} marked (read r) refl
                (load_cert source r refl (Returns-no_panic r (load-Returns source total t.cert))))
              (then (refresh_step {t = t3} {u = t4} (read r) stored refl (store_cert r))
                (then (refresh_step {t = t5} {u = t6} stored idle refl unmark) done))),
        reload-some source (context_of context t) t.cert total refl
            ∙ ap
                (λ (c : Certificate Key). ok (record context {
                  status = record { listening = true; reloading = false };
                  cert = some c;
                }))
                (reload-store source t.cert),
        ap
            (λ (m : Main Key). record t {
              status = record { listening = true; reloading = false };
              cert = store t.cert r;
              main = m;
            })
            (sym e),
      )
