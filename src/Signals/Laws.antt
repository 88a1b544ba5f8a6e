-- ===== src/Signals/Laws.antt =====
-- signals.go: what the handlers of signals and of the timer come to.
use ghostunnel.Prelude.{
  ℕ, zero, suc, ◌≡◌, ◌≢◌, refl, ap, ◌∙◌, ◌↔◌, inl, inr, true, false, Bool-cases, Option, none, some,
  List, [], ◌∷◌, ==_refl, All, In, arith, Result, ok, err, panic,
}
use ghostunnel.Certloader.Source.{LoadError, Source}
use ghostunnel.Certloader.Total.{Total, reload-no_panic}
use ghostunnel.Certloader.Reload.{Certificate}
use ghostunnel.Certloader.Reload
use ghostunnel.Certloader.Reloads.{reloads}
use ghostunnel.Status.Handler.{StatusHandler, set_listening, set_reloading}
use ghostunnel.Flags.Validate.{ℤ, pos, negsuc}
use ghostunnel.Signals.Handler.{
  Signal, sigint, sigterm, sigusr1, other_signal, signal_eq, is_shutdown_signal, Context,
  reload_end, reload, reload_ticks, reload_handler,
}

signal_eq_sound : (a b : Signal) → signal_eq a b ≡ true → a ≡ b
unfolding signal_eq
signal_eq_sound sigint sigint h = refl
signal_eq_sound sigterm sigterm h = refl
signal_eq_sound sigusr1 sigusr1 h = refl
signal_eq_sound (other_signal a) (other_signal b) h = ap other_signal (ground arith)
signal_eq_sound sigint sigterm h = cc
signal_eq_sound sigint sigusr1 h = cc
signal_eq_sound sigint (other_signal _) h = cc
signal_eq_sound sigterm sigint h = cc
signal_eq_sound sigterm sigusr1 h = cc
signal_eq_sound sigterm (other_signal _) h = cc
signal_eq_sound sigusr1 sigint h = cc
signal_eq_sound sigusr1 sigterm h = cc
signal_eq_sound sigusr1 (other_signal _) h = cc
signal_eq_sound (other_signal _) sigint h = cc
signal_eq_sound (other_signal _) sigterm h = cc
signal_eq_sound (other_signal _) sigusr1 h = cc

signal_eq_refl : (a : Signal) → signal_eq a a ≡ true
unfolding signal_eq
signal_eq_refl sigint = refl
signal_eq_refl sigterm = refl
signal_eq_refl sigusr1 = refl
signal_eq_refl (other_signal a) = ==_refl a

-- The handler's test is membership in the list of the platform.
pub is_shutdown_signal_iff :
    (signals : List Signal) (sig : Signal)
    → (is_shutdown_signal signals sig ≡ true) ↔ In sig signals
unfolding is_shutdown_signal
is_shutdown_signal_iff [] sig = (λ h. cc, λ m. absurd m)
is_shutdown_signal_iff (s ∷ signals) sig = elim (Bool-cases (signal_eq sig s)) [
  | inl e ↦ rw e (λ h. inl (signal_eq_sound sig s e), λ _. refl)
  | inr e ↦
      let (to, from) = is_shutdown_signal_iff signals sig in
      rw e (
        λ h. inr (to h),
        λ m. elim m [
          | inl q ↦ absurd (cc (e, signal_eq_refl sig, ap (signal_eq sig) q))
          | inr i ↦ from i
        ],
      )
]

-- The status after a number of reloads.
abbrev pub status_after {ℓ} : {A : Type ℓ} → List A → StatusHandler → StatusHandler
status_after [] s = s
status_after (_ ∷ _) s = record { listening = true; reloading = false }

module _ {Key : Type 0} where
  -- The context after reloads, one for each of the sources.
  abbrev pub reloaded : List (Source Key) → Certificate Key → Context Key → Context Key
  reloaded sources cert context = record context {
    status = status_after sources context.status;
    cert = some (reloads sources cert);
  }

  pub status_after-listening :
      (sources : List (Source Key))
      → status_after sources (record { listening = true; reloading = false })
        ≡ record { listening = true; reloading = false }
  status_after-listening [] = refl
  status_after-listening (_ ∷ _) = refl

  reload_end-ok :
      (c : Context Key) (p : Certificate Key × Result LoadError (Unit {0}))
      → p.1 ≢ panic
      → reload_end c p ≡ ok (record c { status = set_listening c.status; cert = some p.0 })
  reload_end-ok c (cert, ok _) n = refl
  reload_end-ok c (cert, err _) n = refl
  reload_end-ok c (cert, panic) n = absurd (n refl)

  -- A reload, with or without an error, ends with a status that listens.
  pub reload-some :
      (source : Source Key) (context : Context Key) (cert : Certificate Key)
      → Total source
      → context.cert ≡ some cert
      → reload source context
        ≡ ok (record context {
          status = record { listening = true; reloading = false };
          cert = some (Reload.reload source cert).0;
        })
  unfolding reload set_listening set_reloading
  reload-some source context cert total e = rw e (
      reload_end-ok (record context { status = set_reloading context.status })
        (Reload.reload source cert) (reload-no_panic source cert total))

  reload_ticks-reloaded :
      (sources : List (Source Key)) (context : Context Key) (cert : Certificate Key)
      → All Total sources
      → context.cert ≡ some cert
      → reload_ticks sources context ≡ ok (reloaded sources cert context)
  unfolding reload_ticks reload reloads set_listening set_reloading
  reload_ticks-reloaded [] context cert t e =
      ap (λ (c : Option (Certificate Key)). ok (record context { cert = c })) e
  reload_ticks-reloaded (source ∷ sources) context cert (t, ts) e =
      rw (reload-some source context cert t e) (
        reload_ticks-reloaded sources
          (record context {
            status = record { listening = true; reloading = false };
            cert = some (Reload.reload source cert).0;
          })
          (Reload.reload source cert).0 ts refl
        ∙ ap
            (λ (s : StatusHandler). ok (record context {
              status = s;
              cert = some (reloads sources (Reload.reload source cert).0);
            }))
            (status_after-listening sources))

  -- The ticks that an interval gives.
  abbrev pub ticks_of : ℤ → List (Source Key) → List (Source Key)
  ticks_of (pos zero) ticks = []
  ticks_of (pos (suc _)) ticks = ticks
  ticks_of (negsuc _) ticks = []

  -- With libraries that behave as documented the timer reloads at each tick if its interval is above
  -- zero, and never otherwise; every reload leaves a status that listens, also where the tunnel does
  -- not listen yet.
  pub reload_handler-reloaded :
      (interval : ℤ) (ticks : List (Source Key)) (context : Context Key) (cert : Certificate Key)
      → All Total ticks
      → context.cert ≡ some cert
      → reload_handler interval ticks context ≡ ok (reloaded (ticks_of interval ticks) cert context)
  unfolding reload_handler reload_ticks reloads
  reload_handler-reloaded (pos zero) ticks context cert t e =
      reload_ticks-reloaded [] context cert tt e
  reload_handler-reloaded (pos (suc n)) ticks context cert t e =
      reload_ticks-reloaded ticks context cert t e
  reload_handler-reloaded (negsuc n) ticks context cert t e =
      reload_ticks-reloaded [] context cert tt e

  -- Without a certificate the first tick ends the program.
  pub reload_handler-panic :
      (n : ℕ) (source : Source Key) (ticks : List (Source Key)) (context : Context Key)
      → context.cert ≡ none
      → reload_handler (pos (suc n)) (source ∷ ticks) context ≡ panic
  unfolding reload_handler reload_ticks reload
  reload_handler-panic n source ticks context e = rw e
