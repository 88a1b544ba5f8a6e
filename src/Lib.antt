-- ===== src/Lib.antt =====
-- Ghostunnel: a TLS proxy with access control, as shallow definitions and theorems on them.
--
-- The program listens on one side, dials on the other, and copies bytes between the two. In server
-- mode the listener speaks TLS; in client mode the dialer does. A certificate that can be reloaded
-- serves both, an access control list checks the peer, a status page reports on the tunnel, and a
-- signal handler reloads or shuts down. The parts, and the code that each models:
--
--   Prelude     results of functions that fail or panic, texts as lists of code points, lists
--   Regexp      the part of `regexp` that patterns compile to: its syntax and meaning, a parser, a
--               matcher that is shown to decide the meaning
--   Wildcard    wildcard/matcher.go: the compiler, `compile_with_separator` for
--               `CompileWithSeparator`, `matches` for `Matches`; `Pattern` says what patterns mean
--   Auth        auth/auth.go: `Acl`, the server's and the client's check of a peer
--   Address     main.go: `parse_unix_or_tcp_address`, `validate_unix_or_localhost`
--   Tls         tls.go: `cipher_suites`, `ca_bundle`, `build_config`
--   Flags       main.go: `validate_flags`, `server_validate_flags`, `client_validate_flags`
--   Certloader  certloader/: keystores, PKCS#11 modules and keychains; `Reload` is the interface
--               `Certificate` over the three; `Dialer` is the race of a handshake with its timer
--   Status      status.go: the handler, its setters and its page; main.go: the paths of the listener
--   Signals     signals.go, unix.go, windows.go: the signal handler, the timer, the reload
--   Run         main.go, tls.go, certloader/dialer.go: `build_certificate`, the server, the client,
--               the listener of the status page, the exit status; `Builds` is the builds that lack
--               PKCS#11 or the keychain
--   Proxy       proxy/proxy.go: the goroutines as steps on shared state; the handshake; what the end of
--               a copy does to the connections; the header of the PROXY protocol; `Handler` is one
--               handler from its handshake to its return, `Callers` two calls of `Shutdown`
--   Tunnel      main.go, signals.go: the main goroutine, the timer of reloads and the proxy as steps on
--               what they share; `Views` is what the users of a tunnel see, `Refine` shows it
--   Fdlimit     fdlimit/: `Raise`, `Current` and `Maximum` on both platforms
--
-- Run composes the others as `run` does: flags are validated, a certificate is built from them, a
-- TLS configuration and an access control list are made, the proxy is started, and the signal
-- handler takes over. A function that returns an error is one into `Result`; a panic is a value of
-- its own. What the program asks of the system and of libraries (files, PEM and X.509, PKCS#11, the
-- keychain, the resolver, listeners, the JSON encoder, the clock) is a field of the records `Source`,
-- `CaSource`, `System` and `PageSource`, or an argument, and nothing is assumed of it but what a
-- theorem names. What comes to a run is a list of events: signals, ticks of the timer of reloads, the
-- timer of the forced exit, and that the connections have drained; the theorems are for all lists.
-- `signal_handler` takes the events until its return, `wait` those after it, where a signal has its
-- default effect again, and `exit_status` says what becomes of the process. The ticks before the
-- signal handler is called are a list of their own, `early`; signals before that are not modelled.
-- The proxy is a relation `Step`, with one constructor for each step of a goroutine, so that a path
-- of steps is an interleaving; `Shutdown` is called once, as the signal handler does. The copy in
-- `fuse` is one step, which may be taken at any time or never, and a step of a handler takes the
-- counters of metrics and of the wait group along with its change of phase. A tunnel is a
-- relation `TunnelStep` over it, in which a call of `Context.reload` is four steps, so that the timer
-- and a signal can reload at once; `Signals` has the same call in one piece, and `Tunnel.Calls`
-- relates the two. `Total` and `Calm` are what is relied on in libraries and the system: that they
-- return, and that a pair or a chain has a first certificate.
--
-- Every function is by recursion on its input; the one fuel is that of a star in `Regexp.Engine`, the
-- length of the text that is left, which is enough since every further round reads a character. A
-- text is a list of code points, so that invalid UTF-8 is outside the model; a duration is an
-- integer without a bound on its size; the numbers of `Fdlimit` have 64 bits and the ports of the
-- header 16, with the conversions written out. That the connections have drained is
-- an event of a run; when `Wait` returns is `WaitReturns` of the proxy.
--
-- Not modelled: the copy of the bytes, which is `io.CopyBuffer`, log lines, the reports of metrics to
-- other systems, the encoding of the header of the PROXY protocol, and the parser of the command line:
-- they are libraries or only write. Two callers of `Shutdown` are modelled without connections; the
-- steps of the proxy have the program's one.
pub mod Prelude
pub mod Regexp
pub mod Wildcard
pub mod Auth
pub mod Address
pub mod Tls
pub mod Fdlimit
pub mod Flags
pub mod Certloader
pub mod Status
pub mod Signals
pub mod Run
pub mod Proxy
pub mod Tunnel
