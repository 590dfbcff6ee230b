-- ===== src/Process/Serving.antt =====
-- The HTTP server of process/http.go from its configuration to its end.
use nacelle.Prelude.{
  String, ◌≡◌, refl, ap, ◌∙◌, ◌≢◌, ◌⊎◌, inl, inr, true, false, Option, none, some, List, [], ◌∷◌,
  ◌++◌, map, arith, if◌then◌else◌, Bool-cases, Option-cases, ℤ, string_comparable, nat_comparable,
  int_comparable, bytes_comparable, ◌==◌, str_iff,
}
use nacelle.Error.{Outcome-cases, Error, Outcome, Status, ok, err, panic, done}
use nacelle.Key.{Key}
use nacelle.Reflect.{Runtime}
use nacelle.Service.Defs.{ServiceContainer}
use mathlib.Core.Path.{subst}
use nacelle.Service.Inject.{Object, inject}
use nacelle.Duration.{seconds}
use nacelle.Process.Http.{
  HttpConfig, HttpServer, Network, Served, served, post_load, init, start, make_listener, release,
  status, differ, initialize,
}
use nacelle.Process.Ports.{open_at, open_at-close_listener}
use nacelle.Process.Stopping.{stop_all, stop_all-fresh}

-- `PostLoad` accepts both files or neither.
pub data Encryption (c : HttpConfig) : Option (String × String) → Type 0 where
  plain : c.http_cert_file ≡ "" → c.http_key_file ≡ "" → Encryption c none
  tls :
      c.http_cert_file ≢ ""
      → c.http_key_file ≢ ""
      → Encryption c (some (c.http_cert_file, c.http_key_file))

-- What `Start` gives to package net/http.
abbrev files_of : HttpConfig → Option (String × String)
files_of c = if c.http_cert_file == "" then none else some (c.http_cert_file, c.http_key_file)

post_load-agree :
    (raw c : HttpConfig)
    → post_load raw ≡ (c, none)
    → differ (c.http_cert_file == "") (c.http_key_file == "") ≡ false
unfolding post_load
post_load-agree raw c e = ground arith

post_load-timeout :
    (raw c : HttpConfig)
    → post_load raw ≡ (c, none)
    → c.shutdown_timeout ≡ seconds raw.raw_shutdown_timeout
unfolding post_load
post_load-timeout raw c e = ground arith

files_of-Encryption : (raw c : HttpConfig) → post_load raw ≡ (c, none) → Encryption c (files_of c)
unfolding post_load
files_of-Encryption raw c accepted =
    let both = post_load-agree raw c accepted in
    elim (Bool-cases (c.http_cert_file == "")) [
      | inl h ↦ rw h (
          plain ((str_iff c.http_cert_file "").0 h)
            (ground (arith, str_iff c.http_key_file "", both)))
      | inr h ↦ rw h (
          tls (λ e. ground (arith, str_iff c.http_cert_file ""))
            (λ e. ground (arith, str_iff c.http_key_file "", both)))
    ]

module _ (R : Runtime) where
  open R use {GoType, Value}

  module _ (object_init : Object GoType Value → Object GoType Value × Option Error)
      (container : ServiceContainer Value) (object : Object GoType Value) where
    init_done :
        (fetch : Key → Outcome HttpConfig) (c : HttpConfig) (s : HttpServer) (net : Network)
        → fetch s.config_token ≡ ok c
        → (init R fetch object_init container object s net).1 ≡ done
        → let ((s', _, net'), _) = init R fetch object_init container object s net in
          (net'.listening ≡ net.listening ++ c.http_port ∷ [])
          × (s' ≡ record s {
            listener = some c.http_port;
            server = true;
            port = c.http_port;
            cert_file = c.http_cert_file;
            key_file = c.http_key_file;
            shutdown_timeout = c.shutdown_timeout;
          })
    unfolding init make_listener
    init_done fetch c s net h = ground arith

    -- With a configuration that `PostLoad` has accepted, and after an `Init` without an error,
    -- `Start` serves on the listener of the configured port: with TLS and both files if the configuration names files, and without TLS if
    -- it names neither. It returns nil exactly if the server was closed, and then as many listeners
    -- are open on each port as before `Init`.
    pub start-init :
        (fetch : Key → Outcome HttpConfig) (raw c : HttpConfig) (s : HttpServer) (net : Network)
        (serve : Option ℤ → Option (String × String) → Served)
        → post_load raw ≡ (c, none)
        → fetch s.config_token ≡ ok c
        → (init R fetch object_init container object s net).1 ≡ done
        → let ((s', _, net'), _) = init R fetch object_init container object s net in
          let (net'', result) = start serve s' net' in
          ((port : ℤ) → open_at port net''.listening ≡ open_at port net.listening)
          × ((files : Option (String × String)) × Encryption c files
              × (result ≡ served (serve (some c.http_port) files)))
    unfolding start release post_load
    start-init fetch raw c s net serve accepted h success =
        let (opened, e) = init_done fetch c s net h success in
        rw
          (
            ap (λ s'. s'.listener) e,
            ap (λ s'. s'.server) e,
            ap (λ s'. s'.cert_file) e,
            ap (λ s'. s'.key_file) e,
            opened,
          )
          (
            λ port. open_at-close_listener port c.http_port net.listening,
            (files_of c, files_of-Encryption raw c accepted, refl),
          )

    -- After an `Init` without an error of a server that was not stopped, with a configuration that
    -- `PostLoad` has accepted: of any calls of `Stop`, the first shuts the server down with the
    -- configured seconds as timeout and returns what that returns, and the others shut down nothing
    -- and return nil.
    pub stop_all-init :
        (fetch : Key → Outcome HttpConfig) (raw c : HttpConfig) (s : HttpServer) (net : Network)
        (shutdown : ℤ → Option Error) (later : List (ℤ → Option Error))
        → post_load raw ≡ (c, none)
        → fetch s.config_token ≡ ok c
        → s.called ≡ false
        → (init R fetch object_init container object s net).1 ≡ done
        → stop_all (shutdown ∷ later) (init R fetch object_init container object s net).0.0 [] ≡ (
          seconds raw.raw_shutdown_timeout ∷ [],
          status (shutdown (seconds raw.raw_shutdown_timeout)) ∷ map (λ _. done) later,
        )
    stop_all-init fetch raw c s net shutdown later accepted h fresh success =
        let (_, e) = init_done fetch c s net h success in
        stop_all-fresh _ shutdown later (ap (λ s'. s'.called) e ∙ fresh) (ap (λ s'. s'.server) e)
        ∙ ap (λ t. (t ∷ [], status (shutdown t) ∷ map (λ _. done) later))
            (ap (λ s'. s'.shutdown_timeout) e ∙ post_load-timeout raw c accepted)

    -- What follows the listener, for the outcome of the injection: where it failed, its error or
    -- panic is returned, and else the initializer is called on the injected object, and what it
    -- returns is returned.
    abbrev pub Initialized : Object GoType Value × Status → Object GoType Value × Status → Type 0
    Initialized (injected, ok _) r =
        (r.0 ≡ (object_init injected).0) × (r.1 ≡ status (object_init injected).1)
    Initialized (injected, err e) r = (r.0 ≡ injected) × (r.1 ≡ err e)
    Initialized (injected, panic p) r = (r.0 ≡ injected) × (r.1 ≡ panic p)

    initialize-Initialized :
        Initialized (inject R container object) (initialize R object_init container object)
    initialize-Initialized = go (inject R container object)
      where
        go :
            (r : Object GoType Value × Status)
            → Initialized r (elim r.1 as (λ _. Object GoType Value × Status) [
              | ok _ ↦ ((object_init r.0).0, status (object_init r.0).1)
              | err e ↦ (r.0, err e)
              | panic p ↦ (r.0, panic p)
            ])
        go (injected, ok _) = (refl, refl)
        go (injected, err e) = (refl, refl)
        go (injected, panic p) = (refl, refl)

    -- `Init` opens no listener and fails, before the injection, or it opens one on the port of the
    -- configuration, keeps it in the server, and injects the initializer: if that fails, the error
    -- or panic is returned, and else the initializer is called on the injected object, and its error
    -- is returned, if it has one. It closes nothing: if one of these fails, the listener stays open.
    pub init-listening :
        (fetch : Key → Outcome HttpConfig) (s : HttpServer) (net : Network)
        → let ((s', object', net'), result) = init R fetch object_init container object s net in
          ((net'.listening ≡ net.listening) × (object' ≡ object) × (result ≢ done))
          ⊎ ((c : HttpConfig) × (fetch s.config_token ≡ ok c)
              × (net'.listening ≡ net.listening ++ c.http_port ∷ [])
              × (s'.listener ≡ some c.http_port)
              × Initialized (inject R container object) (object', result))
    unfolding init make_listener
    init-listening fetch s net = elim (Outcome-cases (fetch s.config_token)) [
      | inl (c, found) ↦ elim (Option-cases (net.resolve c.http_port)) [
        | inr (e, bad) ↦ inl (ground arith, ground arith, ground arith)
        | inl resolved ↦ elim (Option-cases (net.listen c.http_port net.listening)) [
          | inr (e, bad) ↦ inl (ground arith, ground arith, ground arith)
          | inl listening ↦ inr (
            c,
            found,
            ground arith,
            ground arith,
            subst (Initialized (inject R container object))
                {x = initialize R object_init container object} (ground arith)
                initialize-Initialized,
          )
        ]
      ]
      | inr (inl (e, bad)) ↦ inl (ground arith, ground arith, ground arith)
      | inr (inr (p, bad)) ↦ inl (ground arith, ground arith, ground arith)
    ]
