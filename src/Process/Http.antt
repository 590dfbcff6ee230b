-- ===== src/Process/Http.antt =====
-- process/http.go, http_config.go, http_options.go and util.go: a process that serves HTTP.
use nacelle.Prelude.{
  String, Bool, true, false, not, Option, none, some, List, [], ◌∷◌, ◌++◌, if◌then◌else◌, ℤ, pos,
  string_comparable, nat_comparable, int_comparable, bytes_comparable, ◌==◌,
}
use Prim.Native.String.{◌++◌ as append_text}
use nacelle.Error.{
  Error, Outcome, Status, ok, err, panic, done, nil_dereference, bad_http_config, bad_cert_config,
}
use nacelle.Key.{Key, named}
use nacelle.Reflect.{Runtime}
use nacelle.Service.Defs.{ServiceContainer}
use nacelle.Service.Inject.{Object, inject}
use nacelle.Duration.{seconds}

pub record HttpConfig : Type 0 where
  pub http_port : ℤ
  pub http_cert_file : String
  pub http_key_file : String
  pub raw_shutdown_timeout : ℤ
  pub shutdown_timeout : ℤ

-- Go's `!=` on Booleans.
abbrev pub differ : Bool → Bool → Bool
differ a b = if a then not b else b

unfoldable pub post_load : HttpConfig → HttpConfig × Option Error
unfolding seconds
post_load c =
    if differ (c.http_cert_file == "") (c.http_key_file == "")
    then (c, some bad_cert_config)
    else (record c { shutdown_timeout = seconds c.raw_shutdown_timeout }, none)

unfoldable pub make_http_config_token : String → Key
make_http_config_token name = named "httpConfigToken" (append_text "nacelle-process-http-" name)

abbrev pub HttpServerConfigFunc : Type 0
HttpServerConfigFunc = Key → Key

unfoldable pub with_http_config_token : Key → HttpServerConfigFunc
with_http_config_token token _ = token

-- `getHTTPOptions`: the only option is the token.
unfoldable pub get_http_options : List HttpServerConfigFunc → Key → Key
get_http_options [] token = token
get_http_options (f ∷ fs) token = get_http_options fs (f token)

-- The network: the ports with an open listener. What package net answers is a parameter.
pub record Network : Type 0 where
  pub listening : List ℤ
  pub resolve : ℤ → Option Error
  pub listen : ℤ → List ℤ → Option Error

-- `makeListener`; a listener is its port.
unfoldable pub make_listener : ℤ → Network → Network × Outcome ℤ
make_listener port net = elim (net.resolve port) [
  | some e ↦ (net, err e)
  | none ↦ elim (net.listen port net.listening) [
    | some e ↦ (net, err e)
    | none ↦ (record net { listening = net.listening ++ port ∷ [] }, ok port)
  ]
]

-- `listener.Close()`
unfoldable pub close_listener : ℤ → List ℤ → List ℤ
close_listener port [] = []
close_listener port (q ∷ qs) = if q == port then qs else q ∷ close_listener port qs

-- `s.listener.Close()` of a server, which does nothing to a nil listener
unfoldable pub release : Option ℤ → Network → Network
unfolding close_listener
release none net = net
release (some port) net = record net { listening = close_listener port net.listening }

-- `server` is set where it is not nil; `called` is the state of `once`.
pub record HttpServer : Type 0 where
  pub config_token : Key
  pub listener : Option ℤ
  pub server : Bool
  pub called : Bool
  pub port : ℤ
  pub cert_file : String
  pub key_file : String
  pub shutdown_timeout : ℤ

unfoldable pub new_http_server : List HttpServerConfigFunc → HttpServer
unfolding get_http_options make_http_config_token
new_http_server configs = record {
  config_token = get_http_options configs (make_http_config_token "default");
  listener = none;
  server = false;
  called = false;
  port = pos 0;
  cert_file = "";
  key_file = "";
  shutdown_timeout = pos 0;
}

-- What an error makes of a result.
abbrev pub status : Option Error → Status
status none = done
status (some e) = err e

module _ (R : Runtime) where
  open R use {GoType, Value}

  -- The part of `Init` behind the listener: `object` is the initializer, and `object_init` its
  -- `Init`, which is given the server.
  abbrev pub initialize :
      (Object GoType Value → Object GoType Value × Option Error)
      → ServiceContainer Value
      → Object GoType Value
      → Object GoType Value × Status
  initialize object_init container object =
      let (object', injected) = inject R container object in
      elim injected [
        | err e ↦ (object', err e)
        | panic p ↦ (object', panic p)
        | ok _ ↦ let (object'', e) = object_init object' in (object'', status e)
      ]

  abbrev configured : HttpConfig → HttpServer → HttpServer
  configured c s = record s {
    listener = some c.http_port;
    server = true;
    port = c.http_port;
    cert_file = c.http_cert_file;
    key_file = c.http_key_file;
    shutdown_timeout = c.shutdown_timeout;
  }

  -- `fetch` is the method of the configuration on a new `HTTPConfig`.
  unfoldable pub init :
      (Key → Outcome HttpConfig)
      → (Object GoType Value → Object GoType Value × Option Error)
      → ServiceContainer Value
      → Object GoType Value
      → HttpServer
      → Network
      → (HttpServer × Object GoType Value × Network) × Status
  unfolding make_listener
  init fetch object_init container object s net = elim (fetch s.config_token) [
    | err _ ↦ ((s, object, net), err bad_http_config)
    | panic p ↦ ((s, object, net), panic p)
    | ok c ↦
        let (net', made) = make_listener c.http_port net in
        elim made [
          | err e ↦ ((record s { listener = none }, object, net'), err e)
          | panic p ↦ ((s, object, net'), panic p)
          | ok _ ↦
              let (object', r) = initialize object_init container object in
              ((configured c s, object', net'), r)
        ]
  ]

-- What the methods `Serve` and `ServeTLS` return, which is never nil.
pub data Served : Type 0 where
  server_closed : Served
  serve_failed : Error → Served

abbrev pub served : Served → Status
served server_closed = done
served (serve_failed e) = err e

-- `Start`. `serve` is `Serve`, or `ServeTLS` with the two files, and is given the listener. The listener is closed at the end.
unfoldable pub start :
    (Option ℤ → Option (String × String) → Served) → HttpServer → Network → Network × Status
unfolding release
start serve s net = (
  release s.listener net,
  if s.server
      then served
          (serve s.listener (if s.cert_file == "" then none else some (s.cert_file, s.key_file)))
      else panic nil_dereference,
)

-- `Stop`. `shutdown` is `Shutdown` of the server with a timeout, on what it changes. A panic leaves
-- `once` done, too.
unfoldable pub stop :
    {Memory : Type 0}
    → (ℤ → Memory → Memory × Option Error)
    → HttpServer
    → Memory
    → (HttpServer × Memory) × Status
stop shutdown s m =
    let s' : HttpServer = record s { called = true } in
    let (m', e) = shutdown s.shutdown_timeout m in
    if s.called
    then ((s, m), done)
    else if s.server
    then ((s', m'), status e)
    else ((s', m), panic nil_dereference)
