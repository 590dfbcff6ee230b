-- ===== src/Examples/Servers.antt =====
-- The HTTP and the gRPC server at work.
use nacelle.Prelude.{
  ℕ, String, ◌≡◌, refl, ◌≢◌, ◌⊎◌, false, Option, none, some, List, [], ◌∷◌, ◌++◌, length, ℤ, pos,
  string_comparable, nat_comparable, int_comparable, bytes_comparable,
}
use nacelle.Error.{Error, Outcome, ok, err, done, foreign}
use nacelle.Key.{Key, text}
use nacelle.Service.Defs.{ServiceContainer}
use nacelle.Service.Inject.{Object, other_kind, inject}
use nacelle.Process.Http.{
  HttpConfig, Network, served, server_closed, post_load, new_http_server, init, start,
  make_listener,
}
use nacelle.Process.Serving.{Encryption, start-init, stop_all-init, init-listening, Initialized}
use nacelle.Process.Ports.{open_at}
use nacelle.Process.Stopping.{stop_all}
use nacelle.Duration.{seconds}
use nacelle.Process.Grpc
use nacelle.Process.Grpc.{GrpcConfig, GrpcServer}
use nacelle.Process.Remote.{with_groups, start-with_groups}
use nacelle.Examples.Toy.{ToyType, ToyValue, toy}

abbrev net : Network
net = record { listening = pos 80 ∷ []; resolve = λ port. none; listen = λ port ports. none }

abbrev container : ServiceContainer ToyValue
container = record { services = [] }

abbrev object_init : Object ToyType ToyValue → Object ToyType ToyValue × Option Error
object_init object = (object, none)

abbrev raw : HttpConfig
raw = record {
  http_port = pos 5000;
  http_cert_file = "cert";
  http_key_file = "key";
  raw_shutdown_timeout = pos 5;
  shutdown_timeout = pos 0;
}

abbrev fetch : Key → Outcome HttpConfig
fetch token = ok (post_load raw).0

post_load-raw : post_load raw ≡ ((post_load raw).0, none)
unfolding post_load
post_load-raw = refl

http_ready : (init toy fetch object_init container other_kind (new_http_server []) net).1 ≡ done
unfolding init make_listener inject
http_ready = refl

start-init_example :
    let ((s', _, net'), _) =
      init toy fetch object_init container other_kind (new_http_server []) net in
    let (net'', result) = start (λ listener files. server_closed) s' net' in
    ((port : ℤ) → open_at port net''.listening ≡ open_at port net.listening)
    × ((files : Option (String × String)) × Encryption (post_load raw).0 files
        × (result ≡ served server_closed))
start-init_example =
    start-init toy object_init container other_kind fetch raw (post_load raw).0 (new_http_server [])
      net (λ listener files. server_closed) post_load-raw refl http_ready

not_called : (new_http_server []).called ≡ false
unfolding new_http_server
not_called = refl

stop_all-init_example :
    stop_all
      ((λ timeout. some (foreign 1)) ∷ (λ timeout. some (foreign 2)) ∷ [])
      (init toy fetch object_init container other_kind (new_http_server []) net).0.0
      []
    ≡ (seconds (pos 5) ∷ [], err (foreign 1) ∷ done ∷ [])
stop_all-init_example =
    stop_all-init toy object_init container other_kind fetch raw (post_load raw).0
      (new_http_server []) net (λ timeout. some (foreign 1)) ((λ timeout. some (foreign 2)) ∷ [])
      post_load-raw refl not_called http_ready

-- The initializer fails, and the listener stays open.
abbrev failing_init : Object ToyType ToyValue → Object ToyType ToyValue × Option Error
failing_init object = (object, some (foreign 1))

init-listening_example :
    let ((s', object', net'), result) =
      init toy fetch failing_init container other_kind (new_http_server []) net in
    ((net'.listening ≡ net.listening) × (object' ≡ other_kind) × (result ≢ done))
    ⊎ ((c : HttpConfig) × (fetch (new_http_server []).config_token ≡ ok c)
        × (net'.listening ≡ net.listening ++ c.http_port ∷ [])
        × (s'.listener ≡ some c.http_port)
        × Initialized toy failing_init container other_kind
            (inject toy container other_kind)
            (object', result))
init-listening_example =
    init-listening toy failing_init container other_kind fetch (new_http_server []) net

left_open :
    let ((s', object', net'), result) =
      init toy fetch failing_init container other_kind (new_http_server []) net in
    (net'.listening ≡ pos 80 ∷ pos 5000 ∷ []) × (result ≡ err (foreign 1))
unfolding init make_listener inject post_load
left_open = (refl, refl)

abbrev grpc_fetch : Key → Outcome GrpcConfig
grpc_fetch token = ok (record { grpc_port = pos 6000 })

abbrev grpc_init : List ℕ → Object ToyType ToyValue → Object ToyType ToyValue × Option Error
grpc_init options object = (object, none)

abbrev groups : List (List ℕ)
groups = (1 ∷ 2 ∷ []) ∷ (3 ∷ []) ∷ []

grpc_ready :
    (Grpc.init toy grpc_fetch grpc_init container other_kind
      (with_groups groups (text "grpc"))
      net).1
    ≡ done
unfolding Grpc.init make_listener inject
grpc_ready = refl

start-with_groups_example :
    let ((s, _, net'), _) =
      Grpc.init toy grpc_fetch grpc_init container other_kind
        (with_groups groups (text "grpc"))
        net in
    let (net'', result) = Grpc.start (λ port options. some (foreign (length options))) s net' in
    (result ≡ err (foreign 3))
    × ((port : ℤ) → open_at port net''.listening ≡ open_at port net.listening)
start-with_groups_example =
    start-with_groups toy grpc_fetch (record { grpc_port = pos 6000 }) grpc_init container
      other_kind net (λ port options. some (foreign (length options))) groups (text "grpc") refl
      grpc_ready
