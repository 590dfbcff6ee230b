-- ===== src/Process/Grpc.antt =====
-- process/grpc.go, grpc_config.go and grpc_options.go: a process that serves gRPC.
use nacelle.Prelude.{
  String, Bool, true, false, Option, none, some, List, [], ◌∷◌, ◌++◌, if◌then◌else◌, ℤ, pos,
  string_comparable, nat_comparable, int_comparable, bytes_comparable,
}
use Prim.Native.String.{◌++◌ as append_text}
use nacelle.Error.{Error, Outcome, Status, ok, err, panic, done, nil_dereference, bad_grpc_config}
use nacelle.Key.{Key, named}
use nacelle.Reflect.{Runtime}
use nacelle.Service.Defs.{ServiceContainer}
use nacelle.Service.Inject.{Object, inject}
use nacelle.Process.Http.{Network, make_listener, release, status}

pub record GrpcConfig : Type 0 where
  pub grpc_port : ℤ

unfoldable pub make_grpc_config_token : String → Key
make_grpc_config_token name = named "grpcConfigToken" (append_text "nacelle-process-grpc-" name)

-- `ServerOption` of package grpc is a parameter.
pub record GrpcOptions (ServerOption : Type 0) : Type 0 where
  pub config_token : Key
  pub server_options : List ServerOption

-- `server` is set where it is not nil; `called` is the state of `once`.
pub record GrpcServer (ServerOption : Type 0) : Type 0 where
  pub config_token : Key
  pub listener : Option ℤ
  pub server : Bool
  pub called : Bool
  pub port : ℤ
  pub server_options : List ServerOption

abbrev pub GrpcServerConfigFunc : Type 0 → Type 0
GrpcServerConfigFunc ServerOption = GrpcOptions ServerOption → GrpcOptions ServerOption

module _ {ServerOption : Type 0} where
  unfoldable pub with_grpc_config_token : Key → GrpcServerConfigFunc ServerOption
  with_grpc_config_token token o = record o { config_token = token }

  unfoldable pub with_grpc_server_options : List ServerOption → GrpcServerConfigFunc ServerOption
  with_grpc_server_options options o = record o { server_options = o.server_options ++ options }

  -- The loop of `getGRPCOptions` over the functions.
  unfoldable pub apply_configs :
      List (GrpcServerConfigFunc ServerOption) → GrpcOptions ServerOption → GrpcOptions ServerOption
  apply_configs [] o = o
  apply_configs (f ∷ fs) o = apply_configs fs (f o)

  unfoldable pub get_grpc_options :
      List (GrpcServerConfigFunc ServerOption) → GrpcOptions ServerOption
  unfolding apply_configs make_grpc_config_token
  get_grpc_options configs =
      apply_configs configs
        (record { config_token = make_grpc_config_token "default"; server_options = [] })

  unfoldable pub new_grpc_server :
      List (GrpcServerConfigFunc ServerOption) → GrpcServer ServerOption
  unfolding get_grpc_options
  new_grpc_server configs =
      let options = get_grpc_options configs in
      record {
        config_token = options.config_token;
        listener = none;
        server = false;
        called = false;
        port = pos 0;
        server_options = options.server_options;
      }

  -- `Start`. `serve` is `Serve` of the server with these options, and is given the listener. The
  -- listener is closed at the end.
  unfoldable pub start :
      (Option ℤ → List ServerOption → Option Error)
      → GrpcServer ServerOption
      → Network
      → Network × Status
  unfolding release
  start serve s net = (
    release s.listener net,
    if s.server then status (serve s.listener s.server_options) else panic nil_dereference,
  )

  -- `Stop`. A panic leaves `once` done, too.
  unfoldable pub stop : GrpcServer ServerOption → GrpcServer ServerOption × Status
  stop s =
      if s.called
      then (s, done)
      else (record s { called = true }, if s.server then done else panic nil_dereference)

  module _ (R : Runtime) where
    open R use {GoType, Value}

    -- The part of `Init` behind the injection: `object_init` is `Init` of the initializer, which is
    -- given a server with the options.
    abbrev pub initialize :
        (List ServerOption → Object GoType Value → Object GoType Value × Option Error)
        → ℤ
        → GrpcServer ServerOption
        → Object GoType Value
        → (GrpcServer ServerOption × Object GoType Value) × Status
    initialize object_init port s object =
        let (object', e) = object_init s.server_options object in
        ((record s { port = port; server = true }, object'), status e)

    -- `fetch` is the method of the configuration on a new `GRPCConfig`.
    unfoldable pub init :
        (Key → Outcome GrpcConfig)
        → (List ServerOption → Object GoType Value → Object GoType Value × Option Error)
        → ServiceContainer Value
        → Object GoType Value
        → GrpcServer ServerOption
        → Network
        → (GrpcServer ServerOption × Object GoType Value × Network) × Status
    unfolding make_listener
    init fetch object_init container object s net = elim (fetch s.config_token) [
      | err _ ↦ ((s, object, net), err bad_grpc_config)
      | panic p ↦ ((s, object, net), panic p)
      | ok c ↦
          let (net', made) = make_listener c.grpc_port net in
          elim made [
            | err e ↦ ((record s { listener = none }, object, net'), err e)
            | panic p ↦ ((s, object, net'), panic p)
            | ok listener ↦
                let (object', injected) = inject R container object in
                let s' : GrpcServer ServerOption = record s { listener = some listener } in
                elim injected [
                  | err e ↦ ((s', object', net'), err e)
                  | panic p ↦ ((s', object', net'), panic p)
                  | ok _ ↦
                      let ((s'', object''), r) = initialize object_init c.grpc_port s' object' in
                      ((s'', object'', net'), r)
                ]
          ]
    ]
