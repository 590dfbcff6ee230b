-- ===== src/Process/Remote.antt =====
-- The gRPC server of process/grpc.go from its configuration functions to its end.
use nacelle.Prelude.{
  ◌≡◌, refl, sym, ap, ◌∙◌, true, Option, some, List, [], ◌∷◌, ◌++◌, map, append-nil, append_assoc,
  arith, concat_map, ℤ, string_comparable, nat_comparable, int_comparable, bytes_comparable,
}
use nacelle.Error.{Error, Outcome, ok, done}
use nacelle.Key.{Key}
use nacelle.Reflect.{Runtime}
use nacelle.Service.Defs.{ServiceContainer}
use nacelle.Service.Inject.{Object}
use nacelle.Process.Http.{Network, make_listener, release, status}
use nacelle.Process.Grpc.{
  GrpcConfig, GrpcOptions, GrpcServer, GrpcServerConfigFunc, with_grpc_config_token,
  with_grpc_server_options, apply_configs, get_grpc_options, make_grpc_config_token,
  new_grpc_server, init, start,
}
use nacelle.Process.Ports.{open_at, open_at-close_listener}

module _ {ServerOption : Type 0} where
  apply_configs-options :
      (groups : List (List ServerOption)) (rest : List (GrpcServerConfigFunc ServerOption))
      (o : GrpcOptions ServerOption)
      → apply_configs (map with_grpc_server_options groups ++ rest) o
        ≡ apply_configs rest (with_grpc_server_options (concat_map (λ g. g) groups) o)
  unfolding apply_configs with_grpc_server_options
  apply_configs-options [] rest o =
      ap (λ os. apply_configs rest (record o { server_options = os }))
        (sym (append-nil o.server_options))
  apply_configs-options (g ∷ groups) rest o =
      apply_configs-options groups rest (with_grpc_server_options g o)
      ∙ ap (λ os. apply_configs rest (record o { server_options = os }))
          (append_assoc o.server_options g (concat_map (λ g. g) groups))

  -- The server of `NewGRPCServer` for groups of options and a token.
  abbrev pub with_groups : List (List ServerOption) → Key → GrpcServer ServerOption
  with_groups groups token =
      new_grpc_server (map with_grpc_server_options groups ++ with_grpc_config_token token ∷ [])

  with_groups_lem :
      (groups : List (List ServerOption)) (token : Key)
      → ((with_groups groups token).config_token ≡ token)
        × ((with_groups groups token).server_options ≡ concat_map (λ g. g) groups)
  unfolding new_grpc_server get_grpc_options apply_configs with_grpc_config_token
      with_grpc_server_options make_grpc_config_token
  with_groups_lem groups token =
      let e =
        apply_configs-options groups (with_grpc_config_token token ∷ [])
          (record { config_token = make_grpc_config_token "default"; server_options = [] }) in
      (ap (λ o. o.config_token) e, ap (λ o. o.server_options) e)

  module _ (R : Runtime) where
    open R use {GoType, Value}

    init_done :
        (fetch : Key → Outcome GrpcConfig) (c : GrpcConfig)
        (object_init : List ServerOption → Object GoType Value → Object GoType Value × Option Error)
        (container : ServiceContainer Value) (object : Object GoType Value)
        (s : GrpcServer ServerOption) (net : Network)
        → fetch s.config_token ≡ ok c
        → (init R fetch object_init container object s net).1 ≡ done
        → let ((s', _, net'), _) = init R fetch object_init container object s net in
          (net'.listening ≡ net.listening ++ c.grpc_port ∷ [])
          × (s' ≡ record s { listener = some c.grpc_port; server = true; port = c.grpc_port })
    unfolding init make_listener
    init_done fetch c object_init container object s net h = ground arith

    -- A server with groups of options and a token: if `Init` finds a configuration at the token and
    -- returns no error, then `Start` serves on the listener of the configured port, which `Init` has opened, with all options, in the order
    -- of the groups, returns what `Serve` returns, and leaves as many listeners open as there were
    -- before `Init`.
    pub start-with_groups :
        (fetch : Key → Outcome GrpcConfig) (c : GrpcConfig)
        (object_init : List ServerOption → Object GoType Value → Object GoType Value × Option Error)
        (container : ServiceContainer Value) (object : Object GoType Value) (net : Network)
        (serve : Option ℤ → List ServerOption → Option Error) (groups : List (List ServerOption))
        (token : Key)
        → fetch token ≡ ok c
        → (init R fetch object_init container object (with_groups groups token) net).1 ≡ done
        → let ((s, _, net'), _) =
            init R fetch object_init container object (with_groups groups token) net in
          let (net'', result) = start serve s net' in
          (result ≡ status (serve (some c.grpc_port) (concat_map (λ g. g) groups)))
          × ((port : ℤ) → open_at port net''.listening ≡ open_at port net.listening)
    unfolding start release
    start-with_groups fetch c object_init container object net serve groups token h success =
        let s = with_groups groups token in
        let (at, options) = with_groups_lem groups token in
        let (opened, e) =
          init_done fetch c object_init container object s net (ap fetch at ∙ h) success in
        rw
          (
            ap (λ s'. s'.listener) e,
            ap (λ s'. s'.server) e,
            ap (λ s'. s'.server_options) e,
            opened,
            options,
          )
          (refl, λ port. open_at-close_listener port c.grpc_port net.listening)
