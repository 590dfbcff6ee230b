-- ===== src/Discovery/Init.antt =====
-- discovery/init.go and discovery/logging.go: the initializers that announce, elect and watch.
use nacelle.Prelude.{
  ℕ, String, Option, none, some, List, [], ◌∷◌, ℤ, pos, string_comparable, nat_comparable,
  int_comparable, bytes_comparable, Bytes,
}
use nacelle.Error.{Error, Outcome, Status, ok, err, panic, done}
use nacelle.Key.{text}
use nacelle.Reflect.{Runtime}
use nacelle.Service.Defs.{ServiceContainer, set, get_logger}
use nacelle.Log.Shim.{LogShim, debug}
use nacelle.Discovery.Client.{DiscoveryConfig, Dial, make_client}

-- `Service` of package reception.
pub record Announcement : Type 0 where
  pub id : String
  pub name : String
  pub address : String
  pub port : ℤ

-- The third-party packages: what they answer. A client is a value, since it becomes a service. A
-- watcher delivers states until its channel is closed. The callback for a lost connection, which is
-- only passed on, is left out.
pub record Reception (Value State : Type 0) : Type 0 where
  pub dial : Dial → Outcome Value
  pub new_v4 : Outcome String
  pub register : Announcement → Value → Option Error
  pub elect : String → Value → Option Error
  pub start_watcher : String → Value → Outcome (List State)

-- What the initializers do besides.
pub data Action : Type 0 where
  registers : Announcement → Action
  logs_info : String → Action
  elects : String → Action

-- `Printf` of `logAdapter`.
unfoldable pub printf : (I : LogShim) → String → List ℕ → Bytes → I.Shim → I.State → I.State
unfolding debug
printf I format args caller = debug I format args caller

-- What an error makes of a result.
abbrev status_of : Option Error → Status
status_of none = done
status_of (some e) = err e

module _ (R : Runtime) {State : Type 0} (reception : Reception (R.Value) State)
    (fetched : Outcome DiscoveryConfig) (container : ServiceContainer (R.Value)) where
  open R use {Value}

  abbrev announcement : String → String → Announcement
  announcement id name = record { id = id; name = name; address = ""; port = pos 0 }

  -- From `client.Register` on.
  abbrev pub announce : Value → Announcement → (ServiceContainer Value × List Action) × Status
  announce client service = elim (reception.register service client) [
    | some e ↦ ((container, []), err e)
    | none ↦
        let (container', r) = set R container (text "reception-client") client in
        ((container', registers service ∷ []), r)
  ]

  -- `InitAnnouncer`
  unfoldable pub init_announcer : String → (ServiceContainer Value × List Action) × Status
  unfolding make_client set
  init_announcer name = elim (make_client R reception.dial fetched container) [
    | err e ↦ ((container, []), err e)
    | panic p ↦ ((container, []), panic p)
    | ok client ↦ elim reception.new_v4 [
      | err e ↦ ((container, []), err e)
      | panic p ↦ ((container, []), panic p)
      | ok id ↦ announce client (announcement id name)
    ]
  ]

  abbrev pub hold_election : String → Value → List Action × Status
  hold_election name client = elim (reception.elect name client) [
    | some e ↦ (logs_info "Starting election" ∷ [], err e)
    | none ↦ (logs_info "Starting election" ∷ elects name ∷ logs_info "Won election" ∷ [], done)
  ]

  -- `InitHotBackup`
  unfoldable pub init_hot_backup : String → List Action × Status
  unfolding make_client get_logger
  init_hot_backup name = elim (make_client R reception.dial fetched container) [
    | err e ↦ ([], err e)
    | panic p ↦ ([], panic p)
    | ok client ↦ elim (get_logger R container) [
      | err e ↦ ([], err e)
      | panic p ↦ ([], panic p)
      | ok logger ↦ hold_election name client
    ]
  ]

  -- `InitWatcher`: the states that `f` is called with, one after the other, by the goroutine.
  unfoldable pub init_watcher : String → List State × Status
  unfolding make_client
  init_watcher name = elim (make_client R reception.dial fetched container) [
    | err e ↦ ([], err e)
    | panic p ↦ ([], panic p)
    | ok client ↦ elim (reception.start_watcher name client) [
      | err e ↦ ([], err e)
      | panic p ↦ ([], panic p)
      | ok ch ↦ (ch, done)
    ]
  ]
