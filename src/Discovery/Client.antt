-- ===== src/Discovery/Client.antt =====
-- discovery/config.go and discovery/client.go: the configuration of service discovery, and the choice
-- of the backend's client.
use nacelle.Prelude.{
  String, Bool, true, false, not, Option, none, some, List, [], ◌∷◌, Dict, lookup, if◌then◌else◌, ℤ,
  leb_ℤ, string_comparable, nat_comparable, int_comparable, bytes_comparable, ◌==◌,
}
use nacelle.Error.{
  Error, Outcome, ok, err, panic, nil_dereference, bad_discovery_config, illegal_discovery_backend,
  illegal_ttl, illegal_host,
}
use nacelle.Reflect.{Runtime}
use nacelle.Service.Defs.{ServiceContainer, get_logger}
use nacelle.Duration.{seconds}

-- `Config`
pub record DiscoveryConfig : Type 0 where
  pub discovery_addr : String
  pub discovery_backend : String
  pub raw_discovery_ttl : ℤ
  pub raw_discovery_interval : ℤ
  pub discovery_prefix : String
  pub discovery_host : String
  pub discovery_port : ℤ
  pub discovery_ttl : ℤ
  pub discovery_interval : ℤ

-- The loop of `isLegalBackend`.
unfoldable pub whitelisted : String → List String → Bool
whitelisted text [] = false
whitelisted text (t ∷ ts) = if text == t then true else whitelisted text ts

unfoldable pub is_legal_backend : String → Bool
unfolding whitelisted
is_legal_backend backend = whitelisted backend ("consul" ∷ "etcd" ∷ "zookeeper" ∷ [])

abbrev pub load_durations : DiscoveryConfig → DiscoveryConfig × Option Error
load_durations c = (
  record c {
    discovery_ttl = seconds c.raw_discovery_ttl;
    discovery_interval = seconds c.raw_discovery_interval;
  },
  none,
)

-- `PostLoad`. `env_host` is what `os.Getenv("HOST")` returns.
unfoldable pub post_load : String → DiscoveryConfig → DiscoveryConfig × Option Error
unfolding is_legal_backend seconds
post_load env_host c =
    if not (is_legal_backend c.discovery_backend)
    then (c, some illegal_discovery_backend)
    else if leb_ℤ c.raw_discovery_ttl c.raw_discovery_interval
    then (c, some illegal_ttl)
    else if c.discovery_host == ""
    then if env_host == ""
      then (record c { discovery_host = env_host }, some illegal_host)
      else load_durations (record c { discovery_host = env_host })
    else load_durations c

-- The functions `initConsul`, `initEtcd` and `initZk`.
pub data InitFunc : Type 0 where
  init_consul : InitFunc
  init_etcd : InitFunc
  init_zk : InitFunc

-- What is dialed, with the options that the functions pass on: for Consul the address, the host, the
-- port, the check's timeout and interval, and the timeout until it is deregistered; for etcd the
-- address, the prefix, the TTL and the refresh interval; for ZooKeeper the address and the prefix.
pub data Dial : Type 0 where
  dial_consul : String → String → ℤ → ℤ → ℤ → ℤ → Dial
  dial_etcd : String → String → ℤ → ℤ → Dial
  dial_exhibitor : String → String → Dial

unfoldable pub dialed_by : InitFunc → DiscoveryConfig → Dial
dialed_by init_consul c =
    dial_consul c.discovery_addr c.discovery_host c.discovery_port c.discovery_ttl
      c.discovery_interval c.discovery_interval
dialed_by init_etcd c =
    dial_etcd c.discovery_addr c.discovery_prefix c.discovery_ttl c.discovery_interval
dialed_by init_zk c = dial_exhibitor c.discovery_addr c.discovery_prefix

-- The map `initializers`, with the keys of the source.
unfoldable pub initializers : Dict String InitFunc
initializers = ("consul", init_consul) ∷ ("etd", init_etcd) ∷ ("zookeeper", init_zk) ∷ []

-- The call of a function from the map: a missing key gives nil, and its call panics.
abbrev pub call_init_func :
    {Client : Type 0} → (Dial → Outcome Client) → DiscoveryConfig → Option InitFunc → Outcome Client
call_init_func dial c none = panic nil_dereference
call_init_func dial c (some f) = dial (dialed_by f c)

-- `makeClient`. `dial` is the third-party package, and `fetched` what `Fetch` makes of a new
-- configuration.
unfoldable pub make_client :
    (R : Runtime) {Client : Type 0}
    → (Dial → Outcome Client)
    → Outcome DiscoveryConfig
    → ServiceContainer (R.Value)
    → Outcome Client
unfolding lookup initializers dialed_by get_logger
make_client R dial fetched container = elim fetched [
  | err _ ↦ err bad_discovery_config
  | panic p ↦ panic p
  | ok c ↦ elim (get_logger R container) [
    | panic p ↦ panic p
    | err e ↦ err e
    | ok logger ↦ call_init_func dial c (lookup c.discovery_backend initializers)
  ]
]
