-- ===== src/Examples/Announcer.antt =====
-- An announcement at work.
use nacelle.Prelude.{
  ℕ, none, [], pos, string_comparable, nat_comparable, int_comparable, bytes_comparable,
}
use nacelle.Error.{Outcome, ok}
use nacelle.Service.Defs.{ServiceContainer}
use nacelle.Discovery.Client.{DiscoveryConfig}
use nacelle.Discovery.Init.{Reception, init_announcer}
use nacelle.Discovery.Announcing.{AnnouncerResult, init_announcer_lem}
use nacelle.Examples.Toy.{ToyValue, toy}
use nacelle.Examples.Toy

-- A client that registers everything.
abbrev reception : Reception ToyValue ℕ
reception = record {
  dial = λ d. ok (Toy.text []);
  new_v4 = ok "id";
  register = λ service client. none;
  elect = λ name client. none;
  start_watcher = λ name client. ok [];
}

abbrev fetched : Outcome DiscoveryConfig
fetched = ok (record {
  discovery_addr = "localhost";
  discovery_backend = "consul";
  raw_discovery_ttl = pos 10;
  raw_discovery_interval = pos 5;
  discovery_prefix = "";
  discovery_host = "host";
  discovery_port = pos 80;
  discovery_ttl = pos 10;
  discovery_interval = pos 5;
})

abbrev container : ServiceContainer ToyValue
container = record { services = [] }

init_announcer_lem_example :
    AnnouncerResult toy reception fetched container "web"
      (init_announcer toy reception fetched container "web")
init_announcer_lem_example = init_announcer_lem toy reception fetched container "web"
