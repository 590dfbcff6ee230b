-- ===== src/Discovery/Accepted.antt =====
-- What `PostLoad` of the discovery configuration guarantees, and what `makeClient` makes of it.
use nacelle.Prelude.{
  ◌*◌, ◌<◌, String, ◌≡◌, refl, ap, ◌≢◌, ◌⊎◌, inl, inr, true, false, Option, none, arith, lookup,
  if◌then◌else◌, Bool-cases, ℤ, pos, negsuc, leb, leb_ℤ, string_comparable, nat_comparable,
  int_comparable, bytes_comparable, ◌==◌, str_iff,
}
use nacelle.Error.{Outcome, ok, panic, nil_dereference}
use nacelle.Reflect.{Runtime}
use nacelle.Service.Defs.{ServiceContainer, get_logger}
use nacelle.Duration.{seconds, seconds_lem, max_seconds}
use nacelle.Discovery.Client.{
  DiscoveryConfig, Dial, dial_consul, dial_exhibitor, whitelisted, is_legal_backend, post_load,
  make_client, InitFunc, call_init_func, initializers, dialed_by,
}

abbrev pub IsBackend : String → Type 0
IsBackend b = (b ≡ "consul") ⊎ ((b ≡ "etcd") ⊎ (b ≡ "zookeeper"))

is_legal_backend_lem : (b : String) → is_legal_backend b ≡ true → IsBackend b
unfolding is_legal_backend whitelisted
is_legal_backend_lem b h =
    ground (arith, str_iff b "consul", str_iff b "etcd", str_iff b "zookeeper")

-- The host after `PostLoad`.
abbrev host_of : String → DiscoveryConfig → String
host_of host c = if c.discovery_host == "" then host else c.discovery_host

accepted :
    (host : String) (c : DiscoveryConfig)
    → (post_load host c).1 ≡ none
    → (is_legal_backend c.discovery_backend ≡ true)
      × (leb_ℤ c.raw_discovery_ttl c.raw_discovery_interval ≡ false)
      × ((host_of host c == "") ≡ false)
      × ((post_load host c).0 ≡ record c {
        discovery_host = host_of host c;
        discovery_ttl = seconds c.raw_discovery_ttl;
        discovery_interval = seconds c.raw_discovery_interval;
      })
unfolding post_load
accepted host c h = elim (Bool-cases (c.discovery_host == "")) [
  | inl missing ↦ (ground arith, ground arith, ground arith, ground arith)
  | inr given ↦ (ground arith, ground arith, ground arith, ground arith)
]

-- A duration for a number of seconds: these seconds, unless there are more of them than fit; what
-- the multiplication leaves, in 64 bits, of a negative number.
abbrev pub Lasts : ℤ → ℤ → Type 0
Lasts (pos n) d = (d ≡ pos (n * 1000000000)) ⊎ (max_seconds < n)
Lasts (negsuc n) d = d ≡ seconds (negsuc n)

seconds-Lasts : (t : ℤ) → Lasts t (seconds t)
seconds-Lasts (pos n) = elim (Bool-cases (leb n max_seconds)) [
  | inl fits ↦ inl (seconds_lem n (ground (arith, fits)))
  | inr large ↦ inr (ground (arith, large))
]
seconds-Lasts (negsuc n) = refl

-- If `PostLoad` returns no error, then the backend is one of the three, the host is not empty, and
-- it is the one of the configuration unless that is empty; the number of seconds of the TTL is
-- larger than that of the interval, and the durations are these seconds where they fit.
pub post_load_lem :
    (host : String) (c : DiscoveryConfig)
    → (post_load host c).1 ≡ none
    → IsBackend (post_load host c).0.discovery_backend
      × ((post_load host c).0.discovery_host ≢ "")
      × ((post_load host c).0.discovery_host
          ≡ (if c.discovery_host == "" then host else c.discovery_host))
      × (leb_ℤ c.raw_discovery_ttl c.raw_discovery_interval ≡ false)
      × Lasts c.raw_discovery_ttl (post_load host c).0.discovery_ttl
      × Lasts c.raw_discovery_interval (post_load host c).0.discovery_interval
post_load_lem host c h =
    let (legal, longer, given, q) = accepted host c h in
    rw q (
      is_legal_backend_lem c.discovery_backend legal,
      (λ e. ground (arith, given, str_iff (host_of host c) "")),
      refl,
      longer,
      seconds-Lasts c.raw_discovery_ttl,
      seconds-Lasts c.raw_discovery_interval,
    )

abbrev pub Dials :
    (R : Runtime) {Client : Type 0}
    → (Dial → Outcome Client)
    → ServiceContainer (R.Value)
    → DiscoveryConfig
    → Type 0
Dials R dial container c =
    ((c.discovery_backend ≡ "consul")
      × (make_client R dial (ok c) container
          ≡ dial (
              dial_consul c.discovery_addr c.discovery_host c.discovery_port c.discovery_ttl
                c.discovery_interval c.discovery_interval)))
    ⊎ (((c.discovery_backend ≡ "etcd")
          × (make_client R dial (ok c) container ≡ panic nil_dereference))
        ⊎ ((c.discovery_backend ≡ "zookeeper")
            × (make_client R dial (ok c) container
                ≡ dial (dial_exhibitor c.discovery_addr c.discovery_prefix))))

dials :
    (R : Runtime) {Client : Type 0} (dial : Dial → Outcome Client)
    (container : ServiceContainer (R.Value)) (logger : Option (R.Value)) (c : DiscoveryConfig)
    → get_logger R container ≡ ok logger
    → IsBackend c.discovery_backend
    → Dials R dial container c
unfolding make_client lookup initializers dialed_by
dials R dial container logger c l legal = go legal
  where
    made :
        {o : Option InitFunc}
        → lookup c.discovery_backend initializers ≡ o
        → make_client R dial (ok c) container ≡ call_init_func dial c o
    made p = rw (make_client, l) (ap (call_init_func dial c) p)

    go : IsBackend c.discovery_backend → Dials R dial container c
    go (inl e) = inl (e, made (ap (λ b. lookup b initializers) e))
    go (inr (inl e)) = inr (inl (e, made (ap (λ b. lookup b initializers) e)))
    go (inr (inr e)) = inr (inr (e, made (ap (λ b. lookup b initializers) e)))

-- A configuration that `PostLoad` has accepted may name etcd, and with that `makeClient` panics: the
-- map has no function under the name, and it calls nil. With any other backend that is accepted it
-- dials that backend.
pub make_client_lem :
    (R : Runtime) {Client : Type 0} (dial : Dial → Outcome Client)
    (container : ServiceContainer (R.Value)) (logger : Option (R.Value)) (host : String)
    (c : DiscoveryConfig)
    → get_logger R container ≡ ok logger
    → (post_load host c).1 ≡ none
    → Dials R dial container (post_load host c).0
make_client_lem R dial container logger host c l h =
    let (legal, _, _, q) = accepted host c h in
    dials R dial container logger (post_load host c).0 l
      (rw q (is_legal_backend_lem c.discovery_backend legal))
