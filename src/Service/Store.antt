-- ===== src/Service/Store.antt =====
-- `Get` and `Set` of service.go: services are written once, and the logger is one.
use nacelle.Prelude.{
  ◌≡◌, refl, ◌≢◌, ◌⊎◌, inl, inr, true, not, ◌&&◌, Option, none, some, List, [], ◌∷◌, arith, lookup,
  insert, lookup-insert, lookup-insert_self, lookup-insert_ne, Bool-cases, Option-cases,
  string_comparable, nat_comparable, int_comparable, ◌==◌, str_iff,
}
use nacelle.Error.{ok, done}
use nacelle.Key.{Key, text, same_key, same_key_iff, key_comparable, serialize_key}
use nacelle.Reflect.{Runtime}
use nacelle.Service.Defs.{
  ServiceContainer, get, set, set_checked, as_logger, get_logger, new_service_container,
}

-- What `Get` finds under a key, `none` if the key has no service.
abbrev pub service_at : {Value : Type 0} → ServiceContainer Value → Key → Option Value
service_at c key = lookup key c.services

module _ (R : Runtime) where
  open R use {Value, is_logger}

  -- Is the service accepted under the key by the check of the logger?
  abbrev pub Fits : Key → Value → Type 0
  Fits key service = key ≡ text "logger" → is_logger service ≡ true

  -- A successful `Set` writes its own key, which was free, and no other. Where the key is taken, or
  -- the service under "logger" is no logger, `Set` fails and the container stays as it was.
  pub set_lem :
      (c : ServiceContainer Value) (key : Key) (service : Value)
      → (((set R c key service).1 ≡ done)
          × Fits key service
          × (service_at c key ≡ none)
          × (service_at (set R c key service).0 key ≡ some service)
          × ((j : Key) → key ≢ j → service_at (set R c key service).0 j ≡ service_at c j))
        ⊎ (((set R c key service).1 ≢ done)
            × ((set R c key service).0 ≡ c)
            × ((¬ Fits key service) ⊎ ((v : Value) × (service_at c key ≡ some v))))
  unfolding set
  set_lem c key service = elim (Bool-cases ((key == text "logger") && not (is_logger service))) [
    | inl bad ↦ inr (
      rw bad (λ e. cc),
      rw bad refl,
      inl (λ fits. ground (arith, fits, same_key_iff key (text "logger"))),
    )
    | inr good ↦ elim (Option-cases (service_at c key)) [
      | inl free ↦ inl (
        ground arith,
        ground (arith, same_key_iff key (text "logger")),
        free,
        ground (arith, lookup-insert_self key service c.services),
        λ j apart. ground (arith, lookup-insert_ne key j service c.services apart),
      )
      | inr (v, taken) ↦ inr (λ e. ground (arith), ground arith, inr (v, taken))
    ]
  ]

  -- A service that is registered stays, whatever is registered after it.
  pub get-set_stable :
      (c : ServiceContainer Value) (key j : Key) (service v : Value)
      → get c j ≡ ok v
      → get (set R c key service).0 j ≡ ok v
  unfolding set get
  get-set_stable c key j service v h =
      ground (arith, same_key_iff key j, lookup-insert key j service c.services)

  -- The entry "logger", if there is one, is a logger.
  abbrev pub HasLogger : ServiceContainer Value → Type 0
  HasLogger c = (v : Value) → service_at c (text "logger") ≡ some v → is_logger v ≡ true

  pub set-HasLogger :
      (c : ServiceContainer Value) (key : Key) (service : Value)
      → HasLogger c
      → HasLogger (set R c key service).0
  unfolding set
  set-HasLogger c key service h v = ground (
    arith,
    h v,
    same_key_iff key (text "logger"),
    lookup-insert key (text "logger") service c.services,
  )

  abbrev pub set_all : ServiceContainer Value → List (Key × Value) → ServiceContainer Value
  set_all c [] = c
  set_all c ((key, service) ∷ rest) = set_all (set R c key service).0 rest

  set_all-HasLogger :
      (c : ServiceContainer Value) (calls : List (Key × Value))
      → HasLogger c
      → HasLogger (set_all c calls)
  set_all-HasLogger c [] h = h
  set_all-HasLogger c ((key, service) ∷ rest) h =
      set_all-HasLogger (set R c key service).0 rest (set-HasLogger c key service h)

  get_logger-HasLogger :
      (c : ServiceContainer Value)
      → HasLogger c
      → get_logger R c ≡ ok (service_at c (text "logger"))
  unfolding get_logger get as_logger serialize_key
  get_logger-HasLogger c h = elim (Option-cases (service_at c (text "logger"))) [
    | inl e ↦ ground arith
    | inr (v, e) ↦ ground (arith, h v e)
  ]

  new_service_container-HasLogger : (self : Value) → HasLogger (new_service_container R self)
  unfolding new_service_container set set_checked lookup insert same_key
  new_service_container-HasLogger self v e = ground (arith, str_iff "container" "logger")

  -- Whatever services are registered in a new container, the type assertion of `GetLogger` never
  -- fails: it returns the logger that was registered, or the emergency logger if there is none.
  pub get_logger_total :
      (self : Value) (calls : List (Key × Value))
      → let c = set_all (new_service_container R self) calls in
        get_logger R c ≡ ok (service_at c (text "logger"))
  get_logger_total self calls =
      get_logger-HasLogger _ (set_all-HasLogger _ calls (new_service_container-HasLogger self))
