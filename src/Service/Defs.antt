-- ===== src/Service/Defs.antt =====
-- The container of service.go: a map from keys to services.
use nacelle.Prelude.{
  not, ◌&&◌, Option, none, some, [], Dict, lookup, insert, if◌then◌else◌, string_comparable,
  nat_comparable, int_comparable, ◌==◌,
}
use nacelle.Error.{
  Outcome, Status, ok, err, panic, must, done, ◌>>=◌, not_a_logger, no_service, duplicate_service,
  failed_assertion,
}
use nacelle.Key.{Key, text, key_comparable, serialize_key}
use nacelle.Reflect.{Runtime}

pub record ServiceContainer (Value : Type 0) : Type 0 where
  pub services : Dict Key Value

module _ {Value : Type 0} where
  unfoldable pub get : ServiceContainer Value → Key → Outcome Value
  get c key = elim (lookup key c.services) [
    | none ↦ do k ← serialize_key key; err (no_service k)
    | some service ↦ ok service
  ]

  unfoldable pub must_get : ServiceContainer Value → Key → Outcome Value
  must_get c key = must (get c key)

  -- `WrapServiceInitializerFunc`. A function that changes the container returns it in its result.
  unfoldable pub wrap_service_initializer_func :
      {Config Result : Type 0}
      → ServiceContainer Value
      → (Config → ServiceContainer Value → Result)
      → Config
      → Result
  wrap_service_initializer_func container f config = f config container

-- The part of `set` behind the check of the logger.
unfoldable pub set_checked :
    {Value : Type 0} → ServiceContainer Value → Key → Value → ServiceContainer Value × Status
set_checked c key service = elim (lookup key c.services) [
  | some _ ↦ (c, do k ← serialize_key key; err (duplicate_service k))
  | none ↦ (record { services = insert key service c.services }, done)
]

module _ (R : Runtime) where
  open R use {Value, is_logger}

  unfoldable pub set : ServiceContainer Value → Key → Value → ServiceContainer Value × Status
  unfolding set_checked
  set c key service =
      if (key == text "logger") && not (is_logger service)
      then (c, err not_a_logger)
      else set_checked c key service

  unfoldable pub must_set : ServiceContainer Value → Key → Value → ServiceContainer Value × Status
  must_set c key service = let (c', r) = set c key service in (c', must r)

  -- The container registers itself; `self` is the pointer to it. The result of `Set` is dropped.
  unfoldable pub new_service_container : Value → ServiceContainer Value
  new_service_container self = (set (record { services = [] }) (text "container") self).0

  -- The type assertion `raw.(Logger)`.
  unfoldable pub as_logger : Value → Outcome Value
  as_logger raw = if is_logger raw then ok raw else panic failed_assertion

  -- `none` is the emergency logger.
  unfoldable pub get_logger : ServiceContainer Value → Outcome (Option Value)
  get_logger c = elim (get c (text "logger")) [
    | ok raw ↦ do l ← as_logger raw; ok (some l)
    | err e ↦ ok none
    | panic p ↦ panic p
  ]
