-- ===== src/Error.antt =====
-- Errors, panics and the outcomes of calls. Go's `error` is one data type with a constructor for each
-- message of the library, so that a message that wraps another keeps it; the text of the messages
-- is not modelled.
use nacelle.Prelude.{ℕ, String, ◌≡◌, refl, ◌⊎◌, inl, inr}

pub data Error : Type 0 where
  -- service.go
  not_a_logger : Error
  no_service duplicate_service : String → Error
  field_invalid field_not_settable bad_optional_tag : String → Error
  cannot_assign : String → String → Error
  -- config.go
  already_loaded not_loaded : Error
  duplicate_config unregistered_config : String → Error
  field_count_mismatch : Error
  target_field_mismatch : ℕ → String → Error
  value_not_coercible bad_required_tag no_value default_not_coercible bad_mask_tag : String → Error
  -- config_tags.go
  unsupported_type : String → Error
  -- runner.go
  init_timeout shutdown_timeout : Error
  inject_failed initialize_failed fatal stop_failed : String → Error → Error
  -- logging.go, log/config.go
  bad_logging_config illegal_log_backend illegal_log_level illegal_log_encoding : Error
  -- process/*.go
  bad_worker_config bad_http_config bad_grpc_config bad_cert_config : Error
  -- discovery/*.go
  bad_discovery_config illegal_discovery_backend illegal_ttl illegal_host : Error
  -- an error of code outside the library
  foreign : ℕ → Error

pub data Panic : Type 0 where
  -- `panic(err.Error())`
  error_text : Error → Panic
  -- a method call or a function call through nil
  nil_dereference : Panic
  -- `x.(T)` on a value of another type
  failed_assertion : Panic
  -- a method of package reflect on a type or value of another kind, or on its zero value
  wrong_kind : Panic
  -- an index past the end
  out_of_range : Panic

pub data Outcome {ℓ} (A : Type ℓ) : Type ℓ where
  ok : A → Outcome A
  err : Error → Outcome A
  panic : Panic → Outcome A

infixl 5 ◌>>=◌
abbrev pub ◌>>=◌ {ℓ κ} : {A : Type ℓ} {B : Type κ} → Outcome A → (A → Outcome B) → Outcome B
ok a >>= f = f a
err e >>= f = err e
panic p >>= f = panic p

-- The `Must` variants: an error becomes a panic with its text.
abbrev pub must {ℓ} : {A : Type ℓ} → Outcome A → Outcome A
must (ok a) = ok a
must (err e) = panic (error_text e)
must (panic p) = panic p

-- A function whose only result is an `error`.
abbrev pub Status : Type 0
Status = Outcome (Unit {0})

abbrev pub done : Status
done = ok tt

pub Outcome-cases {ℓ} :
    {A : Type ℓ} (r : Outcome A)
    → ((a : A) × (r ≡ ok a)) ⊎ (((e : Error) × (r ≡ err e)) ⊎ ((p : Panic) × (r ≡ panic p)))
Outcome-cases (ok a) = inl (a, refl)
Outcome-cases (err e) = inr (inl (e, refl))
Outcome-cases (panic p) = inr (inr (p, refl))

-- The parts of a chain that has succeeded.
pub bind-ok {ℓ κ} :
    {A : Type ℓ} {B : Type κ} (r : Outcome A) (next : A → Outcome B) {b : B}
    → (r >>= next) ≡ ok b
    → (a : A) × (r ≡ ok a) × (next a ≡ ok b)
bind-ok (ok a) next h = (a, refl, h)
bind-ok (err e) next h = cc
bind-ok (panic p) next h = cc
