-- ===== src/Service/Registry.antt =====
-- The container of service.go as a register of services that are written once.
use nacelle.Prelude.{
  ◌≡◌, refl, inl, inr, Bool, true, false, not, ◌&&◌, ◌||◌, Option, none, some, List, [], ◌∷◌, arith,
  lookup, insert, lookup-insert, if◌then◌else◌, Bool-cases, Option-cases, string_comparable,
  nat_comparable, int_comparable, bytes_comparable, ◌==◌, str_iff,
}
use nacelle.Error.{Panic, Outcome, Status, ok, err, panic, nil_dereference}
use nacelle.Key.{Key, text, same_key, same_key_iff, key_comparable, serialize_key_total, is_null}
use nacelle.Reflect.{Runtime}
use nacelle.Service.Defs.{ServiceContainer, get, set, set_checked, new_service_container}
use nacelle.Service.Store.{service_at}

pub data Call (Value : Type 0) : Type 0 where
  set_call : Key → Value → Call Value
  get_call : Key → Call Value

-- Whether `Set` returned nil, what `Get` found, or the panic of either.
pub data Answer (Value : Type 0) : Type 0 where
  set_answer : Bool → Answer Value
  get_answer : Option Value → Answer Value
  panicked : Panic → Answer Value

abbrev set_result : {Value : Type 0} → Status → Answer Value
set_result (ok _) = set_answer true
set_result (err _) = set_answer false
set_result (panic p) = panicked p

abbrev get_result : {Value : Type 0} → Outcome Value → Answer Value
get_result (ok v) = get_answer (some v)
get_result (err _) = get_answer none
get_result (panic p) = panicked p

abbrev taken {ℓ} : {A : Type ℓ} → Option A → Bool
taken none = false
taken (some _) = true

module _ (R : Runtime) where
  open R use {Value, is_logger}

  -- The calls on a container, with their answers.
  abbrev pub answers : ServiceContainer Value → List (Call Value) → List (Answer Value)
  answers c [] = []
  answers c (set_call key service ∷ calls) =
      let (c', r) = set R c key service in set_result r ∷ answers c' calls
  answers c (get_call key ∷ calls) = get_result (get c key) ∷ answers c calls

  -- The register: for each key the service that it was given first, where only a logger may be
  -- given to the key "logger".
  abbrev pub Register : Type 0
  Register = Key → Option Value

  -- An error that names the key, where the nil interface has no name.
  abbrev named_error : Key → Answer Value → Answer Value
  named_error key answer = if is_null key then panicked nil_dereference else answer

  abbrev got : Key → Option Value → Answer Value
  got key none = named_error key (get_answer none)
  got key (some v) = get_answer (some v)

  abbrev given : Register → Key → Value → Answer Value
  given m key service =
      if (key == text "logger") && not (is_logger service)
      then set_answer false
      else if taken (m key)
      then named_error key (set_answer false)
      else set_answer true

  abbrev refused : Register → Key → Value → Bool
  refused m key service = ((key == text "logger") && not (is_logger service)) || taken (m key)

  abbrev give : Register → Key → Value → Register
  give m key service =
      if refused m key service then m else (λ j. if key == j then some service else m j)

  abbrev pub register_answers : Register → List (Call Value) → List (Answer Value)
  register_answers m [] = []
  register_answers m (set_call key service ∷ calls) =
      given m key service ∷ register_answers (give m key service) calls
  register_answers m (get_call key ∷ calls) = got key (m key) ∷ register_answers m calls

  abbrev Represents : ServiceContainer Value → Register → Type 0
  Represents c m = (j : Key) → service_at c j ≡ m j

  get_result-get :
      (c : ServiceContainer Value) (key : Key) → get_result (get c key) ≡ got key (service_at c key)
  unfolding get
  get_result-get c key = elim (Option-cases (service_at c key)) [
    | inl e ↦ elim (serialize_key_total key) [
      | inl (nil, crashes) ↦ ground arith
      | inr (some_key, (k, written)) ↦ ground arith
    ]
    | inr (v, e) ↦ ground arith
  ]

  set_result-set :
      (c : ServiceContainer Value) (key : Key) (service : Value)
      → set_result (set R c key service).1 ≡ given (service_at c) key service
  unfolding set
  set_result-set c key service =
      elim (Bool-cases ((key == text "logger") && not (is_logger service))) [
        | inl bad ↦ ground arith
        | inr good ↦ elim (Option-cases (service_at c key)) [
          | inl e ↦ ground arith
          | inr (v, e) ↦ elim (serialize_key_total key) [
            | inl (nil, crashes) ↦ ground arith
            | inr (some_key, (k, written)) ↦ ground arith
          ]
        ]
      ]

  set-Represents :
      (c : ServiceContainer Value) (m : Register) (key : Key) (service : Value)
      → Represents c m
      → Represents (set R c key service).0 (give m key service)
  unfolding set
  set-Represents c m key service h j =
      ground (arith, h key, h j, same_key_iff key j, lookup-insert key j service c.services)

  -- Any calls of `Set` and `Get` on a container are answered as by a register with the same services.
  answers-register_answers :
      (calls : List (Call Value)) (c : ServiceContainer Value) (m : Register)
      → Represents c m
      → answers c calls ≡ register_answers m calls
  answers-register_answers [] c m h = refl
  answers-register_answers (set_call key service ∷ calls) c m h =
      rw
        (
          set_result-set c key service,
          h key,
          answers-register_answers calls _ _ (set-Represents c m key service h),
        )
        refl
  answers-register_answers (get_call key ∷ calls) c m h =
      rw (get_result-get c key, h key, answers-register_answers calls c m h) refl

  -- The register of a new container, which has itself as a service.
  abbrev pub new_register : Value → Register
  new_register self key = if text "container" == key then some self else none

  new_service_container-Represents :
      (self : Value) → Represents (new_service_container R self) (new_register self)
  unfolding new_service_container set set_checked lookup insert same_key
  new_service_container-Represents self j = ground (arith, str_iff "container" "logger")

  -- Any calls of `Set` and `Get` on a new container are answered as by a register in which the
  -- container itself is the only service: a key keeps the service it was given first, `Set` is
  -- refused on a key that has one and for anything but a logger under "logger", and `Get` finds
  -- what the key has. Neither panics but where it has to name the nil interface in its error: `Get`
  -- of it where it has no service, and `Set` where it has one.
  pub answers-new_service_container :
      (self : Value) (calls : List (Call Value))
      → answers (new_service_container R self) calls ≡ register_answers (new_register self) calls
  answers-new_service_container self calls =
      answers-register_answers calls _ _ (new_service_container-Represents self)
