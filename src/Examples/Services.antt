-- ===== src/Examples/Services.antt =====
-- The container at work.
use nacelle.Prelude.{
  ◌≡◌, refl, true, false, none, some, List, [], ◌∷◌, lookup, insert, string_comparable,
  nat_comparable, int_comparable, bytes_comparable,
}
use nacelle.Error.{ok, err, duplicate_service}
use nacelle.Key.{text, serialize_key, same_key}
use nacelle.Service.Defs.{
  ServiceContainer, get, set, set_checked, get_logger, new_service_container,
}
use nacelle.Service.Store.{get_logger_total, set_all, service_at}
use nacelle.Service.Registry.{
  Call, set_call, get_call, set_answer, get_answer, answers, register_answers, new_register,
  answers-new_service_container,
}
use nacelle.Service.Inject.{struct, inject}
use nacelle.Service.Filling.{inject_lem, InjectResult}
use nacelle.Reflect.{Field}
use nacelle.Examples.Toy.{ToyType, ToyValue, toy, field, text_type, logger_type, logger}
use nacelle.Examples.Toy

abbrev one_service : ServiceContainer ToyValue
one_service = record { services = (text "db", Toy.text (1 ∷ [])) ∷ [] }

abbrev wanting : List (Field ToyType ToyValue)
wanting =
    field "Db" (("service", "db") ∷ []) text_type (Toy.text [])
    ∷ field "Cache" (("service", "cache") ∷ ("optional", "true") ∷ []) text_type (Toy.text [])
    ∷ field "Log" (("service", "logger") ∷ []) logger_type logger
    ∷ []

get_logger_total_example :
    get_logger toy
      (set_all toy (new_service_container toy (Toy.text [])) ((text "logger", logger) ∷ []))
    ≡ ok (
        service_at
          (set_all toy (new_service_container toy (Toy.text [])) ((text "logger", logger) ∷ []))
          (text "logger"))
get_logger_total_example = get_logger_total toy (Toy.text []) ((text "logger", logger) ∷ [])

inject_lem_example :
    InjectResult toy one_service (struct wanting) (inject toy one_service (struct wanting))
inject_lem_example = inject_lem toy one_service (struct wanting)

set_twice_fails : (set toy one_service (text "db") logger).1 ≡ err (duplicate_service "db")
unfolding set lookup same_key serialize_key
set_twice_fails = refl

-- A logger under another key, a second service under the same key, and no logger under "logger".
abbrev calls : List (Call ToyValue)
calls =
    set_call (text "db") logger
    ∷ set_call (text "db") (Toy.text [])
    ∷ get_call (text "db")
    ∷ set_call (text "logger") (Toy.text [])
    ∷ get_call (text "logger")
    ∷ get_call (text "container")
    ∷ []

answers-new_service_container_example :
    answers toy (new_service_container toy (Toy.text [])) calls
    ≡ register_answers toy (new_register toy (Toy.text [])) calls
answers-new_service_container_example = answers-new_service_container toy (Toy.text []) calls

answered :
    answers toy (new_service_container toy (Toy.text [])) calls
    ≡ set_answer true
      ∷ set_answer false
      ∷ get_answer (some logger)
      ∷ set_answer false
      ∷ get_answer none
      ∷ get_answer (some (Toy.text []))
      ∷ []
unfolding get set set_checked new_service_container lookup insert same_key serialize_key
answered = refl
