-- ===== src/Examples/Toy.antt =====
-- A small run time, an application, package json and an environment, to run the models on.
use nacelle.Prelude.{
  ℕ, String, ◌≡◌, ◌↔◌, Bool, true, false, Option, none, some, [], arith, Dict, eqb, if◌then◌else◌,
  Comparable, string_comparable, nat_comparable, int_comparable, bytes_comparable, ◌==◌, Bytes,
  codes,
}
use nacelle.Error.{foreign}
use nacelle.Reflect.{Runtime, Field}
use nacelle.Service.Inject.{other_kind}
use nacelle.Runner.World.{InitRun, Application, Execution}
use nacelle.Config.Json.{Json}
use nacelle.Config.Quoting.{unquote_json}

pub data ToyType : Type 0 where
  text_type logger_type : ToyType

pub data ToyValue : Type 0 where
  text : Bytes → ToyValue
  logger : ToyValue

abbrev pub same_type : ToyType → ToyType → Bool
same_type text_type text_type = true
same_type logger_type logger_type = true
same_type _ _ = false

pub same_type_iff : (a b : ToyType) → (same_type a b ≡ true) ↔ (a ≡ b)
same_type_iff text_type text_type = ground arith
same_type_iff text_type logger_type = ground arith
same_type_iff logger_type text_type = ground arith
same_type_iff logger_type logger_type = ground arith

instance abbrev pub toy_type_comparable : Comparable ToyType
toy_type_comparable = record { same = same_type; same_iff = same_type_iff }

abbrev pub toy_type_of : ToyValue → ToyType
toy_type_of (text b) = text_type
toy_type_of logger = logger_type

abbrev pub toy : Runtime
toy = record {
  GoType = ToyType;
  Value = ToyValue;
  go_type_comparable = toy_type_comparable;
  type_of = λ v. some (toy_type_of v);
  type_string = λ t. "toy";
  is_logger = λ v. same_type (toy_type_of v) logger_type;
  convertible_to = same_type;
  convert = λ v t. v;
}

abbrev pub field : String → Dict String String → ToyType → ToyValue → Field ToyType ToyValue
field name tags type v = record {
  name = name;
  tags = tags;
  type = type;
  is_valid = true;
  can_set = true;
  value = v;
}

-- A process whose address is 9 fails to initialize; all others do so at once.
abbrev pub toy_init : ℕ → InitRun
toy_init id = record {
  returns_at = some 0;
  result = if eqb id 9 then some (foreign 1) else none;
  wins_tie = true;
}

abbrev pub app : Application ToyType ToyValue ℕ
app = record {
  init = λ id w. (w, toy_init id);
  stop = λ id w. (w, if eqb id 3 then some (foreign 2) else none);
}

abbrev pub start : Execution ToyType ToyValue ℕ
start = record {
  world = record { container = record { services = [] }; objects = λ id. other_kind; memory = 0 };
  calls = [];
  sent = [];
}

abbrev pub read_text : Option Bytes → ToyValue → ToyValue × Bool
read_text none v = (v, false)
read_text (some b) v = (text b, true)

abbrev pub toy_string_value : ToyValue → Bytes
toy_string_value (text b) = b
toy_string_value logger = []

-- Texts are the only JSON.
abbrev pub toy_json : Json ToyType ToyValue
toy_json = record {
  unmarshal = λ b type v. read_text (unquote_json b) v;
  marshal = λ v. none;
  is_string_kind = λ type. same_type type text_type;
  string_value = toy_string_value;
}

-- APP_PORT is set to `80`, and nothing else.
abbrev pub environment : Bytes → Option Bytes
environment name = if name == codes "APP_PORT" then some (codes "80") else none
