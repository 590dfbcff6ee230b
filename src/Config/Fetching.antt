-- ===== src/Config/Fetching.antt =====
-- `Fetch` of config.go: copies a registered struct into a target, field by field.
use nacelle.Prelude.{
  ℕ, suc, String, Bool, false, not, ◌&&◌, none, some, List, [], ◌∷◌, leb, eqb, if◌then◌else◌,
  length, Comparable, string_comparable, nat_comparable, int_comparable, bytes_comparable, ◌==◌,
  codes,
}
use nacelle.Error.{Status, ok, err, panic, must, done, field_count_mismatch, target_field_mismatch}
use nacelle.Key.{Key}
use nacelle.Reflect.{Field}
use nacelle.Config.Registry.{Chunk, EnvConfig, get}

-- The first character is a capital letter of ASCII. The name of a field is never empty.
unfoldable pub is_exported : String → Bool
is_exported name = elim (codes name) [ [] ↦ false | c ∷ _ ↦ leb b'A' c && leb c b'Z' ]

module _ {GoType Value : Type 0} where
  unfoldable pub get_exported_fields : List (Field GoType Value) → List (Field GoType Value)
  get_exported_fields [] = []
  get_exported_fields (f ∷ fs) =
      if is_exported f.name then f ∷ get_exported_fields fs else get_exported_fields fs

module _ {GoType Value : Type 0} ⦃e : Comparable GoType⦄ where
  abbrev pub same_field : Field GoType Value → Field GoType Value → Bool
  same_field s t = (s.name == t.name) && (s.type == t.type)

  abbrev pub copy_field : Field GoType Value → Field GoType Value → Field GoType Value
  copy_field s t = if t.is_valid && t.can_set then record t { value = s.value } else t

  -- The loop over the exported fields of both structs, `i` counting them. The target's fields are
  -- given with the unexported ones between, which stay.
  unfoldable pub copy_fields :
      ℕ → List (Field GoType Value) → List (Field GoType Value) → List (Field GoType Value) × Status
  copy_fields i sources [] = ([], done)
  copy_fields i [] (t ∷ ts) = (t ∷ ts, done)
  copy_fields i (s ∷ ss) (t ∷ ts) =
      let hidden = copy_fields i (s ∷ ss) ts in
      let rest = copy_fields (suc i) ss ts in
      if not (is_exported t.name)
      then (t ∷ hidden.0, hidden.1)
      else if not (same_field s t)
      then (t ∷ ts, err (target_field_mismatch i s.name))
      else (copy_field s t ∷ rest.0, rest.1)

  -- `PostLoad` of the target.
  abbrev pub run_post_load : Chunk GoType Value → Chunk GoType Value × Status
  run_post_load target = elim target.post_load [
    | none ↦ (target, done)
    | some post ↦
        let (fs, r) = post target.fields in
        (record target { fields = fs }, elim r [ none ↦ done | some x ↦ err x ])
  ]

  abbrev pub copy_chunk : Chunk GoType Value → Chunk GoType Value → Chunk GoType Value × Status
  copy_chunk config target =
      let sources = get_exported_fields config.fields in
      let (fs, r) = copy_fields 0 sources target.fields in
      if not (eqb (length sources) (length (get_exported_fields target.fields)))
      then (target, err field_count_mismatch)
      else elim r [
        | ok _ ↦ run_post_load (record target { fields = fs })
        | err x ↦ (record target { fields = fs }, err x)
        | panic p ↦ (record target { fields = fs }, panic p)
      ]

  unfoldable pub fetch :
      EnvConfig GoType Value → Key → Chunk GoType Value → Chunk GoType Value × Status
  unfolding copy_fields get_exported_fields get
  fetch c key target = elim (get c key) [
    | err x ↦ (target, err x)
    | panic p ↦ (target, panic p)
    | ok config ↦ copy_chunk config target
  ]

  unfoldable pub must_fetch :
      EnvConfig GoType Value → Key → Chunk GoType Value → Chunk GoType Value × Status
  must_fetch c key target = let (target', r) = fetch c key target in (target', must r)
