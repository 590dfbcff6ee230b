-- ===== src/Config/Copying.antt =====
-- What a successful `Fetch` leaves in its target.
use nacelle.Prelude.{
  ℕ, suc, ◌≡◌, refl, sym, ◌⊎◌, inl, inr, true, false, ◌&&◌, none, List, [], ◌∷◌, arith,
  if◌then◌else◌, Bool-cases, length, Comparable, string_comparable, nat_comparable, int_comparable,
  bytes_comparable, str_iff,
}
use mathlib.Core.Path.{subst}
use nacelle.Error.{Status, ok, done}
use nacelle.Reflect.{Field}
use nacelle.Key.{Key}
use nacelle.Config.Registry.{Chunk, EnvConfig, get}
use nacelle.Config.Fetching.{
  is_exported, get_exported_fields, copy_field, copy_fields, copy_chunk, fetch,
}

module _ {GoType Value : Type 0} ⦃e : Comparable GoType⦄ where
  -- An exported field of the target that can be set holds the value of the field of the same name,
  -- type and position in the source.
  abbrev pub Copied : Field GoType Value → Field GoType Value → Field GoType Value → Type 0
  Copied s t t' =
      (s.name ≡ t.name)
      × (s.type ≡ t.type)
      × (t' ≡ (if t.is_valid && t.can_set then record t { value = s.value } else t))

  -- The exported fields of the target against the sources, the others unchanged.
  abbrev pub AllCopied :
      List (Field GoType Value) → List (Field GoType Value) → List (Field GoType Value) → Type 0
  AllCopied ss [] [] = ss ≡ []
  AllCopied [] (t ∷ ts) (t' ∷ ts') = (is_exported t.name ≡ false) × (t' ≡ t) × AllCopied [] ts ts'
  AllCopied (s ∷ ss) (t ∷ ts) (t' ∷ ts') =
      ((is_exported t.name ≡ false) × (t' ≡ t) × AllCopied (s ∷ ss) ts ts')
      ⊎ ((is_exported t.name ≡ true) × Copied s t t' × AllCopied ss ts ts')
  AllCopied _ _ _ = ⊥

  none_left :
      (ts : List (Field GoType Value)) → 0 ≡ length (get_exported_fields ts) → AllCopied [] ts ts
  unfolding get_exported_fields
  none_left [] n = refl
  none_left (t ∷ ts) n = elim (Bool-cases (is_exported t.name)) [
    | inl exported ↦ absurd (ground arith)
    | inr hidden ↦ (hidden, refl, none_left ts (ground arith))
  ]

  AllCopied-from :
      (ss ts : List (Field GoType Value)) (r x : List (Field GoType Value) × Status)
      → r ≡ x
      → AllCopied ss ts x.0
      → AllCopied ss ts r.0
  AllCopied-from ss ts r x e h =
      subst (λ (y : List (Field GoType Value) × Status). AllCopied ss ts y.0) (sym e) h

  copy_fields-AllCopied :
      (i : ℕ) (ss ts : List (Field GoType Value))
      → length ss ≡ length (get_exported_fields ts)
      → (copy_fields i ss ts).1 ≡ done
      → AllCopied ss ts (copy_fields i ss ts).0
  unfolding copy_fields get_exported_fields
  copy_fields-AllCopied i [] [] n h = refl
  copy_fields-AllCopied i (s ∷ ss) [] n h = absurd (omega arith)
  copy_fields-AllCopied i [] (t ∷ ts) n h = none_left (t ∷ ts) n
  copy_fields-AllCopied i (s ∷ ss) (t ∷ ts) n h = elim (Bool-cases (is_exported t.name)) [
    | inr hidden ↦
        AllCopied-from (s ∷ ss) (t ∷ ts) (copy_fields i (s ∷ ss) (t ∷ ts))
          (t ∷ (copy_fields i (s ∷ ss) ts).0, (copy_fields i (s ∷ ss) ts).1) (ground arith)
          (inl (hidden, refl, copy_fields-AllCopied i (s ∷ ss) ts (ground arith) (ground arith)))
    | inl exported ↦
        AllCopied-from (s ∷ ss) (t ∷ ts) (copy_fields i (s ∷ ss) (t ∷ ts))
          (copy_field s t ∷ (copy_fields (suc i) ss ts).0, (copy_fields (suc i) ss ts).1)
          (ground arith)
          (inr (
            exported,
            (ground (arith, str_iff s.name t.name), ground (arith, e.same_iff s.type t.type), refl),
            copy_fields-AllCopied (suc i) ss ts (ground arith) (ground arith),
          ))
  ]

  copy_chunk-AllCopied :
      (config target : Chunk GoType Value)
      → target.post_load ≡ none
      → (copy_chunk config target).1 ≡ done
      → AllCopied
          (get_exported_fields config.fields)
          target.fields
          (copy_chunk config target).0.fields
  copy_chunk-AllCopied config target no_post_load h =
      subst (AllCopied (get_exported_fields config.fields) target.fields) (ground arith) (
        copy_fields-AllCopied 0 (get_exported_fields config.fields) target.fields (ground arith)
          (ground arith))

  -- A `Fetch` of a loaded key into a target without `PostLoad` that succeeds copies the registered
  -- struct: the target has the same exported fields, by name, type and position, those that can be
  -- set hold the registered values, and the unexported ones are as they were.
  pub fetch_lem :
      (c : EnvConfig GoType Value) (key : Key) (config target : Chunk GoType Value)
      → get c key ≡ ok config
      → target.post_load ≡ none
      → (fetch c key target).1 ≡ done
      → AllCopied (get_exported_fields config.fields) target.fields (fetch c key target).0.fields
  unfolding fetch
  fetch_lem c key config target got no_post_load h =
      let e : copy_chunk config target ≡ fetch c key target = ground arith in
      subst
        (λ (r : Chunk GoType Value × Status).
          AllCopied (get_exported_fields config.fields) target.fields r.0.fields)
        e (copy_chunk-AllCopied config target no_post_load (ground arith))
