-- ===== src/Config/Masking.antt =====
-- Masked fields do not show in `ToMap`.
use nacelle.Prelude.{
  ◌≡◌, refl, sym, ap, ◌∙◌, ◌≢◌, ◌⊎◌, inl, inr, true, some, List, [], ◌∷◌, arith, Dict,
  string_comparable, nat_comparable, int_comparable, bytes_comparable, str_iff, Bytes,
}
use nacelle.Error.{Error, Outcome, ok, err, panic, ◌>>=◌}
use nacelle.Key.{Key}
use nacelle.Reflect.{Field, tag_value, parse_bool}
use nacelle.Config.Registry.{Chunk, EnvConfig}
use nacelle.Config.Json.{Json}
use nacelle.Config.Dumping.{dump_field, dump_fields, dump_chunks, to_map}

module _ {GoType Value : Type 0} where
  -- The field's value is to be kept out of the map.
  abbrev pub IsMasked : Field GoType Value → Type 0
  IsMasked f = (tag_value "mask" f.tags ≢ "") × (parse_bool (tag_value "mask" f.tags) ≡ some true)

  -- The same fields, but for the values of masked ones.
  abbrev pub SameUnmasked : List (Field GoType Value) → List (Field GoType Value) → Type 0
  SameUnmasked [] [] = Unit
  SameUnmasked (f ∷ fs) (g ∷ gs) =
      ((f ≡ g) ⊎ (IsMasked f × (g ≡ record f { value = g.value }))) × SameUnmasked fs gs
  SameUnmasked _ _ = ⊥

  abbrev pub SameChunks : Dict Key (Chunk GoType Value) → Dict Key (Chunk GoType Value) → Type 0
  SameChunks [] [] = Unit
  SameChunks ((k, c) ∷ cs) ((j, d) ∷ ds) = SameUnmasked c.fields d.fields × SameChunks cs ds
  SameChunks _ _ = ⊥

module _ {GoType Value : Type 0} (json : Json GoType Value) (marshal_error : Value → Error) where
  dump_field-hidden :
      (f : Field GoType Value) (m : Dict Bytes Bytes)
      → IsMasked f
      → dump_field json marshal_error f m ≡ ok m
  unfolding dump_field
  dump_field-hidden f m (tagged, masked) =
      ground (arith, tagged, masked, str_iff (tag_value "mask" f.tags) "")

  dump_field-masked :
      (f g : Field GoType Value) (m : Dict Bytes Bytes)
      → (f ≡ g) ⊎ (IsMasked f × (g ≡ record f { value = g.value }))
      → dump_field json marshal_error f m ≡ dump_field json marshal_error g m
  dump_field-masked f g m (inl e) = ap (λ h. dump_field json marshal_error h m) e
  dump_field-masked f g m (inr (masked, e)) =
      dump_field-hidden f m masked
      ∙ sym (
          ap (λ h. dump_field json marshal_error h m) e
          ∙ dump_field-hidden (record f { value = g.value }) m masked)

  dump_fields-masked :
      (fs gs : List (Field GoType Value)) (m : Dict Bytes Bytes)
      → SameUnmasked fs gs
      → dump_fields json marshal_error fs m ≡ dump_fields json marshal_error gs m
  unfolding dump_fields
  dump_fields-masked [] [] m h = refl
  dump_fields-masked [] (g ∷ gs) m h = absurd h
  dump_fields-masked (f ∷ fs) [] m h = absurd h
  dump_fields-masked (f ∷ fs) (g ∷ gs) m (same, rest) =
      ap (λ r. r >>= dump_fields json marshal_error fs) (dump_field-masked f g m same)
      ∙ after (dump_field json marshal_error g m) (λ m'. dump_fields-masked fs gs m' rest)
    where
      after :
          (r : Outcome (Dict Bytes Bytes))
          → ((m' : Dict Bytes Bytes)
              → dump_fields json marshal_error fs m' ≡ dump_fields json marshal_error gs m')
          → (r >>= dump_fields json marshal_error fs) ≡ (r >>= dump_fields json marshal_error gs)
      after (ok m') h = h m'
      after (err e) h = refl
      after (panic p) h = refl

  dump_chunks-masked :
      (cs ds : Dict Key (Chunk GoType Value)) (m : Dict Bytes Bytes)
      → SameChunks cs ds
      → dump_chunks json marshal_error cs m ≡ dump_chunks json marshal_error ds m
  unfolding dump_chunks
  dump_chunks-masked [] [] m h = refl
  dump_chunks-masked [] (d ∷ ds) m h = absurd h
  dump_chunks-masked (c ∷ cs) [] m h = absurd h
  dump_chunks-masked ((k, c) ∷ cs) ((j, d) ∷ ds) m (same, rest) =
      ap (λ r. r >>= dump_chunks json marshal_error cs)
        (dump_fields-masked c.fields d.fields m same)
      ∙ after (dump_fields json marshal_error d.fields m) (λ m'. dump_chunks-masked cs ds m' rest)
    where
      after :
          (r : Outcome (Dict Bytes Bytes))
          → ((m' : Dict Bytes Bytes)
              → dump_chunks json marshal_error cs m' ≡ dump_chunks json marshal_error ds m')
          → (r >>= dump_chunks json marshal_error cs) ≡ (r >>= dump_chunks json marshal_error ds)
      after (ok m') h = h m'
      after (err e) h = refl
      after (panic p) h = refl

  -- Two configurations that differ only in the values of masked fields have the same `ToMap`, or
  -- the same error: nothing of a masked value is shown.
  pub to_map-masked :
      (c d : EnvConfig GoType Value)
      → SameChunks c.chunks d.chunks
      → to_map json marshal_error c ≡ to_map json marshal_error d
  unfolding to_map
  to_map-masked c d h = dump_chunks-masked c.chunks d.chunks [] h
