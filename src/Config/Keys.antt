-- ===== src/Config/Keys.antt =====
-- Registering, loading and getting a configuration.
use nacelle.Prelude.{
  String, ◌≡◌, refl, ap, ◌≢◌, false, none, some, List, [], ◌∷◌, ◌++◌, arith, Dict, lookup, insert,
  lookup-insert_self, lookup-insert_ne, concat_map, string_comparable, nat_comparable,
  int_comparable, bytes_comparable,
}
use nacelle.Error.{Error, ok, err, done, already_loaded, not_loaded}
use nacelle.Key.{Key, key_comparable}
use nacelle.Config.Registry.{Chunk, EnvConfig, register, get}
use nacelle.Config.Json.{Json}
use nacelle.Config.Loading.{Environment, load, load_chunks, load_chunk}

-- A key is registered once: while the key is taken, another registration fails and changes nothing.
pub register_twice :
    {GoType Value : Type 0} (c : EnvConfig GoType Value) (k : Key)
    (first second : Chunk GoType Value)
    → (register c k first).1 ≡ done
    → ((register (register c k first).0 k second).1 ≢ done)
      × ((register (register c k first).0 k second).0 ≡ (register c k first).0)
unfolding register
register_twice c k first second h = (
  (λ e. ground (arith, lookup-insert_self k first c.chunks)),
  ground (arith, lookup-insert_self k first c.chunks),
)

module _ {GoType Value : Type 0} (json : Json GoType Value) (env : Environment) where
  pub lookup-load_chunks :
      (prefix : String) (k : Key) (m : Dict Key (Chunk GoType Value))
      → lookup k (load_chunks json env prefix m).0
        ≡ elim (lookup k m) [ none ↦ none | some c ↦ some (load_chunk json env prefix c).0 ]
  unfolding lookup load_chunks
  lookup-load_chunks prefix k [] = refl
  lookup-load_chunks prefix k ((j, c) ∷ m) = ground (arith, lookup-load_chunks prefix k m)

  abbrev pub errors_of : String → Dict Key (Chunk GoType Value) → List Error
  errors_of prefix = concat_map (λ entry. (load_chunk json env prefix entry.1).1)

  pub load_chunks-errors :
      (prefix : String) (m : Dict Key (Chunk GoType Value))
      → (load_chunks json env prefix m).1 ≡ errors_of prefix m
  unfolding load_chunks
  load_chunks-errors prefix [] = refl
  load_chunks-errors prefix ((j, c) ∷ m) =
      ap (◌++◌ (load_chunk json env prefix c).1) (load_chunks-errors prefix m)

  -- Before `Load` nothing can be got. `Load` loads every chunk on its own and returns the errors of
  -- all of them, and afterwards `Get` returns each registered chunk as it was loaded, and nothing can
  -- be registered any more.
  pub get-load :
      (c : EnvConfig GoType Value) (k : Key)
      → (c.loaded ≡ false → get c k ≡ err not_loaded)
        × ((chunk : Chunk GoType Value)
            → lookup k c.chunks ≡ some chunk
            → get (load json env c).0 k ≡ ok (load_chunk json env c.prefix chunk).0)
        × ((load json env c).1 ≡ errors_of c.prefix c.chunks)
        × ((chunk : Chunk GoType Value)
            → register (load json env c).0 k chunk ≡ ((load json env c).0, err already_loaded))
  unfolding get load register
  get-load c k = (
    (λ h. ground arith),
    (λ chunk h. ground (arith, h, lookup-load_chunks c.prefix k c.chunks)),
    load_chunks-errors c.prefix c.chunks,
    λ chunk. refl,
  )

  -- A chunk that is registered under a free key before `Load` is got after it, as it was loaded, and
  -- the chunks under other keys are got as if it had not been registered.
  pub get-load-register :
      (c : EnvConfig GoType Value) (k : Key) (chunk : Chunk GoType Value)
      → c.loaded ≡ false
      → lookup k c.chunks ≡ none
      → ((register c k chunk).1 ≡ done)
        × (get (load json env (register c k chunk).0).0 k
            ≡ ok (load_chunk json env c.prefix chunk).0)
        × ((j : Key)
            → k ≢ j
            → get (load json env (register c k chunk).0).0 j ≡ get (load json env c).0 j)
  unfolding get load register
  get-load-register c k chunk open_yet free = (
    ground arith,
    ground (
      arith,
      lookup-load_chunks c.prefix k (insert k chunk c.chunks),
      lookup-insert_self k chunk c.chunks,
    ),
    λ j apart. ground (
      arith,
      lookup-load_chunks c.prefix j (insert k chunk c.chunks),
      lookup-load_chunks c.prefix j c.chunks,
      lookup-insert_ne k j chunk c.chunks apart,
    ),
  )
