-- ===== src/Config/Ordering.antt =====
-- The order of the map of chunks in config.go, which Go leaves open: `Load` does not depend on it.
use nacelle.Prelude.{
  String, ◌≡◌, refl, sym, ap, ◌∙◌, ◌⊎◌, inl, inr, Bool, false, ◌||◌, List, [], ◌∷◌, ◌++◌,
  append_assoc, arith, Dict, has_key, lookup, insert, keys, mem_keys-insert, Bool-cases,
  Option-cases, concat_map, string_comparable, nat_comparable, int_comparable, bytes_comparable,
  ◌==◌,
}
use mathlib.Core.Path.{subst}
use mathlib.Core.List.Permᴰ
use mathlib.Core.List.{Permᴰ}
use nacelle.Key.{Key, same_key_iff, key_comparable}
use nacelle.Config.Registry.{Chunk, EnvConfig, get, register, new_env_config}
use nacelle.Config.Json.{Json}
use nacelle.Config.Loading.{Environment, load, load_chunk, load_chunks}
use nacelle.Config.Keys.{lookup-load_chunks, load_chunks-errors, errors_of}

-- A map has a key once.
abbrev pub IsDistinct : {V : Type 0} → Dict Key V → Type 0
IsDistinct [] = Unit {0}
IsDistinct ((k, v) ∷ m) = (has_key k (keys m) ≡ false) × IsDistinct m

module _ {V : Type 0} where
  -- `f` on a swapped list, where the swap of the data type names both pairs twice.
  swapped {ℓ} :
      {B : Type ℓ} {a b a' b' : Key × V} {l : Dict Key V} (f : Dict Key V → B)
      → a ≡ b'
      → b ≡ a'
      → f (b ∷ a ∷ l) ≡ f (a' ∷ b' ∷ l)
  swapped {a} {b} {a'} {b'} {l} f e e' = ap (λ x. f (x ∷ a ∷ l)) e' ∙ ap (λ x. f (a' ∷ x ∷ l)) e

  has_key-Permᴰ :
      {m m' : Dict Key V} (k : Key) → Permᴰ m m' → has_key k (keys m) ≡ has_key k (keys m')
  unfolding keys
  has_key-Permᴰ k Permᴰ.nil = refl
  has_key-Permᴰ k (Permᴰ.cons e p) = cc (e, has_key-Permᴰ k p)
  has_key-Permᴰ k (Permᴰ.swap {a = a} {b = b} {l = l} e e') =
      or_swap (a.0 == k) (b.0 == k) (has_key k (keys l))
      ∙ swapped {l = l} (λ m. has_key k (keys m)) e e'
    where
      or_swap : (x y z : Bool) → (x || (y || z)) ≡ (y || (x || z))
      or_swap x y z = ground arith
  has_key-Permᴰ k (Permᴰ.trans p q) = has_key-Permᴰ k p ∙ has_key-Permᴰ k q

  IsDistinct-swap :
      (a b : Key × V) (l : Dict Key V) → IsDistinct (a ∷ b ∷ l) → IsDistinct (b ∷ a ∷ l)
  unfolding keys
  IsDistinct-swap a b l (fresh, (fresh', d)) =
      (ground (arith, same_key_iff a.0 b.0, same_key_iff b.0 a.0), (ground arith, d))

  IsDistinct-Permᴰ : {m m' : Dict Key V} → Permᴰ m m' → IsDistinct m → IsDistinct m'
  IsDistinct-Permᴰ Permᴰ.nil d = d
  IsDistinct-Permᴰ (Permᴰ.cons {l₂ = l₂} e p) (fresh, d) = (
    ap (λ x. has_key x.0 (keys l₂)) (sym e) ∙ sym (has_key-Permᴰ _ p) ∙ fresh,
    IsDistinct-Permᴰ p d,
  )
  IsDistinct-Permᴰ (Permᴰ.swap {a = a} {b = b} {l = l} e e') d =
      subst (λ t. t) (swapped {l = l} IsDistinct e e') (IsDistinct-swap a b l d)
  IsDistinct-Permᴰ (Permᴰ.trans p q) d = IsDistinct-Permᴰ q (IsDistinct-Permᴰ p d)

  lookup-swap :
      (k : Key) (a b : Key × V) (l : Dict Key V)
      → IsDistinct (a ∷ b ∷ l)
      → lookup k (a ∷ b ∷ l) ≡ lookup k (b ∷ a ∷ l)
  unfolding lookup keys
  lookup-swap k a b l (fresh, _) =
      ground
        (arith, same_key_iff a.0 b.0, same_key_iff b.0 a.0, same_key_iff a.0 k, same_key_iff b.0 k)

  lookup-Permᴰ :
      {m m' : Dict Key V} (k : Key) → Permᴰ m m' → IsDistinct m → lookup k m ≡ lookup k m'
  unfolding lookup
  lookup-Permᴰ k Permᴰ.nil d = refl
  lookup-Permᴰ k (Permᴰ.cons e p) (fresh, d) = cc (e, lookup-Permᴰ k p d)
  lookup-Permᴰ k (Permᴰ.swap {a = a} {b = b} {l = l} e e') d =
      lookup-swap k a b l d ∙ swapped {l = l} (lookup k) e e'
  lookup-Permᴰ k (Permᴰ.trans p q) d = lookup-Permᴰ k p d ∙ lookup-Permᴰ k q (IsDistinct-Permᴰ p d)

append_swap : {B : Type 0} (xs ys zs : List B) → Permᴰ (xs ++ (ys ++ zs)) (ys ++ (xs ++ zs))
append_swap xs ys zs =
    subst (λ l. Permᴰ l (ys ++ (xs ++ zs))) (append_assoc xs ys zs)
      (subst (λ l. Permᴰ ((xs ++ ys) ++ zs) l) (append_assoc ys xs zs)
        (Permᴰ.append_right zs (Permᴰ.append_comm xs ys)))

concat_map-Permᴰ :
    {A B : Type 0} (f : A → List B) {xs ys : List A}
    → Permᴰ xs ys
    → Permᴰ (concat_map f xs) (concat_map f ys)
concat_map-Permᴰ f Permᴰ.nil = Permᴰ.nil
concat_map-Permᴰ f (Permᴰ.cons {b = b} {l₁ = l₁} {l₂ = l₂} e p) =
    subst (λ x. Permᴰ (f x ++ concat_map f l₁) (f b ++ concat_map f l₂)) (sym e)
      (Permᴰ.append_left (f b) (concat_map-Permᴰ f p))
concat_map-Permᴰ f (Permᴰ.swap {a = a} {b = b} {a' = a'} {l = l} e e') =
    subst (λ t. Permᴰ (f a ++ (f b ++ concat_map f l)) t)
      (ap (λ x. f x ++ (f a ++ concat_map f l)) e' ∙ ap (λ x. f a' ++ (f x ++ concat_map f l)) e)
      (append_swap (f a) (f b) (concat_map f l))
concat_map-Permᴰ f (Permᴰ.trans p q) = Permᴰ.trans (concat_map-Permᴰ f p) (concat_map-Permᴰ f q)

insert-IsDistinct :
    {V : Type 0} (k : Key) (v : V) (m : Dict Key V) → IsDistinct m → IsDistinct (insert k v m)
unfolding insert keys
insert-IsDistinct k v [] d = (refl, tt)
insert-IsDistinct k v ((j, w) ∷ m) (fresh, d) = elim (Bool-cases (j == k)) [
  | inl same ↦ rw same (ground (arith, fresh, (same_key_iff j k).0 same), d)
  | inr other ↦ rw other (
    ground (arith, fresh, mem_keys-insert k j v m, same_key_iff j k, same_key_iff k j),
    insert-IsDistinct k v m d,
  )
]

register-chunks :
    {GoType Value : Type 0} (c : EnvConfig GoType Value) (k : Key) (chunk : Chunk GoType Value)
    → ((register c k chunk).0.chunks ≡ c.chunks)
      ⊎ ((register c k chunk).0.chunks ≡ insert k chunk c.chunks)
unfolding register
register-chunks c k chunk = elim (Bool-cases c.loaded) [
  | inl loaded ↦ inl (ground arith)
  | inr fresh ↦ elim (Option-cases (lookup k c.chunks)) [
    | inl free ↦ inr (ground arith)
    | inr (_, taken) ↦ inl (ground arith)
  ]
]

-- Registration keeps the map so that it has each key once.
register-IsDistinct :
    {GoType Value : Type 0} (c : EnvConfig GoType Value) (k : Key) (chunk : Chunk GoType Value)
    → IsDistinct c.chunks
    → IsDistinct (register c k chunk).0.chunks
register-IsDistinct c k chunk d = elim (register-chunks c k chunk) [
  | inl e ↦ subst IsDistinct (sym e) d
  | inr e ↦ subst IsDistinct (sym e) (insert-IsDistinct k chunk c.chunks d)
]

-- Registrations, of which those under a key that is taken fail.
abbrev pub register_all :
    {GoType Value : Type 0}
    → List (Key × Chunk GoType Value)
    → EnvConfig GoType Value
    → EnvConfig GoType Value
register_all [] c = c
register_all ((k, chunk) ∷ calls) c = register_all calls (register c k chunk).0

register_all-IsDistinct :
    {GoType Value : Type 0} (calls : List (Key × Chunk GoType Value)) (c : EnvConfig GoType Value)
    → IsDistinct c.chunks
    → IsDistinct (register_all calls c).chunks
register_all-IsDistinct [] c d = d
register_all-IsDistinct ((k, chunk) ∷ calls) c d =
    register_all-IsDistinct calls (register c k chunk).0 (register-IsDistinct c k chunk d)

-- Where a map that has each key once is ranged over in another order, `Load` returns the same
-- errors, in another order, and every key is got with the same result afterwards.
load-Permᴰ :
    {GoType Value : Type 0} (json : Json GoType Value) (env : Environment)
    (c c' : EnvConfig GoType Value)
    → c.prefix ≡ c'.prefix
    → Permᴰ c.chunks c'.chunks
    → IsDistinct c.chunks
    → Permᴰ (load json env c).1 (load json env c').1
      × ((k : Key) → get (load json env c).0 k ≡ get (load json env c').0 k)
unfolding load get
load-Permᴰ json env c c' same p d = (
  subst (λ es. Permᴰ (load_chunks json env c.prefix c.chunks).1 es)
      (sym (load_chunks-errors json env c'.prefix c'.chunks))
      (subst (λ es. Permᴰ es (errors_of json env c'.prefix c'.chunks))
        (sym (
          load_chunks-errors json env c.prefix c.chunks
          ∙ ap (λ prefix. errors_of json env prefix c.chunks) same))
        (concat_map-Permᴰ (λ entry. (load_chunk json env c'.prefix entry.1).1) p)),
  λ k. ground (
    arith,
    same,
    lookup-Permᴰ k p d,
    lookup-load_chunks json env c.prefix k c.chunks,
    lookup-load_chunks json env c'.prefix k c'.chunks,
  ),
)

-- After any registrations in a new configuration, where `Load` ranges over the map of chunks in
-- another order, it returns the same errors, in another order, and every key is got with the same
-- result afterwards.
pub load-register_all :
    {GoType Value : Type 0} (json : Json GoType Value) (env : Environment) (prefix : String)
    (calls : List (Key × Chunk GoType Value)) (c' : EnvConfig GoType Value)
    → let c = register_all calls (new_env_config prefix) in
      c.prefix ≡ c'.prefix
      → Permᴰ c.chunks c'.chunks
      → Permᴰ (load json env c).1 (load json env c').1
        × ((k : Key) → get (load json env c).0 k ≡ get (load json env c').0 k)
unfolding new_env_config
load-register_all json env prefix calls c' same p =
    load-Permᴰ json env _ c' same p (register_all-IsDistinct calls (new_env_config prefix) tt)
