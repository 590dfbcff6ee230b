-- ===== src/Key.antt =====
-- util.go, and the `interface{}` keys of the containers.
use nacelle.Prelude.{
  ℕ, String, ◌≡◌, refl, ap, ◌↔◌, ◌⊎◌, inl, inr, Bool, true, false, ◌&&◌, arith, eqb, Comparable,
  string_comparable, nat_comparable, int_comparable, ◌==◌, ==_refl, str_iff,
}
use nacelle.Error.{Outcome, ok, panic, nil_dereference}

-- What a key holds: a text, a value of a named type (such as the config tokens), a value of a type
-- with a `String` method (with the text that it returns), a pointer at an address, or nothing. A key
-- of a type that Go cannot compare, on which the maps panic, is not one of these.
pub data Key : Type 0 where
  text : String → Key
  named : String → String → Key
  stringer : String → String → String → Key
  pointer : ℕ → Key → Key
  null : Key

-- Two `interface{}` values are equal if their dynamic types and their values are.
unfoldable pub same_key : Key → Key → Bool
same_key (text s) (text t) = s == t
same_key (named k s) (named l t) = (k == l) && (s == t)
same_key (stringer k s x) (stringer l t y) = (k == l) && ((s == t) && (x == y))
same_key (pointer a p) (pointer b q) = eqb a b && same_key p q
same_key null null = true
same_key _ _ = false

same_key_sound : (a b : Key) → same_key a b ≡ true → a ≡ b
unfolding same_key
same_key_sound (text s) (text t) h = ap text ((str_iff s t).0 h)
same_key_sound (named k s) (named l t) h = ground (arith, str_iff k l, str_iff s t)
same_key_sound (stringer k s x) (stringer l t y) h =
    ground (arith, str_iff k l, str_iff s t, str_iff x y)
same_key_sound (pointer a p) (pointer b q) h = ground (arith, same_key_sound p q)
same_key_sound null null h = refl
same_key_sound _ _ h = cc

same_key_refl : (a : Key) → same_key a a ≡ true
unfolding same_key
same_key_refl (text s) = ==_refl s
same_key_refl (named k s) = rw (==_refl k) (==_refl s)
same_key_refl (stringer k s x) = rw (==_refl k, ==_refl s) (==_refl x)
same_key_refl (pointer a p) = rw (==_refl a) (same_key_refl p)
same_key_refl null = refl

pub same_key_iff : (a b : Key) → (same_key a b ≡ true) ↔ (a ≡ b)
same_key_iff a b = (same_key_sound a b, λ e. rw e (same_key_refl b))

instance abbrev pub key_comparable : Comparable Key
key_comparable = record { same = same_key; same_iff = same_key_iff }

-- `t.Name()` after the loop `for t.Kind() == reflect.Ptr`. Behind a pointer, nothing is held by an
-- `interface{}`, a type without a name.
unfoldable pub type_name : Key → String
type_name (text s) = "string"
type_name (named k s) = k
type_name (stringer k s x) = k
type_name (pointer a p) = type_name p
type_name null = ""

-- A pointer to a value has the methods of the value; a pointer to a pointer has none.
unfoldable pub serialize_key : Key → Outcome String
unfolding type_name
serialize_key (text s) = ok s
serialize_key (stringer k s x) = ok x
serialize_key (pointer a (stringer k s x)) = ok x
serialize_key null = panic nil_dereference
serialize_key k = ok (type_name k)

-- The nil interface.
abbrev pub is_null : Key → Bool
is_null null = true
is_null _ = false

-- Every key but the nil interface has a text.
pub serialize_key_total :
    (k : Key)
    → ((is_null k ≡ true) × (serialize_key k ≡ panic nil_dereference))
      ⊎ ((is_null k ≡ false) × ((s : String) × (serialize_key k ≡ ok s)))
unfolding serialize_key
serialize_key_total (text s) = inr (refl, (s, refl))
serialize_key_total (named k s) = inr (refl, (k, refl))
serialize_key_total (stringer k s x) = inr (refl, (x, refl))
serialize_key_total (pointer a (text s)) = inr (refl, ("string", refl))
serialize_key_total (pointer a (named k s)) = inr (refl, (k, refl))
serialize_key_total (pointer a (stringer k s x)) = inr (refl, (x, refl))
serialize_key_total (pointer a (pointer b p)) = inr (refl, (type_name p, refl))
serialize_key_total (pointer a null) = inr (refl, ("", refl))
serialize_key_total null = inl (refl, refl)
