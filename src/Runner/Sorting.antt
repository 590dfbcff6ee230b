-- ===== src/Runner/Sorting.antt =====
-- `getPriorities`: the keys of the map of processes, sorted; and the count of processes over them.
use nacelle.Prelude.{
  ◌+◌, ◌<◌, ◌≡◌, refl, ◌∙◌, inl, inr, true, false, ◌||◌, List, [], ◌∷◌, arith, Dict, has_key,
  insert, keys, mem_keys-insert, Bool-cases, All, ℤ, pos, negsuc, leb_ℤ, pos_part, neg_part,
  eqb_ℤ_iff, string_comparable, nat_comparable, int_comparable, ◌==◌,
}
use nacelle.Runner.Registry.{insert_sorted, sort}

infix 50 ◌<ℤ◌
abbrev pub ◌<ℤ◌ : ℤ → ℤ → Type 0
a <ℤ b = pos_part a + neg_part b < pos_part b + neg_part a

abbrev pub IsAscending : List ℤ → Type 0
IsAscending [] = Unit
IsAscending (p ∷ ps) = All (λ q. p <ℤ q) ps × IsAscending ps

abbrev pub IsDistinct : List ℤ → Type 0
IsDistinct [] = Unit
IsDistinct (p ∷ ps) = (has_key p ps ≡ false) × IsDistinct ps

has_key-insert_sorted :
    (p q : ℤ) (qs : List ℤ) → has_key p (insert_sorted q qs) ≡ ((q == p) || has_key p qs)
unfolding insert_sorted
has_key-insert_sorted p q [] = refl
has_key-insert_sorted p q (r ∷ rs) = ground (arith, has_key-insert_sorted p q rs)

pub has_key-sort : (p : ℤ) (ps : List ℤ) → has_key p (sort ps) ≡ has_key p ps
unfolding sort
has_key-sort p [] = refl
has_key-sort p (q ∷ qs) = ground (arith, has_key-insert_sorted p q (sort qs), has_key-sort p qs)

All-below : (p q : ℤ) (ps : List ℤ) → p <ℤ q → All (λ r. q <ℤ r) ps → All (λ r. p <ℤ r) ps
All-below p q [] h all = tt
All-below p q (r ∷ rs) h all = (omega arith, All-below p q rs h all.1)

All-insert_sorted :
    (p q : ℤ) (ps : List ℤ) → p <ℤ q → All (λ r. p <ℤ r) ps → All (λ r. p <ℤ r) (insert_sorted q ps)
unfolding insert_sorted
All-insert_sorted p q [] h all = (h, tt)
All-insert_sorted p q (r ∷ rs) h all = ground (arith, All-insert_sorted p q rs h all.1)

lt_of_le : (p q : ℤ) → leb_ℤ p q ≡ true → (p == q) ≡ false → p <ℤ q
lt_of_le (pos a) (pos b) h e = ground arith
lt_of_le (pos a) (negsuc b) h e = ground arith
lt_of_le (negsuc a) (pos b) h e = ground arith
lt_of_le (negsuc a) (negsuc b) h e = ground arith

lt_of_not_le : (p q : ℤ) → leb_ℤ p q ≡ false → q <ℤ p
lt_of_not_le p q h = ground arith

insert_sorted-IsAscending :
    (p : ℤ) (ps : List ℤ) → has_key p ps ≡ false → IsAscending ps → IsAscending (insert_sorted p ps)
unfolding insert_sorted
insert_sorted-IsAscending p [] h asc = (tt, tt)
insert_sorted-IsAscending p (q ∷ qs) h asc = elim (Bool-cases (leb_ℤ p q)) [
  | inl le ↦ rw le (below le, asc)
  | inr gt ↦ rw gt (
    All-insert_sorted q p qs (lt_of_not_le p q gt) asc.0,
    insert_sorted-IsAscending p qs (ground arith) asc.1,
  )
]
  where
    below : leb_ℤ p q ≡ true → (p <ℤ q) × All (λ r. p <ℤ r) qs
    below le =
        let h' : p <ℤ q = lt_of_le p q le (ground (arith, eqb_ℤ_iff p q, eqb_ℤ_iff q p)) in
        (h', All-below p q qs h' asc.0)

pub sort-IsAscending : (ps : List ℤ) → IsDistinct ps → IsAscending (sort ps)
unfolding sort
sort-IsAscending [] d = tt
sort-IsAscending (p ∷ ps) d =
    insert_sorted-IsAscending p (sort ps) (has_key-sort p ps ∙ d.0) (sort-IsAscending ps d.1)

module _ {V : Type 0} where
  pub insert-IsDistinct :
      (p : ℤ) (v : V) (m : Dict ℤ V) → IsDistinct (keys m) → IsDistinct (keys (insert p v m))
  unfolding insert keys
  insert-IsDistinct p v [] d = (refl, tt)
  insert-IsDistinct p v ((q, w) ∷ m) d = elim (Bool-cases (q == p)) [
    | inl same ↦ rw same (ground (arith, eqb_ℤ_iff q p))
    | inr other ↦ rw other (
      ground (arith, mem_keys-insert p q v m, eqb_ℤ_iff q p, eqb_ℤ_iff p q),
      insert-IsDistinct p v m d.1,
    )
  ]
