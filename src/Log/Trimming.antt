-- ===== src/Log/Trimming.antt =====
-- `trimPath` of log/caller.go, which the field `caller` of every message goes through.
use nacelle.Prelude.{
  ℕ, suc, ◌≡◌, refl, ap, ◌∙◌, false, none, some, [], ◌∷◌, ◌++◌, append_assoc, eqb, length, All,
  string_comparable, nat_comparable, int_comparable, bytes_comparable, Bytes,
}
use mathlib.Core.Path.{subst}
use nacelle.Log.Message.{last_index_byte, slice_to, slice_from, trim_path}

-- The text has no slash.
abbrev pub IsName : Bytes → Type 0
IsName s = All (λ c. eqb c b'/' ≡ false) s

last_index_byte-IsName : (s : Bytes) → IsName s → last_index_byte s b'/' ≡ none
unfolding last_index_byte
last_index_byte-IsName [] h = refl
last_index_byte-IsName (c ∷ s) (h, hs) = rw (last_index_byte-IsName s hs, h) refl

last_index_byte-append :
    (pre name : Bytes) → IsName name → last_index_byte (pre ++ b'/' ∷ name) b'/' ≡ some (length pre)
unfolding last_index_byte
last_index_byte-append [] name h = rw (last_index_byte-IsName name h) refl
last_index_byte-append (c ∷ pre) name h = rw (last_index_byte-append pre name h) refl

slice_to-append : (pre post : Bytes) → slice_to (pre ++ post) (length pre) ≡ pre
slice_to-append [] [] = refl
slice_to-append [] (c ∷ post) = refl
slice_to-append (c ∷ pre) post = ap (λ s. c ∷ s) (slice_to-append pre post)

slice_from-append :
    (pre post : Bytes) (c : ℕ) → slice_from (pre ++ c ∷ post) (suc (length pre)) ≡ post
slice_from-append [] post c = refl
slice_from-append (b ∷ pre) post c = slice_from-append pre post c

no_slash : (path : Bytes) → last_index_byte path b'/' ≡ none → trim_path path ≡ path
unfolding trim_path
no_slash path h = rw (trim_path, h) refl

one_slash :
    (path : Bytes) (i : ℕ)
    → last_index_byte path b'/' ≡ some i
    → last_index_byte (slice_to path i) b'/' ≡ none
    → trim_path path ≡ path
unfolding trim_path
one_slash path i h k = rw (trim_path, h, k) refl

two_slashes :
    (path : Bytes) (i j : ℕ)
    → last_index_byte path b'/' ≡ some i
    → last_index_byte (slice_to path i) b'/' ≡ some j
    → trim_path path ≡ slice_from path (suc j)
unfolding trim_path
two_slashes path i j h k = rw (trim_path, h, k) refl

-- A path with at least two slashes is cut down to its last two components, and any other path is
-- left as it is, where the components have no slash.
pub trim_path_lem :
    (pre directory file : Bytes)
    → IsName directory
    → IsName file
    → (trim_path (pre ++ b'/' ∷ (directory ++ b'/' ∷ file)) ≡ directory ++ b'/' ∷ file)
      × (trim_path (directory ++ b'/' ∷ file) ≡ directory ++ b'/' ∷ file)
      × (trim_path file ≡ file)
trim_path_lem pre directory file d f =
    let path = pre ++ b'/' ∷ (directory ++ b'/' ∷ file) in
    let start = pre ++ b'/' ∷ directory in
    let split : start ++ b'/' ∷ file ≡ path = append_assoc pre (b'/' ∷ directory) (b'/' ∷ file) in
    let cut : slice_to path (length start) ≡ start =
      subst (λ p. slice_to p (length start) ≡ start) split (slice_to-append start (b'/' ∷ file)) in
    (
      two_slashes path (length start) (length pre)
            (subst (λ p. last_index_byte p b'/' ≡ some (length start)) split
              (last_index_byte-append start file f))
            (ap (λ p. last_index_byte p b'/') cut ∙ last_index_byte-append pre directory d)
          ∙ slice_from-append pre (directory ++ b'/' ∷ file) b'/',
      one_slash (directory ++ b'/' ∷ file) (length directory)
          (last_index_byte-append directory file f)
          (ap (λ p. last_index_byte p b'/') (slice_to-append directory (b'/' ∷ file))
            ∙ last_index_byte-IsName directory d),
      no_slash file (last_index_byte-IsName file f),
    )
