-- ===== src/Examples/Text.antt =====
-- A concrete encoding of texts, for the examples: each character as its code plus one, then 0.
use zel.Prelude.{ℕ, zero, suc, ◌≡◌, refl, ap, ◌∙◌, Option, none, some, Bytes, String, List, [], ◌∷◌}
use Prim.Native.Nat.{compare, Ordering}
use Prim.Native.Char.{Char, char, code, IsScalar, IsLt}
use text.Mathlib.TextBridge.{to_list, of_list, of_list-to_list}

-- `IsScalar` as a function of the three comparisons.
abbrev BothLt : Ordering → Ordering → Type 0
BothLt Ordering.lt o = IsLt o
BothLt Ordering.eq _ = ⊥
BothLt Ordering.gt _ = ⊥

abbrev Scalar : Ordering → Ordering → Ordering → Type 0
Scalar Ordering.lt _ _ = Unit
Scalar Ordering.eq o p = BothLt o p
Scalar Ordering.gt o p = BothLt o p

abbrev find_lt : (o : Ordering) → Option (IsLt o)
find_lt Ordering.lt = some tt
find_lt _ = none

abbrev find_both : (o p : Ordering) → Option (BothLt o p)
find_both Ordering.lt p = find_lt p
find_both Ordering.eq p = none
find_both Ordering.gt p = none

abbrev find : (o p q : Ordering) → Option (Scalar o p q)
find Ordering.lt p q = some tt
find Ordering.eq p q = find_both p q
find Ordering.gt p q = find_both p q

find_lt-some : (o : Ordering) (p : IsLt o) → find_lt o ≡ some p
find_lt-some Ordering.lt p = refl
find_lt-some Ordering.eq p = absurd p
find_lt-some Ordering.gt p = absurd p

find_both-some : (o q : Ordering) (p : BothLt o q) → find_both o q ≡ some p
find_both-some Ordering.lt q p = find_lt-some q p
find_both-some Ordering.eq q p = absurd p
find_both-some Ordering.gt q p = absurd p

find-some : (o q r : Ordering) (p : Scalar o q r) → find o q r ≡ some p
find-some Ordering.lt q r p = refl
find-some Ordering.eq q r p = find_both-some q r p
find-some Ordering.gt q r p = find_both-some q r p

abbrev with_scalar : (n : ℕ) → Option (IsScalar n) → Option Char
with_scalar n none = none
with_scalar n (some p) = some (char n p)

abbrev character : ℕ → Option Char
character n = with_scalar n (find (compare n 55296) (compare 57343 n) (compare n 1114112))

character-code : (c : Char) → character (code c) ≡ some c
character-code (char n p) =
    ap (with_scalar n) (find-some (compare n 55296) (compare 57343 n) (compare n 1114112) p)

abbrev put_all : List Char → Bytes → Bytes
put_all [] rest = 0 ∷ rest
put_all (c ∷ cs) rest = suc (code c) ∷ put_all cs rest

abbrev extend : Option Char → Option (List Char × Bytes) → Option (List Char × Bytes)
extend (some c) (some (cs, rest)) = some (c ∷ cs, rest)
extend _ _ = none

abbrev get_all : Bytes → Option (List Char × Bytes)
get_all [] = none
get_all (zero ∷ rest) = some ([], rest)
get_all (suc n ∷ rest) = extend (character n) (get_all rest)

get_all-put_all : (cs : List Char) (rest : Bytes) → get_all (put_all cs rest) ≡ some (cs, rest)
get_all-put_all [] rest = refl
get_all-put_all (c ∷ cs) rest =
    ap (λ o. extend o (get_all (put_all cs rest))) (character-code c)
    ∙ ap (extend (some c)) (get_all-put_all cs rest)

abbrev pub put : String → Bytes → Bytes
put s rest = put_all (to_list s) rest

abbrev text_of : Option (List Char × Bytes) → Option (String × Bytes)
text_of none = none
text_of (some (cs, rest)) = some (of_list cs, rest)

abbrev pub get : Bytes → Option (String × Bytes)
get b = text_of (get_all b)

pub get-put : (s : String) (rest : Bytes) → get (put s rest) ≡ some (s, rest)
get-put s rest =
    ap text_of (get_all-put_all (to_list s) rest) ∙ ap (λ t. some (t, rest)) (of_list-to_list s)
