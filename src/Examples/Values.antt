-- ===== src/Examples/Values.antt =====
-- Trees of numbers as the values of every type, and their bytes.
use zel.Prelude.{
  ℕ, zero, suc, ◌≡◌, refl, sym, ap, ◌∙◌, String, Bytes, Result, ok, err, List, [], ◌∷◌,
}
use zel.Macros.Values.{Values}

pub data Tree : Type 0 where
  leaf : ℕ → Tree
  nil : Tree
  cons : Tree → Tree → Tree

-- The bytes of a tree before others; a pair comes after its two parts.
abbrev pub put : Tree → Bytes → Bytes
put (leaf n) rest = 0 ∷ n ∷ rest
put nil rest = 1 ∷ rest
put (cons a b) rest = put a (put b (2 ∷ rest))

abbrev read : Bytes → List Tree → Result Tree String
read [] (t ∷ []) = ok t
read (zero ∷ n ∷ rest) found = read rest (leaf n ∷ found)
read (suc zero ∷ rest) found = read rest (nil ∷ found)
read (suc (suc _) ∷ rest) (b ∷ a ∷ found) = read rest (cons a b ∷ found)
read _ _ = err "no value"

pub read-put :
    (t : Tree) (rest : Bytes) (found : List Tree) → read (put t rest) found ≡ read rest (t ∷ found)
read-put (leaf n) rest found = refl
read-put nil rest found = refl
read-put (cons a b) rest found =
    read-put a (put b (2 ∷ rest)) found ∙ read-put b (2 ∷ rest) (a ∷ found)

abbrev tuple : List Tree → Tree
tuple [] = nil
tuple (t ∷ ts) = cons t (tuple ts)

abbrev untuple : Tree → List Tree
untuple (cons a b) = a ∷ untuple b
untuple _ = []

pub untuple-tuple : (ts : List Tree) → untuple (tuple ts) ≡ ts
untuple-tuple [] = refl
untuple-tuple (t ∷ ts) = ap (λ us. t ∷ us) (untuple-tuple ts)

pub read-written :
    (t : Tree) (b : Bytes) → ◌≡◌ {A = Result Bytes String} (ok (put t [])) (ok b) → read b [] ≡ ok t
read-written t b h =
    ap (λ r. elim r [ ok c ↦ read c [] | err e ↦ read (put t []) [] ]) (sym h) ∙ read-put t [] []

abbrev pub trees : Values String
trees = record {
  Value = Tree;
  to_vec = λ t. ok (put t []);
  from_slice = λ ty b. read b [];
  IsFaithful = λ ty t. Unit;
  round_trip = λ ty t b f h. read-written t b h;
  unit_type = "()";
  tuple_type = λ tys. "tuple";
  tuple = tuple;
  untuple = untuple;
  untuple-tuple = untuple-tuple;
  tuple_faithful = λ tys vs a. tt;
}
