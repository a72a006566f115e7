-- ===== src/Value.antt =====
-- The values behind Go's interface{} in decoded JSON and in unstructured objects, the copy that
-- internal/tools/deepcopy/deepcopy.go makes of them, and apimachinery's NestedFieldNoCopy.
-- int, int32 and int64 are one constructor, since the code treats them alike. A float64 is its
-- bit pattern; what Go computes with it is a parameter of the definitions that need it.
use krateo_rest_dynamic_cont.Base.{ℕ, ◌≡◌, refl, Bool, List, [], ◌∷◌, Text, ℤ}

mutual
  pub data Value : Type 0 where
    null : Value
    bool : Bool → Value
    str : Text → Value
    int : ℤ → Value
    float : ℕ → Value
    arr : Items → Value
    obj : Fields → Value

  pub data Items : Type 0 where
    nil : Items
    cons : Value → Items → Items

  pub data Fields : Type 0 where
    end : Fields
    field : Text → Value → Fields → Fields

-- The elements of a []interface{} and the entries of a map[string]interface{}, as lists.
abbrev pub elems : Items → List Value
elems nil = []
elems (cons v vs) = v ∷ elems vs

abbrev pub of_elems : List Value → Items
of_elems [] = nil
of_elems (v ∷ vs) = cons v (of_elems vs)

abbrev pub entries : Fields → List (Text × Value)
entries end = []
entries (field k v fs) = (k, v) ∷ entries fs

abbrev pub of_entries : List (Text × Value) → Fields
of_entries [] = end
of_entries ((k, v) ∷ m) = field k v (of_entries m)

pub elems-of_elems : (vs : List Value) → elems (of_elems vs) ≡ vs
elems-of_elems [] = refl
elems-of_elems (v ∷ vs) = λ i. v ∷ elems-of_elems vs i

pub of_elems-elems : (xs : Items) → of_elems (elems xs) ≡ xs
of_elems-elems nil = refl
of_elems-elems (cons v xs) = λ i. cons v (of_elems-elems xs i)

pub entries-of_entries : (m : List (Text × Value)) → entries (of_entries m) ≡ m
entries-of_entries [] = refl
entries-of_entries ((k, v) ∷ m) = λ i. (k, v) ∷ entries-of_entries m i

pub of_entries-entries : (fs : Fields) → of_entries (entries fs) ≡ fs
of_entries-entries end = refl
of_entries-entries (field k v fs) = λ i. field k v (of_entries-entries fs i)
