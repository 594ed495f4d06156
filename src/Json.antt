-- ===== src/Json.antt =====
-- The JSON values that the service's functions pass around, with Python's `get`, `==` and truth.
-- A number that is not an integer stands as its text; an object lists its keys in order.
use Prim.Native.String.{compare}
use Prim.Native.Nat.{Ordering}
use stepstitch.Prelude.{
  refl, inr, arith, eq_iff, inl, Bool-cases, ◌≡◌, String, Bool, true, false, not, ◌&&◌, ◌||◌,
  Option, none, some, List, [], ◌∷◌, str_eq, if◌then◌else◌, ◌==◌, contains, sort_by,
}
use stepstitch.Prelude.Int.{ℤ, pos, negsuc, is_zero}

mutual
  pub data Json : Type 0 where
    null : Json
    bool : Bool → Json
    num : ℤ → Json
    real : String → Json
    str : String → Json
    arr : Items → Json
    obj : Fields → Json

  pub data Items : Type 0 where
    nil : Items
    cons : Json → Items → Items

  pub data Fields : Type 0 where
    end : Fields
    field : String → Json → Fields → Fields

-- `d.get(k)`, with no value where the key is missing.
unfoldable pub lookup : String → Fields → Option Json
lookup k end = none
lookup k (field j v d) = if str_eq j k then some v else lookup k d

-- `d.get(k)`: a missing key reads as None.
abbrev pub get : String → Fields → Json
get k d = elim (lookup k d) [ none ↦ null | some v ↦ v ]

-- `bool(v)`.
abbrev pub truthy : Json → Bool
truthy null = false
truthy (bool b) = b
truthy (num z) = not (is_zero z)
truthy (real s) = not (str_eq s "0.0" || str_eq s "-0.0")
truthy (str s) = not (str_eq s "")
truthy (arr nil) = false
truthy (arr (cons _ _)) = true
truthy (obj end) = false
truthy (obj (field _ _ _)) = true

abbrev pub is_str : Json → String → Bool
is_str (str s) t = str_eq s t
is_str _ t = false

abbrev pub is_null : Json → Bool
is_null null = true
is_null _ = false

abbrev pub is_true : Json → Bool
is_true (bool true) = true
is_true _ = false

abbrev pub is_false : Json → Bool
is_false (bool false) = true
is_false _ = false

unfoldable pub keys : Fields → List String
keys end = []
keys (field k v d) = k ∷ keys d

-- `{k: v for k, v in d.items() if k not in dropped}`.
unfoldable pub drop_keys : List String → Fields → Fields
drop_keys dropped end = end
drop_keys dropped (field k v d) =
    let rest = drop_keys dropped d in if contains k dropped then rest else field k v rest

-- `{k: d[k] for k in ks}`, or nothing if a key is missing.
unfoldable pub extract : List String → Fields → Option Fields
extract [] d = some end
extract (k ∷ ks) d = elim (lookup k d) [
  | none ↦ none
  | some v ↦ elim (extract ks d) [ none ↦ none | some r ↦ some (field k v r) ]
]

abbrev pub str_leb : String → String → Bool
str_leb s t = elim (compare s t) [ Ordering.gt ↦ false | _ ↦ true ]

unfoldable pub sorted : List String → List String
unfolding sort_by
sorted = sort_by str_leb

abbrev z_eq : ℤ → ℤ → Bool
z_eq (pos m) (pos n) = m == n
z_eq (negsuc m) (negsuc n) = m == n
z_eq _ _ = false

abbrev bool_num : Bool → ℤ
bool_num true = pos 1
bool_num false = pos 0

abbrev pub size : Fields → List (Unit {0})
size end = []
size (field _ _ d) = tt ∷ size d

abbrev same_size : Fields → Fields → Bool
same_size end end = true
same_size (field _ _ d) (field _ _ e) = same_size d e
same_size end (field _ _ e) = false
same_size (field _ _ d) end = false

-- `v == w`: a Boolean is the number 0 or 1, and an object's order of keys does not matter.
unfoldable mutual
  pub json_eq : Json → Json → Bool
  json_eq null null = true
  json_eq (bool a) (bool b) = z_eq (bool_num a) (bool_num b)
  json_eq (bool a) (num n) = z_eq (bool_num a) n
  json_eq (num m) (bool b) = z_eq m (bool_num b)
  json_eq (num m) (num n) = z_eq m n
  json_eq (real s) (real t) = str_eq s t
  json_eq (str s) (str t) = str_eq s t
  json_eq (arr xs) (arr ys) = items_eq xs ys
  json_eq (obj d) (obj e) = same_size d e && fields_eq d e
  json_eq _ _ = false

  pub items_eq : Items → Items → Bool
  items_eq nil nil = true
  items_eq (cons x xs) (cons y ys) = json_eq x y && items_eq xs ys
  items_eq _ _ = false

  pub fields_eq : Fields → Fields → Bool
  fields_eq end e = true
  fields_eq (field k v d) e = elim (lookup k e) [
    | none ↦ false
    | some w ↦ json_eq v w && fields_eq d e
  ]

-- A list of texts as a JSON array.
unfoldable pub texts : List String → Items
texts [] = nil
texts (s ∷ ss) = cons (str s) (texts ss)

pub contains-drop_keys :
    (k : String) (dropped : List String) (d : Fields)
    → contains k (keys (drop_keys dropped d)) ≡ (contains k (keys d) && not (contains k dropped))
unfolding keys drop_keys
contains-drop_keys k dropped end = refl
contains-drop_keys k dropped (field j v d) = elim (Bool-cases (str_eq j k)) [
  | inl same ↦ rw ((eq_iff j k).0 same) (ground (arith, contains-drop_keys k dropped d, eq_iff k k))
  | inr other ↦ ground (arith, contains-drop_keys k dropped d)
]
