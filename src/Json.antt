-- ===== src/Json.antt =====
-- The JSON values (serde_json::Value) of block contents: the data type, its lookups and equality.
-- An object lists its members in the order of its keys, as serde_json's map does; a number is its
-- printed text, since the program reads none.
use forgepost.Prelude.{
  ◌≡◌, refl, sym, ap, Bool-cases, inl, inr, Bool, true, false, ◌&&◌, Option, none, some, arith,
  &&_true, if◌then◌else◌, [], ◌∷◌, ltb, ◌==◌, ◌||◌,
}
use forgepost.Text.{Text, text_eq, text_eq_refl, text_eq→eq}

mutual
  pub data Json : Type 0 where
    null : Json
    boolean : Bool → Json
    number : Text → Json
    string : Text → Json
    array : Items → Json
    object : Members → Json

  pub data Items : Type 0 where
    nil : Items
    cons : Json → Items → Items

  pub data Members : Type 0 where
    end : Members
    member : Text → Json → Members → Members

abbrev bool_eq : Bool → Bool → Bool
bool_eq true true = true
bool_eq false false = true
bool_eq true false = false
bool_eq false true = false

unfoldable mutual
  pub json_eq : Json → Json → Bool
  json_eq null null = true
  json_eq (boolean a) (boolean b) = bool_eq a b
  json_eq (number s) (number t) = text_eq s t
  json_eq (string s) (string t) = text_eq s t
  json_eq (array xs) (array ys) = items_eq xs ys
  json_eq (object m) (object n) = members_eq m n
  json_eq _ _ = false

  pub items_eq : Items → Items → Bool
  items_eq nil nil = true
  items_eq (cons x xs) (cons y ys) = json_eq x y && items_eq xs ys
  items_eq _ _ = false

  pub members_eq : Members → Members → Bool
  members_eq end end = true
  members_eq (member k x m) (member j y n) = text_eq k j && (json_eq x y && members_eq m n)
  members_eq _ _ = false

abbrev pub get_member : Text → Members → Option Json
get_member k end = none
get_member k (member j x m) = if text_eq j k then some x else get_member k m

-- `content.get(key)`: members of objects only.
abbrev pub get : Json → Text → Option Json
get (object m) k = get_member k m
get null k = none
get (boolean b) k = none
get (number s) k = none
get (string s) k = none
get (array xs) k = none

-- `value.as_str()`.
abbrev pub as_str : Json → Option Text
as_str (string s) = some s
as_str null = none
as_str (boolean b) = none
as_str (number s) = none
as_str (array xs) = none
as_str (object m) = none

-- `content.get(key).and_then(|v| v.as_str())`.
abbrev pub str_at : Json → Text → Option Text
str_at j k = elim (get j k) [ none ↦ none | some v ↦ as_str v ]

mutual
  unfolding json_eq items_eq members_eq

  json_eq→eq : (x y : Json) → json_eq x y ≡ true → x ≡ y
  json_eq→eq null null h = refl
  json_eq→eq (boolean a) (boolean b) h = ground arith
  json_eq→eq (number s) (number t) h = ground (arith, text_eq→eq s t)
  json_eq→eq (string s) (string t) h = ground (arith, text_eq→eq s t)
  json_eq→eq (array xs) (array ys) h = ground (arith, items_eq→eq xs ys)
  json_eq→eq (object m) (object n) h = ground (arith, members_eq→eq m n)
  json_eq→eq _ _ h = cc

  items_eq→eq : (xs ys : Items) → items_eq xs ys ≡ true → xs ≡ ys
  items_eq→eq nil nil h = refl
  items_eq→eq (cons x xs) (cons y ys) h = ground (arith, json_eq→eq x y, items_eq→eq xs ys)
  items_eq→eq _ _ h = cc

  members_eq→eq : (m n : Members) → members_eq m n ≡ true → m ≡ n
  members_eq→eq end end h = refl
  members_eq→eq (member k x m) (member j y n) h =
      let a = &&_true (text_eq k j) (json_eq x y && members_eq m n) h in
      let b = &&_true (json_eq x y) (members_eq m n) a.1 in
      cc (text_eq→eq k j a.0, json_eq→eq x y b.0, members_eq→eq m n b.1)
  members_eq→eq _ _ h = cc

mutual
  unfolding json_eq items_eq members_eq

  json_eq_self : (x : Json) → json_eq x x ≡ true
  json_eq_self null = refl
  json_eq_self (boolean b) = ground arith
  json_eq_self (number s) = text_eq_refl s
  json_eq_self (string s) = text_eq_refl s
  json_eq_self (array xs) = items_eq_self xs
  json_eq_self (object m) = members_eq_self m

  items_eq_self : (xs : Items) → items_eq xs xs ≡ true
  items_eq_self nil = refl
  items_eq_self (cons x xs) = ground (arith, json_eq_self x, items_eq_self xs)

  members_eq_self : (m : Members) → members_eq m m ≡ true
  members_eq_self end = refl
  members_eq_self (member k x m) = ground (arith, text_eq_refl k, json_eq_self x, members_eq_self m)

-- Equality of JSON values decides their identity.
pub json_eq_sound : (x y : Json) → json_eq x y ≡ true → x ≡ y
json_eq_sound x y h = json_eq→eq x y h

pub json_eq_refl : (x : Json) → json_eq x x ≡ true
json_eq_refl x = json_eq_self x

-- The order of keys: that of their characters.
abbrev text_ltb : Text → Text → Bool
text_ltb [] [] = false
text_ltb [] (d ∷ t) = true
text_ltb (c ∷ s) [] = false
text_ltb (c ∷ s) (d ∷ t) = ltb c d || ((c == d) && text_ltb s t)

abbrev pub set_member : Text → Json → Members → Members
set_member k x end = member k x end
set_member k x (member j y m) =
    let rest = set_member k x m in
    if text_eq j k
    then member k x m
    else if text_ltb k j
    then member k x (member j y m)
    else member j y rest

-- `content[key] = value`, where content is an object.
abbrev pub set : Json → Text → Json → Json
set (object m) k x = object (set_member k x m)
set null k x = object (member k x end)
set (boolean b) k x = boolean b
set (number s) k x = number s
set (string s) k x = string s
set (array xs) k x = array xs

get_member-set_member :
    (q k : Text) (x : Json) (m : Members)
    → text_eq k q ≡ false
    → get_member q (set_member k x m) ≡ get_member q m
get_member-set_member q k x end h = rw h refl
get_member-set_member q k x (member j y m) h = elim (Bool-cases (text_eq j k)) [
  | inl same ↦
      let equal = text_eq→eq j k same in
      let other : text_eq j q ≡ false = rw (sym equal) at h in rw (same, h, other) refl
  | inr differs ↦ elim (Bool-cases (text_ltb k j)) [
    | inl before ↦ rw (differs, before, h) refl
    | inr behind ↦ rw (differs, behind, get_member-set_member q k x m h) refl
  ]
]

abbrev string_in : Option Json → Option Text
string_in o = elim o [ none ↦ none | some v ↦ as_str v ]

-- Setting a key leaves what stands at the others.
pub str_at-set :
    (content : Json) (q k : Text) (x : Json)
    → text_eq k q ≡ false
    → str_at (set content k x) q ≡ str_at content q
str_at-set (object m) q k x h = ap string_in (get_member-set_member q k x m h)
str_at-set null q k x h = ap string_in (get_member-set_member q k x end h)
str_at-set (boolean b) q k x h = refl
str_at-set (number s) q k x h = refl
str_at-set (string s) q k x h = refl
str_at-set (array xs) q k x h = refl
