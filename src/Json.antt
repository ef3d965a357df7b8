-- ===== src/Json.antt =====
-- JSON values as Python reads them: `dict.get`, truth, `str()` and iteration. Numbers are the
-- integers; a BMC's documents that the program reads hold no other.
use clusterone.Prelude.{
  Bool, List, Option, String, [], eqb, false, if◌then◌else◌, is_empty, characters, map, none, not,
  or_else, print_nat, some, true, ℕ, ◌<>◌, ◌==◌, ◌∷◌,
}
use clusterone.Exec.{Result, err, ok, raised}

mutual
  pub data Json : Type 0 where
    null : Json
    bool : Bool → Json
    num : ℕ → Json
    str : String → Json
    arr : Items → Json
    obj : Fields → Json

  pub data Items : Type 0 where
    nil : Items
    cons : Json → Items → Items

  pub data Fields : Type 0 where
    end : Fields
    field : String → Json → Fields → Fields

abbrev pub to_list : Items → List Json
to_list nil = []
to_list (cons j js) = j ∷ to_list js

-- `d.get(key)` on a dict; a key stands once in it.
unfoldable pub get_field : String → Fields → Option Json
get_field key end = none
get_field key (field k v fs) = if k == key then some v else get_field key fs

-- `bool(value)`
unfoldable pub is_truthy : Json → Bool
is_truthy null = false
is_truthy (bool b) = b
is_truthy (num n) = not (eqb n 0)
is_truthy (str s) = not (is_empty s)
is_truthy (arr nil) = false
is_truthy (arr (cons j js)) = true
is_truthy (obj end) = false
is_truthy (obj (field k v fs)) = true

abbrev pub type_name : Json → String
type_name null = "NoneType"
type_name (bool b) = "bool"
type_name (num n) = "int"
type_name (str s) = "str"
type_name (arr js) = "list"
type_name (obj fs) = "dict"

abbrev pub no_attribute {ℓ} : {A : Type ℓ} → String → Json → Result A
no_attribute name j =
    err
      (raised "AttributeError" ("'" <> type_name j <> "' object has no attribute '" <> name <> "'"))

-- `j.get(key)` on a value that should be a dict
unfoldable pub get : String → Json → Result (Option Json)
get key (obj fs) = ok (get_field key fs)
get key j = no_attribute "get" j

-- `j.get(key) or default`, where the default is falsy
abbrev pub get_or_null : String → Fields → Json
get_or_null key fs = or_else (get_field key fs) null

abbrev pub keys : Fields → List String
keys end = []
keys (field k v fs) = k ∷ keys fs

abbrev pub to_pairs : Fields → List (String × Json)
to_pairs end = []
to_pairs (field k v fs) = (k, v) ∷ to_pairs fs

-- What a value gives to a loop.
unfoldable pub iterate : Json → Result (List Json)
iterate (arr js) = ok (to_list js)
iterate (obj fs) = ok (map str (keys fs))
iterate (str s) = ok (map str (characters s))
iterate j = err (raised "TypeError" ("'" <> type_name j <> "' object is not iterable"))

-- `for m in (value or [])`
unfoldable pub items : Json → Result (List Json)
unfolding iterate
items j = if is_truthy j then iterate j else ok []

mutual
  -- `str(value)`; a text inside a container is quoted.
  pub print_json : Json → String
  print_json null = "None"
  print_json (bool true) = "True"
  print_json (bool false) = "False"
  print_json (num n) = print_nat n
  print_json (str s) = "'" <> s <> "'"
  print_json (arr js) = "[" <> print_items js <> "]"
  print_json (obj fs) = "{" <> print_fields fs <> "}"

  pub print_items : Items → String
  print_items nil = ""
  print_items (cons j nil) = print_json j
  print_items (cons j (cons k ks)) = print_json j <> ", " <> print_items (cons k ks)

  pub print_fields : Fields → String
  print_fields end = ""
  print_fields (field k v fs) = "'" <> k <> "': " <> print_json v <> print_more fs

  pub print_more : Fields → String
  print_more end = ""
  print_more (field k v fs) = ", '" <> k <> "': " <> print_json v <> print_more fs

abbrev pub show : Json → String
show (str s) = s
show j = print_json j
