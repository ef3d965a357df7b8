-- ===== src/Capabilities/Walk.antt =====
-- The helpers of core/plugins_api/capability_discoverer.py, and its steps beside the firmware.
use clusterone.Prelude.{
  Bool, List, Option, String, [], any, contains, eqb, false, has_text, if◌then◌else◌, is_empty,
  is_some, none, or_else, some, true, ℕ, ◌++◌, ◌<>◌, ◌==◌, ◌||◌, ◌∷◌,
}
use clusterone.Exec.{Exec, Result, cancelled, err, lift, ok, pure, raise, raised, ◌>>=◌, ◌>>◌}
use clusterone.Json.{
  Json, arr, bool, get, get_field, get_or_null, is_truthy, items, keys, null, num, obj, str,
  to_list, type_name,
}
use clusterone.Update.Preflight.{is_redfish}
use clusterone.Capabilities.{CapabilityMap}

pub record Walk : Type 0 where
  pub cap : CapabilityMap
  pub warnings : List String
  pub oem_block_set : List String
  pub consumed : Bool

abbrev pub Stage : Type 0 → Type 0
Stage A = Exec Walk A

unfoldable pub warn : String → Stage (Unit {0})
warn message w = (ok tt, record w { warnings = w.warnings ++ message ∷ [] })

-- An assignment to a field of the map.
abbrev pub set : (CapabilityMap → CapabilityMap) → Stage (Unit {0})
set f w = (ok tt, record w { cap = f w.cap })

abbrev id_text : Json → Option String
id_text (str s) = if is_empty s then none else some s
id_text j = none

unfoldable pub odata_id : Json → Option String
odata_id (obj fs) = id_text (get_or_null "@odata.id" fs)
odata_id j = none

add_key : List String → String → List String
add_key set key = if is_empty key || contains key set then set else set ++ key ∷ []

add_keys : List String → List String → List String
unfolding add_key
add_keys set [] = set
add_keys set (k ∷ ks) = add_keys (add_key set k) ks

block_names : Json → List String
block_names (obj fs) = keys fs
block_names j = []

-- `value.get(key)`, where a key that is missing gives `None`.
abbrev pub fetch : String → Json → Stage Json
fetch key j = do v ← lift (get key j); pure (or_else v null)

-- `value or default`
abbrev pub or_default : Json → Json → Json
or_default j default = if is_truthy j then j else default

abbrev pub fetch_or : String → Json → Json → Stage Json
fetch_or key default j = do v ← fetch key j; pure (or_default v default)

-- `value.get(key) or ()`, as a loop reads it.
abbrev pub fetch_items : String → Json → Stage (List Json)
fetch_items key j = do v ← fetch key j; lift (items v)

-- `bool(value.get(key, default))`
abbrev pub fetch_flag : String → Bool → Json → Stage Bool
fetch_flag key default j = do v ← lift (get key j); pure (is_truthy (or_else v (bool default)))

unfoldable pub absorb_oem_keys : Json → Stage (Unit {0})
unfolding add_keys block_names
absorb_oem_keys j = do
  oem ← fetch "Oem" j
  λ w. (ok tt, record w { oem_block_set = add_keys w.oem_block_set (block_names oem) })

-- `RuntimeError` and its subclasses.
abbrev is_runtime : String → Bool
is_runtime class = contains class ("RuntimeError" ∷ "RecursionError" ∷ "NotImplementedError" ∷ [])

unfoldable pub safe_answer : String → Result Json → Stage Json
unfolding warn
safe_answer label (ok j) = pure j
safe_answer label (err cancelled) = raise cancelled
safe_answer label (err (raised class message)) =
    if is_redfish class
    then warn (label <> " unavailable (" <> message <> ")") >> pure null
    else if is_runtime class
    then raise (raised class message)
    else warn (label <> " error (" <> message <> ")") >> pure null

-- A key of a dict that need not be a text: `True` is the same key as 1.
abbrev number_of : Json → Option ℕ
number_of (bool b) = some (if b then 1 else 0)
number_of (num n) = some n
number_of j = none

unfoldable same_number : Option ℕ → Option ℕ → Bool
same_number (some m) (some n) = eqb m n
same_number _ _ = false

unfoldable pub same_key : Json → Json → Bool
unfolding same_number
same_key (str a) (str b) = a == b
same_key null null = true
same_key j k = same_number (number_of j) (number_of k)

unfoldable pub lookup_key : {A : Type 0} → Json → List (Json × A) → Option A
unfolding same_key
lookup_key key [] = none
lookup_key key ((k, v) ∷ d) = if same_key k key then some v else lookup_key key d

put_entry : {A : Type 0} → Json → A → List (Json × A) → List (Json × A)
unfolding same_key
put_entry key v [] = (key, v) ∷ []
put_entry key v ((k, u) ∷ d) = if same_key k key then (k, v) ∷ d else (k, u) ∷ put_entry key v d

unfoldable pub put_key : {A : Type 0} → Json → A → List (Json × A) → Result (List (Json × A))
unfolding put_entry
put_key (arr js) v d = err (raised "TypeError" "unhashable type: 'list'")
put_key (obj fs) v d = err (raised "TypeError" "unhashable type: 'dict'")
put_key key v d = ok (put_entry key v d)

-- `key in value`
unfoldable pub has_key : String → Json → Result Bool
has_key key (obj fs) = ok (is_some (get_field key fs))
has_key key (str s) = ok (has_text s key)
has_key key (arr js) = ok (any (λ j. same_key j (str key)) (to_list js))
has_key key j =
    err (raised "TypeError" ("argument of type '" <> type_name j <> "' is not iterable"))

abbrev pub is_none : Json → Bool
is_none null = true
is_none j = false

-- `get_json` of the client is a parameter.
module _ (client : Json → Result Json) where
  unfoldable pub safe_get : Json → String → Stage Json
  unfolding safe_answer
  safe_get path label = safe_answer label (client path)

  -- A resource that a link may lead to.
  abbrev pub follow : Option String → String → (String → Json → Stage (Unit {0})) → Stage (Unit {0})
  follow none label read = pure tt
  follow (some uri) label read = do
    resource ← safe_get (str uri) label
    if is_none resource then pure tt else read uri resource
