-- ===== src/Credentials/Specific.antt =====
-- `resolve`: the row that it opens, and what the vault makes of it.
use mathlib.Core.List.{reverse, reverse-cons}
use clusterone.Prelude.{
  All, Bool, Bool-cases, List, Option, String, [], ap, arith, eq_iff, false, find, if◌then◌else◌,
  inl, inr, is_empty, none, refl, some, true, ◌++◌, ◌<>◌, ◌==◌, ◌∙◌, ◌∷◌, ◌≡◌, ◌≢◌,
}
use clusterone.Exec.{Exn, Result, err, ok}
use clusterone.Models.{Credentials}
use clusterone.Credentials.{
  CredentialRow, Vault, find_for_scope, open_row, resolve, resolve_scopes, scope_of,
}
use clusterone.Credentials.Precedence.{Result-cases}

-- The newest row of a scope stands behind every other row of that scope.
pub data IsNewest (scope : String) (row : CredentialRow) (rows : Vault) : Type 0 where
  newest :
      (older newer : Vault)
      → rows ≡ older ++ row ∷ newer
      → row.scope ≡ scope
      → All (λ (c : CredentialRow). c.scope ≢ scope) newer
      → IsNewest scope row rows

abbrev pub IsUnstored : String → Vault → Type 0
IsUnstored scope rows = All (λ (c : CredentialRow). c.scope ≢ scope) rows

data IsLookup (scope : String) (rows : Vault) : Option CredentialRow → Type 0 where
  hit : (row : CredentialRow) → IsNewest scope row rows → IsLookup scope rows (some row)
  miss : IsUnstored scope rows → IsLookup scope rows none

find_snoc :
    (p : CredentialRow → Bool) (xs : Vault) (c : CredentialRow)
    → find p (xs ++ c ∷ [])
      ≡ elim (find p xs) [ some x ↦ some x | none ↦ if p c then some c else none ]
find_snoc p [] c = ground arith
find_snoc p (x ∷ xs) c = ground (arith, find_snoc p xs c)

else_newest-IsLookup :
    (scope : String) (c : CredentialRow) (rows : Vault) (found : Option CredentialRow)
    → IsLookup scope rows found
    → IsLookup scope
        (c ∷ rows)
        (elim found [ some x ↦ some x | none ↦ if c.scope == scope then some c else none ])
else_newest-IsLookup scope c rows _ (hit row (newest older newer same its others)) =
    hit row (newest (c ∷ older) newer (ap (λ (rs : Vault). c ∷ rs) same) its others)
else_newest-IsLookup scope c rows _ (miss others) = elim (Bool-cases (c.scope == scope)) [
  | inl e ↦ rw e (hit c (newest [] rows refl ((eq_iff c.scope scope).0 e) others))
  | inr e ↦ rw e (miss ((λ same. ground (arith, e, (eq_iff c.scope scope).1 same)), others))
]

find_for_scope-IsLookup :
    (scope : String) (rows : Vault) → IsLookup scope rows (find_for_scope scope rows)
unfolding find_for_scope
find_for_scope-IsLookup scope [] = miss tt
find_for_scope-IsLookup scope (c ∷ rows) =
    rw (reverse-cons c rows, find_snoc (λ (r : CredentialRow). r.scope == scope) (reverse rows) c)
      (else_newest-IsLookup scope c rows _ (find_for_scope-IsLookup scope rows))

-- Nothing is stored for a host or for a vendor: it is not named, or it has no row.
pub data IsAbsent (tag : String) (rows : Vault) : Option String → Type 0 where
  unnamed : IsAbsent tag rows none
  blank : (v : String) → is_empty v ≡ true → IsAbsent tag rows (some v)
  unstored : (v : String) → IsUnstored (tag <> v) rows → IsAbsent tag rows (some v)

-- The row that decides: of the host, else of the vendor, else the default.
pub data IsMostSpecific (ip oem : Option String) (rows : Vault)
    : Option CredentialRow → Type 0 where
  of_host :
      (v : String) (row : CredentialRow)
      → ip ≡ some v
      → is_empty v ≡ false
      → IsNewest ("host:" <> v) row rows
      → IsMostSpecific ip oem rows (some row)
  of_oem :
      (v : String) (row : CredentialRow)
      → IsAbsent "host:" rows ip
      → oem ≡ some v
      → is_empty v ≡ false
      → IsNewest ("oem:" <> v) row rows
      → IsMostSpecific ip oem rows (some row)
  of_default :
      (row : CredentialRow)
      → IsAbsent "host:" rows ip
      → IsAbsent "oem:" rows oem
      → IsNewest "default" row rows
      → IsMostSpecific ip oem rows (some row)
  of_none :
      IsAbsent "host:" rows ip
      → IsAbsent "oem:" rows oem
      → IsUnstored "default" rows
      → IsMostSpecific ip oem rows none

-- What the vault makes of the row.
pub data IsOpened (decrypt : String → Result String)
    : Option CredentialRow → Option Credentials → Type 0 where
  no_row : IsOpened decrypt none none
  opened :
      (row : CredentialRow) (password : String)
      → decrypt row.secret_enc ≡ ok password
      → IsOpened decrypt (some row) (some (record { username = row.username; password = password }))
  sealed :
      (row : CredentialRow) (e : Exn)
      → decrypt row.secret_enc ≡ err e
      → IsOpened decrypt (some row) none

module _ (decrypt : String → Result String) (rows : Vault) where
  open_row-IsOpened : (row : CredentialRow) → IsOpened decrypt (some row) (open_row decrypt row)
  unfolding open_row
  open_row-IsOpened row = elim (Result-cases (decrypt row.secret_enc)) [
    | inl (password, e) ↦ rw (e, open_row) (opened row password e)
    | inr (x, e) ↦ rw (e, open_row) (sealed row x e)
  ]

  -- One scope of the loop: its row ends it, or it is absent and the loop goes on.
  data Stage (tag : String) (more : List (Option String)) (v : Option String) : Type 0 where
    ends :
        (u : String) (row : CredentialRow)
        → v ≡ some u
        → is_empty u ≡ false
        → IsNewest (tag <> u) row rows
        → resolve_scopes decrypt (scope_of tag v ∷ more) rows ≡ open_row decrypt row
        → Stage tag more v
    goes_on :
        IsAbsent tag rows v
        → resolve_scopes decrypt (scope_of tag v ∷ more) rows ≡ resolve_scopes decrypt more rows
        → Stage tag more v

  -- What the loop does with a scope, by what is found for it.
  data Looks (scope : String) (more : List (Option String)) : Type 0 where
    found :
        (row : CredentialRow)
        → IsNewest scope row rows
        → resolve_scopes decrypt (some scope ∷ more) rows ≡ open_row decrypt row
        → Looks scope more
    lacks :
        IsUnstored scope rows
        → resolve_scopes decrypt (some scope ∷ more) rows ≡ resolve_scopes decrypt more rows
        → Looks scope more

  looks_of :
      (scope : String) (more : List (Option String)) (o : Option CredentialRow)
      → find_for_scope scope rows ≡ o
      → IsLookup scope rows o
      → Looks scope more
  unfolding resolve_scopes
  looks_of scope more _ e (hit row new) = found row new (rw (e, resolve_scopes))
  looks_of scope more _ e (miss others) = lacks others (rw (e, resolve_scopes))

  look : (scope : String) (more : List (Option String)) → Looks scope more
  look scope more =
      looks_of scope more (find_for_scope scope rows) refl (find_for_scope-IsLookup scope rows)

  stage_of :
      (tag u : String) (more : List (Option String)) (blank_name : Bool)
      → is_empty u ≡ blank_name
      → Looks (tag <> u) more
      → Stage tag more (some u)
  unfolding resolve_scopes
  stage_of tag u more true h _ = goes_on (blank u h) (rw h)
  stage_of tag u more false h (found row new e) = ends u row refl h new (rw h e)
  stage_of tag u more false h (lacks others e) = goes_on (unstored u others) (rw h e)

  stage : (tag : String) (more : List (Option String)) (v : Option String) → Stage tag more v
  unfolding resolve_scopes
  stage tag more none = goes_on unnamed refl
  stage tag more (some u) = stage_of tag u more (is_empty u) refl (look (tag <> u) more)

  Resolves : Option String → Option String → Type 0
  Resolves ip oem =
      (row : Option CredentialRow) × IsMostSpecific ip oem rows row
      × IsOpened decrypt row (resolve decrypt ip oem rows)

  by_default :
      (ip oem : Option String)
      → IsAbsent "host:" rows ip
      → IsAbsent "oem:" rows oem
      → resolve decrypt ip oem rows ≡ resolve_scopes decrypt (some "default" ∷ []) rows
      → Looks "default" []
      → Resolves ip oem
  unfolding Resolves resolve_scopes
  by_default ip oem a b e (found row new k) =
      (some row, of_default row a b new, rw (e ∙ k) (open_row-IsOpened row))
  by_default ip oem a b e (lacks others k) = (none, of_none a b others, rw (e ∙ k) no_row)

  by_oem :
      (ip oem : Option String)
      → IsAbsent "host:" rows ip
      → resolve decrypt ip oem rows
        ≡ resolve_scopes decrypt (scope_of "oem:" oem ∷ some "default" ∷ []) rows
      → Stage "oem:" (some "default" ∷ []) oem
      → Resolves ip oem
  unfolding Resolves
  by_oem ip oem a e (ends u row named full new k) =
      (some row, of_oem u row a named full new, rw (e ∙ k) (open_row-IsOpened row))
  by_oem ip oem a e (goes_on b k) = by_default ip oem a b (e ∙ k) (look "default" [])

  by_host :
      (ip oem : Option String)
      → Stage "host:" (scope_of "oem:" oem ∷ some "default" ∷ []) ip
      → Resolves ip oem
  unfolding Resolves resolve
  by_host ip oem (ends u row named full new k) =
      (some row, of_host u row named full new, rw k (open_row-IsOpened row))
  by_host ip oem (goes_on a k) = by_oem ip oem a k (stage "oem:" (some "default" ∷ []) oem)

-- One row decides: the newest of the host, if one is stored for it; else the newest of the vendor;
-- else the newest of the default. The answer is its user with the password that its secret
-- decrypts to, and none if that fails, whatever the wider scopes hold, or if there is no such row.
pub resolve-IsMostSpecific :
    (decrypt : String → Result String) (ip oem : Option String) (rows : Vault)
    → (row : Option CredentialRow) × IsMostSpecific ip oem rows row
      × IsOpened decrypt row (resolve decrypt ip oem rows)
unfolding Resolves
resolve-IsMostSpecific decrypt ip oem rows =
    by_host decrypt rows ip oem
      (stage decrypt rows "host:" (scope_of "oem:" oem ∷ some "default" ∷ []) ip)
