-- ===== src/Credentials.antt =====
-- core/services/credentials_service.py over data/repositories/credentials_repo.py. The vault's
-- ciphers are parameters, `encrypt` and `decrypt`, and may raise.
pub mod Precedence
pub mod Specific
use mathlib.Core.List.{reverse}
use clusterone.Prelude.{
  List, Option, String, [], eqb, find, if◌then◌else◌, is_empty, map, none, not, select, some, suc,
  ℕ, ◌++◌, ◌<>◌, ◌==◌, ◌∷◌,
}
use clusterone.Exec.{Exec, Result, err, ok}
use clusterone.Models.{Credentials}
use clusterone.Jobs.{max_id}

pub record CredentialRow : Type 0 where
  pub id : ℕ
  pub label : String
  pub username : String
  pub secret_enc : String
  pub scope : String

abbrev pub Vault : Type 0
Vault = List CredentialRow

-- The newest row of a scope; rows are kept in the order of their ids.
unfoldable pub find_for_scope : String → Vault → Option CredentialRow
find_for_scope scope rows = find (λ (c : CredentialRow). c.scope == scope) (reverse rows)

abbrev pub new_credential : String → String → String → String → Vault → CredentialRow
new_credential label username secret_enc scope rows = record {
  id = suc (max_id (map (λ (c : CredentialRow). c.id) rows));
  label = label;
  username = username;
  secret_enc = secret_enc;
  scope = scope;
}

unfoldable pub add_row : String → String → String → String → Vault → ℕ × Vault
add_row label username secret_enc scope rows =
    let row = new_credential label username secret_enc scope rows in (row.id, rows ++ row ∷ [])

unfoldable pub delete_row : ℕ → Vault → Vault
delete_row id rows = select (λ (c : CredentialRow). not (eqb c.id id)) rows

module _ (encrypt : String → Result String) where
  unfoldable pub add : String → String → String → String → Exec Vault ℕ
  unfolding add_row
  add label username password scope rows = elim (encrypt password) [
    | err e ↦ (err e, rows)
    | ok secret ↦ let (id, rows') = add_row label username secret scope rows in (ok id, rows')
  ]

-- A scope is asked for only if its part is a non-empty text.
abbrev pub scope_of : String → Option String → Option String
scope_of tag none = none
scope_of tag (some v) = if is_empty v then none else some (tag <> v)

abbrev pub scopes : Option String → Option String → List (Option String)
scopes ip oem = scope_of "host:" ip ∷ scope_of "oem:" oem ∷ some "default" ∷ []

module _ (decrypt : String → Result String) where
  unfoldable pub open_row : CredentialRow → Option Credentials
  open_row row = elim (decrypt row.secret_enc) [
    | ok password ↦ some (record { username = row.username; password = password })
    | err e ↦ none
  ]

  -- The loop over the scopes. A row whose secret does not decrypt ends it.
  unfoldable pub resolve_scopes : List (Option String) → Vault → Option Credentials
  unfolding open_row
  resolve_scopes [] rows = none
  resolve_scopes (none ∷ more) rows = resolve_scopes more rows
  resolve_scopes (some scope ∷ more) rows =
      let rest = resolve_scopes more rows in
      elim (find_for_scope scope rows) [ some row ↦ open_row row | none ↦ rest ]

  unfoldable pub resolve : Option String → Option String → Vault → Option Credentials
  unfolding resolve_scopes
  resolve ip oem rows = resolve_scopes (scopes ip oem) rows
