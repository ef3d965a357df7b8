-- ===== src/Credentials/Precedence.antt =====
-- Which stored credential `resolve` picks.
use mathlib.Core.List.{reverse-append}
use clusterone.Prelude.{
  All, All-map, Bool-cases, List, Option, String, [], ap, arith, eq_iff, eq_refl, false,
  if◌then◌else◌, inl, inr, is_empty, none, refl, some, sym, ◌<>◌, ◌==◌, ◌∙◌, ◌∷◌, ◌≡◌, ◌≢◌, ◌⊎◌,
}
use clusterone.Exec.{Exn, Result, err, ok}
use clusterone.Credentials.{
  CredentialRow, Vault, add, add_row, find_for_scope, new_credential, open_row, resolve,
  resolve_scopes, scope_of, scopes,
}

find-add :
    (encrypt : String → Result String) (label username password scope s secret : String)
    (rows : Vault)
    → encrypt password ≡ ok secret
    → find_for_scope s (add encrypt label username password scope rows).1 ≡ (
        if scope == s
        then some (new_credential label username secret scope rows)
        else find_for_scope s rows)
unfolding add add_row find_for_scope
find-add encrypt label username password scope s secret rows e =
    rw (e, add)
      (rw (reverse-append rows (new_credential label username secret scope rows ∷ [])) refl)

first_scope :
    (decrypt : String → Result String) (scope : String) (more : List (Option String)) (rows : Vault)
    (row : CredentialRow)
    → find_for_scope scope rows ≡ some row
    → resolve_scopes decrypt (some scope ∷ more) rows ≡ open_row decrypt row
unfolding resolve_scopes
first_scope decrypt scope more rows row e = rw (e, resolve_scopes)

-- A credential saved for a host is the one that the host resolves to, if the vault seals it and
-- opens what it has sealed; older rows of the scope and the wider scopes are passed over.
pub resolve-add :
    (encrypt decrypt : String → Result String) (label username password secret ip : String)
    (oem : Option String) (rows : Vault)
    → is_empty ip ≡ false
    → encrypt password ≡ ok secret
    → decrypt secret ≡ ok password
    → resolve decrypt (some ip) oem (add encrypt label username password ("host:" <> ip) rows).1
      ≡ some (record { username = username; password = password })
unfolding resolve open_row
resolve-add encrypt decrypt label username password secret ip oem rows h seals opens = rw h (
    first_scope decrypt ("host:" <> ip) (scope_of "oem:" oem ∷ some "default" ∷ [])
      (add encrypt label username password ("host:" <> ip) rows).1
      (new_credential label username secret ("host:" <> ip) rows)
      (find-add encrypt label username password ("host:" <> ip) ("host:" <> ip) secret rows seals
        ∙ rw (eq_refl ("host:" <> ip)))
    ∙ rw (opens, open_row))

same_scopes :
    (decrypt : String → Result String) (ss : List (Option String)) (rows rows' : Vault)
    → All
        (λ (s : Option String).
          (t : String) → s ≡ some t → find_for_scope t rows' ≡ find_for_scope t rows)
        ss
    → resolve_scopes decrypt ss rows' ≡ resolve_scopes decrypt ss rows
unfolding resolve_scopes
same_scopes decrypt [] rows rows' h = refl
same_scopes decrypt (none ∷ ss) rows rows' h = same_scopes decrypt ss rows rows' h.1
same_scopes decrypt (some t ∷ ss) rows rows' h =
    ground (arith, h.0 t refl, same_scopes decrypt ss rows rows' h.1)

other_scope :
    (scope t : String) (s : Option String) (x y : Option CredentialRow)
    → s ≢ some scope
    → s ≡ some t
    → (if scope == t then x else y) ≡ y
other_scope scope t s x y ne e = elim (Bool-cases (scope == t)) [
  | inl same ↦ absurd (ne (e ∙ ap some (sym ((eq_iff scope t).0 same))))
  | inr other ↦ rw other
]

pub Result-cases : (r : Result String) → ((a : String) × (r ≡ ok a)) ⊎ ((e : Exn) × (r ≡ err e))
Result-cases (ok a) = inl (a, refl)
Result-cases (err e) = inr (e, refl)

-- A credential saved under a scope that a target does not ask for leaves its credential as it was,
-- and so does one that the vault does not seal.
pub resolve-add_ne :
    (encrypt decrypt : String → Result String) (label username password scope : String)
    (ip oem : Option String) (rows : Vault)
    → All (λ (s : Option String). s ≢ some scope) (scopes ip oem)
    → resolve decrypt ip oem (add encrypt label username password scope rows).1
      ≡ resolve decrypt ip oem rows
unfolding resolve add
resolve-add_ne encrypt decrypt label username password scope ip oem rows h =
    elim (Result-cases (encrypt password)) [
      | inr (x, e) ↦ rw (e, add) refl
      | inl (secret, e) ↦
          same_scopes decrypt (scopes ip oem) rows
            (add encrypt label username password scope rows).1
            (All-map {P = λ (s : Option String). s ≢ some scope}
              {Q = λ (s : Option String).
                (t : String)
                → s ≡ some t
                → find_for_scope t (add encrypt label username password scope rows).1
                  ≡ find_for_scope t rows}
              (scopes ip oem) h
              (λ s ne t k.
                find-add encrypt label username password scope t secret rows e
                ∙ other_scope scope t s _ _ ne k))
    ]
