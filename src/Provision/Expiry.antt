-- ===== src/Provision/Expiry.antt =====
-- A configuration that has expired is gone from memory with the next request.
use clusterone.Prelude.{
  All, All-Member, Bool, Bool-cases, Member, Member-select, Option, String, [], arith, eq_iff, find,
  inl, inr, leb, none, not, refl, select, select-Member, some, ℕ, ◌<◌, ◌==◌, ◌∷◌, ◌≡◌,
}
use clusterone.Provision.{Config, Configs, autoinstall_provider, purge_expired_configs}

-- What a request gets and what it leaves: an entry of its token, whose time is to come, and no
-- entry whose time is over; an entry whose time is to come stays.
pub data IsServed (now : ℕ) (token : String) (configs : Configs)
    : Option String × Configs → Type 0 where
  served :
      (answer : Option String) (left : Configs)
      → ((body : String)
          → answer ≡ some body
          → (c : Config) × Member c configs
            × (c.token ≡ token)
            × (c.body ≡ body)
            × (now < c.expires))
      → All (λ (c : Config). now < c.expires) left
      → ((c : Config) → Member c configs → now < c.expires → Member c left)
      → IsServed now token configs (answer, left)

abbrev lives : ℕ → Config → Bool
lives now c = not (leb c.expires now)

found_entry :
    (token body : String) (cs : Configs)
    → elim (find (λ (c : Config). c.token == token) cs) [ none ↦ none | some c ↦ some c.body ]
      ≡ some body
    → (c : Config) × Member c cs × (c.token ≡ token) × (c.body ≡ body)
found_entry token body [] h = absurd (ground (arith, h))
found_entry token body (c ∷ cs) h = elim (Bool-cases (c.token == token)) [
  | inl hit ↦ (c, inl refl, (eq_iff c.token token).0 hit, ground (arith, h, hit))
  | inr miss ↦ let (e, m, t, b) = found_entry token body cs (rw miss at h) in (e, inr m, t, b)
]

-- A request is answered only with the body of an entry of its token that has not expired; no expired
-- entry is left behind it, and none that has not expired is lost.
pub autoinstall_provider-IsServed :
    (now : ℕ) (token : String) (configs : Configs)
    → IsServed now token configs (autoinstall_provider now token configs)
unfolding autoinstall_provider purge_expired_configs
autoinstall_provider-IsServed now token configs =
    served _ _
      (λ body h.
        let (c, m, t, b) = found_entry token body (select (lives now) configs) h in
        let (n, alive) = select-Member (lives now) c configs m in
        (c, n, t, b, ground (arith, alive)))
      (All-Member (select (lives now) configs)
        (λ c m. ground (arith, (select-Member (lives now) c configs m).1)))
      (λ c m alive. Member-select (lives now) c configs m (ground (arith, alive)))
