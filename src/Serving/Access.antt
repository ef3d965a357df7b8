-- ===== src/Serving/Access.antt =====
-- Which requests are answered: those whose signature was made for them and has not expired.
use clusterone.Serving.Messages.{signed_message_inj, no_colon}
use clusterone.Prelude.{
  Bool, Option, String, ap, arith, eq_iff, false, if◌then◌else◌, is_ascii, leb, negsuc, none,
  parse_int, parse_int-print_nat, pos, print_nat, refl, some, sym, true, ℕ, ℤ, ◌+◌, ◌∙◌, ◌≡◌, ◌≢◌,
  ◌≤◌,
}
use clusterone.Exec.{Exn, Result, err, ok}
use clusterone.Serving.{
  Response, checked, compute, config_response, file_response, handle_autoinstall, handle_iso,
  iso_path, signed_message, provided, sign, text_response, verify, verify_until,
}

module _ (digest : String → String) (now : ℕ) (resource identifier sig : String) where
  -- What a verified request proves: its expiry has not passed, and its signature is the one of its
  -- signed_message.
  abbrev IsSigned : Option ℤ → Type 0
  IsSigned o =
      (exp : ℕ) × (o ≡ some (pos exp))
      × (now ≤ exp)
      × (sig ≡ digest (signed_message resource identifier exp))

  verify_until-IsSigned :
      (o : Option ℤ) → verify_until digest now resource identifier sig o ≡ ok true → IsSigned o
  unfolding verify_until compute
  verify_until-IsSigned none h = absurd (ground (arith, h))
  verify_until-IsSigned (some (negsuc n)) h = absurd (ground (arith, h))
  verify_until-IsSigned (some (pos exp)) h = (
    exp,
    refl,
    ground (arith, h),
    ground (arith, h, eq_iff (digest (signed_message resource identifier exp)) sig),
  )

verify-IsSigned :
    (digest : String → String) (now : ℕ) (resource identifier exp sig : String)
    → verify digest now resource identifier exp sig ≡ ok true
    → IsSigned digest now resource identifier sig (parse_int exp)
unfolding verify
verify-IsSigned digest now resource identifier exp sig h =
    verify_until-IsSigned digest now resource identifier sig (parse_int exp) h

signed_when :
    (b : Bool) (stamp : ℕ) (d : String) (failure : Exn) (exp : ℕ) (sig : String)
    → ◌≡◌ {A = Result (ℕ × String)}
        (elim (if b then ok d else err failure) [ ok s ↦ ok (stamp, s) | err e ↦ err e ])
        (ok (exp, sig))
    → (b ≡ true) × (exp ≡ stamp) × (sig ≡ d)
signed_when true stamp d failure exp sig h = (refl, ground (arith, h), ground (arith, h))
signed_when false stamp d failure exp sig h = absurd (ground (arith, h))

sign_facts :
    (digest : String → String) (now : ℕ) (resource identifier : String) (ttl exp : ℕ) (sig : String)
    → sign digest now resource identifier ttl ≡ ok (exp, sig)
    → (exp ≡ now + ttl)
      × (sig ≡ digest (signed_message resource identifier exp))
      × (is_ascii (signed_message resource identifier exp) ≡ true)
unfolding sign compute
sign_facts digest now resource identifier ttl exp sig h =
    let (ascii, e, s) =
      signed_when (is_ascii (signed_message resource identifier (now + ttl))) (now + ttl) _ _ exp
        sig h in
    (
      e,
      s ∙ ap (λ n. digest (signed_message resource identifier n)) (sym e),
      ap (λ n. is_ascii (signed_message resource identifier n)) e ∙ ascii,
    )

-- A signature that was made is accepted until its time is over, and refused from then on. The
-- digest is a text of ASCII characters.
pub verify-sign :
    (digest : String → String)
    → ((m : String) → is_ascii (digest m) ≡ true)
    → (now later : ℕ) (resource identifier : String) (ttl exp : ℕ) (sig : String)
    → sign digest now resource identifier ttl ≡ ok (exp, sig)
    → verify digest later resource identifier (print_nat exp) sig ≡ ok (leb later (now + ttl))
unfolding verify verify_until compute
verify-sign digest ascii now later resource identifier ttl exp sig h =
    let (e, s, a) = sign_facts digest now resource identifier ttl exp sig h in
    let sent = signed_message resource identifier exp in
    rw (parse_int-print_nat exp) (ground (arith, e, s, a, ascii sent, eq_iff (digest sent) sig))

-- A link that was made for a resource and an identifier, and a request that it lets in.
module _ (digest : String → String) (inj : (m n : String) → digest m ≡ digest n → m ≡ n)
    (made now ttl issued : ℕ) (resource identifier sig : String) (plain : no_colon resource ≡ true)
    (link : sign digest made resource identifier ttl ≡ ok (issued, sig)) where
  let_in :
      (asked id exp : String)
      → no_colon asked ≡ true
      → verify digest now asked id exp sig ≡ ok true
      → (resource ≡ asked) × (identifier ≡ id) × (now ≤ made + ttl)
  let_in asked id exp clean h =
      let (e, s, _) = sign_facts digest made resource identifier ttl issued sig link in
      let (n, _, alive, t) = verify-IsSigned digest now asked id exp sig h in
      let (same, who, when) =
        signed_message_inj resource asked identifier id issued n plain clean
          (inj _ _ (sym s ∙ t)) in
      (same, who, ground (arith, e, when, alive))

abbrev bad_signature : Response
bad_signature = text_response 403 "bad signature"

checked_inv :
    (digest : String → String) (v : Result Bool) (r answer : Response)
    → answer ≢ bad_signature
    → checked digest v r ≡ ok answer
    → (v ≡ ok true) × (r ≡ answer)
unfolding checked
checked_inv digest (err e) r answer other h = absurd (ground (arith, h))
checked_inv digest (ok false) r answer other h = absurd (other (ground (arith, h)))
checked_inv digest (ok true) r answer other h = (refl, ground (arith, h))

provided_inv :
    (digest : String → String) (token body : String) (o : Option String)
    → elim o [ none ↦ text_response 404 "unknown token" | some b ↦ config_response b ]
      ≡ config_response body
    → o ≡ some body
provided_inv digest token body none h = absurd (ground (arith, h))
provided_inv digest token body (some b) h = ground (arith, h)

-- An install configuration is handed out only to a request whose link was made for that resource
-- and that token and has not expired, and it is the token's own. No two messages have the same
-- digest, and the resource that the link was made for has no colon.
pub handle_autoinstall-sign :
    (digest : String → String)
    → ((m n : String) → digest m ≡ digest n → m ≡ n)
    → (provider : String → Option String) (made now ttl issued : ℕ)
      (resource identifier token exp sig body : String)
    → no_colon resource ≡ true
    → sign digest made resource identifier ttl ≡ ok (issued, sig)
    → handle_autoinstall digest (some provider) now token exp sig ≡ ok (config_response body)
    → (resource ≡ "autoinstall")
      × (identifier ≡ token)
      × (now ≤ made + ttl)
      × (provider token ≡ some body)
unfolding handle_autoinstall provided no_colon
handle_autoinstall-sign digest inj provider made now ttl issued resource identifier token exp sig
      body plain link h =
    let (v, r) = checked_inv digest _ _ (config_response body) (λ e. ground (arith, e)) h in
    let (what, who, when) =
      let_in digest inj made now ttl issued resource identifier sig plain link "autoinstall" token
        exp refl v in
    (what, who, when, provided_inv digest token body (provider token) r)

iso_inv :
    (b : Bool) (path found : String)
    → (if b then file_response path else text_response 404 "not found") ≡ file_response found
    → (b ≡ true) × (path ≡ found)
iso_inv true path found h = (refl, ground (arith, h))
iso_inv false path found h = absurd (ground (arith, h))

-- A file is sent only to a request whose link was made for an ISO and that hash and has not
-- expired, and it is the file that `iso_path` names for that hash. No two messages have the same
-- digest, and the resource that the link was made for has no colon.
pub handle_iso-sign :
    (digest : String → String)
    → ((m n : String) → digest m ≡ digest n → m ≡ n)
    → (iso_dir : String) (is_file : String → Bool) (made now ttl issued : ℕ)
      (resource identifier sha exp sig path : String)
    → no_colon resource ≡ true
    → sign digest made resource identifier ttl ≡ ok (issued, sig)
    → handle_iso digest iso_dir is_file now sha exp sig ≡ ok (file_response path)
    → (resource ≡ "iso")
      × (identifier ≡ sha)
      × (now ≤ made + ttl)
      × (path ≡ iso_path digest iso_dir sha)
      × (is_file path ≡ true)
unfolding handle_iso no_colon
handle_iso-sign digest inj iso_dir is_file made now ttl issued resource identifier sha exp sig path
      plain link h =
    let (v, r) = checked_inv digest _ _ (file_response path) (λ e. ground (arith, e)) h in
    let (what, who, when) =
      let_in digest inj made now ttl issued resource identifier sig plain link "iso" sha exp refl
        v in
    let (there, same) = iso_inv (is_file (iso_path digest iso_dir sha)) _ path r in
    (what, who, when, sym same, ap is_file (sym same) ∙ there)
