-- ===== src/Serving.antt =====
-- core/services/file_server.py: the server that a BMC fetches an ISO and its install answers from.
pub mod Messages
pub mod Access
use clusterone.Prelude.{
  Bool, List, Option, String, [], false, if◌then◌else◌, is_ascii, is_empty, ltb, negsuc, none, not,
  or_else, parse_int, pos, print_nat, some, starts_with, true, ℕ, ℤ, ◌&&◌, ◌+◌, ◌<>◌, ◌==◌, ◌||◌,
  ◌∷◌,
}
use clusterone.Exec.{Exn, Result, cancelled, err, ok, raised}

-- What the sockets and `ipaddress` tell: the local address of a UDP socket that is connected to a
-- target (`none` is an OSError), the addresses of the host's name, and what an address is.
pub record Ipv4 : Type 0 where
  pub is_private : Bool
  pub is_loopback : Bool
  pub is_link_local : Bool
  pub text : String

pub record Sockets : Type 0 where
  pub outbound : String → Option String
  pub addresses : Option (List String)
  pub ipv4 : String → Option Ipv4

abbrev is_usable : Ipv4 → Bool
is_usable ip = ip.is_private && not ip.is_loopback && not ip.is_link_local

unfoldable pub first_private : (String → Option Ipv4) → List String → Option String
first_private ipv4 [] = none
first_private ipv4 (addr ∷ addrs) =
    let rest = first_private ipv4 addrs in
    if starts_with addr "127."
    then rest
    else elim (ipv4 addr) [ none ↦ rest | some ip ↦ if is_usable ip then some ip.text else rest ]

unfoldable pub enumerated : Sockets → Option String
unfolding first_private
enumerated sockets = elim sockets.addresses [
  | none ↦ none
  | some addrs ↦ first_private sockets.ipv4 addrs
]

unfoldable pub detect_advertise_host : Sockets → String → Option String
unfolding enumerated
detect_advertise_host sockets probe_target = elim (sockets.outbound probe_target) [
  | none ↦ enumerated sockets
  | some addr ↦
      if not (is_empty addr) && not (starts_with addr "0.") then some addr else enumerated sockets
]

abbrev http_url : String → ℕ → String
http_url host port = "http://" <> host <> ":" <> print_nat port

-- `if detected` on an optional text.
abbrev given : Option String → Option String
given none = none
given (some s) = if is_empty s then none else some s

unfoldable pub resolve_advertise_url : Sockets → String → ℕ → String
unfolding detect_advertise_host
resolve_advertise_url sockets host port =
    if not (is_empty host) && not (host == "0.0.0.0" || host == "::")
    then http_url host port
    else http_url (or_else (given (detect_advertise_host sockets "8.8.8.8")) host) port

-- The server's state: the URL that it advertises, and whether it has a runner and a site.
pub record FileServer : Type 0 where
  pub public_base : Option String
  pub has_runner : Bool
  pub has_site : Bool

-- `setup` and `listen` are what aiohttp's runner and site do; a `listen` that fails is cleaned up,
-- one that is cancelled is not.
unfoldable pub start_server :
    Sockets
    → (setup listen : Result {0} Unit) → String
    → ℕ
    → Option String
    → FileServer
    → Result {0} Unit × FileServer
unfolding resolve_advertise_url
start_server sockets (err e) listen host port public_base_url server =
    (err e, record server { has_runner = true })
start_server sockets (ok _) (err cancelled) host port public_base_url server =
    (err cancelled, record server { has_runner = true; has_site = true })
start_server sockets (ok _) (err (raised class message)) host port public_base_url server =
    (err (raised class message), record server { has_runner = false; has_site = false })
start_server sockets (ok _) (ok _) host port public_base_url server =
    let fallback = resolve_advertise_url sockets host port in
    let base = or_else (given public_base_url) (or_else (given server.public_base) fallback) in
    (ok tt, record { public_base = some base; has_runner = true; has_site = true })

unfoldable pub stop_server : FileServer → FileServer
stop_server server = record server { has_runner = false; has_site = false }

-- `f"{resource}:{identifier}:{exp}"`
abbrev pub signed_message : String → String → ℕ → String
signed_message resource identifier exp = resource <> ":" <> identifier <> ":" <> print_nat exp

-- A request is answered by a text under a status, by a file, or by an install configuration.
pub data Response : Type 0 where
  text_response : (status : ℕ) (text : String) → Response
  file_response : (path : String) → Response
  config_response : (body : String) → Response

-- `digest` is the hexadecimal HMAC-SHA256 under the secret of the run.
module _ (digest : String → String) where
  unfoldable pub compute : String → String → ℕ → Result String
  compute resource identifier exp =
      let msg = signed_message resource identifier exp in
      if is_ascii msg
      then ok (digest msg)
      else err (raised "UnicodeEncodeError" "'ascii' codec can't encode characters")

  -- `now` is `int(time.time())`.
  unfoldable pub sign : ℕ → String → String → ℕ → Result (ℕ × String)
  unfolding compute
  sign now resource identifier ttl_seconds =
      let exp = now + ttl_seconds in
      elim (compute resource identifier exp) [ ok sig ↦ ok (exp, sig) | err e ↦ err e ]

  -- `hmac.compare_digest` on texts.
  abbrev pub compare_digest : String → String → Result Bool
  compare_digest a b =
      if is_ascii a && is_ascii b
      then ok (a == b)
      else err (raised "TypeError" "comparing strings with non-ASCII characters is not supported")

  unfoldable pub verify_until : ℕ → String → String → String → Option ℤ → Result Bool
  unfolding compute
  verify_until now resource identifier sig none = ok false
  verify_until now resource identifier sig (some (negsuc n)) = ok false
  verify_until now resource identifier sig (some (pos exp)) =
      if ltb exp now then ok false else elim (compute resource identifier exp) [
        | ok expected ↦ compare_digest expected sig
        | err e ↦ err e
      ]

  unfoldable pub verify : ℕ → String → String → String → String → Result Bool
  unfolding verify_until parse_int
  verify now resource identifier exp sig = verify_until now resource identifier sig (parse_int exp)

  abbrev not_started : Exn
  not_started =
      raised "RuntimeError"
        "File server has not been started — call start() before generating signed URLs."

  unfoldable pub signed_url : FileServer → ℕ → String → String → ℕ → Result String
  unfolding sign
  signed_url server now resource identifier ttl = elim server.public_base [
    | none ↦ err not_started
    | some base ↦ elim (sign now resource identifier ttl) [
      | err e ↦ err e
      | ok (exp, sig) ↦ ok (
          base
          <> "/"
          <> resource
          <> "/"
          <> identifier
          <> "?exp="
          <> print_nat exp
          <> "&sig="
          <> sig)
    ]
  ]

  unfoldable pub signed_iso_url : FileServer → ℕ → String → Result String
  unfolding signed_url
  signed_iso_url server now sha256 = signed_url server now "iso" sha256 7200

  unfoldable pub signed_autoinstall_url : FileServer → ℕ → String → Result String
  unfolding signed_url
  signed_autoinstall_url server now token = signed_url server now "autoinstall" token 300

  -- What a handler answers behind `if not verify(...)`.
  unfoldable pub checked : Result Bool → Response → Result Response
  checked (err e) response = err e
  checked (ok false) response = ok (text_response 403 "bad signature")
  checked (ok true) response = ok response

  abbrev pub iso_path : String → String → String
  iso_path iso_dir sha =
      if starts_with sha "/" then sha <> ".iso" else iso_dir <> "/" <> sha <> ".iso"

  unfoldable pub handle_iso :
      (iso_dir : String) (is_file : String → Bool) (now : ℕ) (sha exp sig : String)
      → Result Response
  unfolding checked verify
  handle_iso iso_dir is_file now sha exp sig =
      let path = iso_path iso_dir sha in
      checked (verify now "iso" sha exp sig)
        (if is_file path then file_response path else text_response 404 "not found")

  unfoldable pub provided : Option (String → Option String) → String → Response
  provided none token = text_response 503 "no provider"
  provided (some provider) token = elim (provider token) [
    | none ↦ text_response 404 "unknown token"
    | some body ↦ config_response body
  ]

  unfoldable pub handle_autoinstall :
      (provider : Option (String → Option String)) (now : ℕ) (token exp sig : String)
      → Result Response
  unfolding checked verify provided
  handle_autoinstall provider now token exp sig =
      checked (verify now "autoinstall" token exp sig) (provided provider token)
