-- ===== src/Update/Preflight.antt =====
-- `_preflight_bmc`: what the orchestrator reads of a BMC before it sends an image.
pub mod Gate
use clusterone.Prelude.{
  Bool, List, String, [], any, contains, false, find, has_text, if◌then◌else◌, last_segment, lower,
  none, not, or_else, print_nat, replace, some, suc, true, upper, zero, ℕ, ◌&&◌, ◌+◌, ◌<>◌, ◌==◌,
  ◌||◌, ◌∷◌,
}
use clusterone.Exec.{Exn, Result, cancelled, err, ok, raised}
use clusterone.Json.{
  Fields, Items, Json, arr, bool, cons, end, get, get_field, get_or_null, is_truthy, items, nil,
  no_attribute, null, obj, show, str, type_name,
}
use clusterone.Models.{Credentials, Firmware, ServerInfo}
use clusterone.Update.{Connection, Env, parse_redfish_root}

-- `RedfishError` and its subclasses.
abbrev pub is_redfish : String → Bool
is_redfish class =
    contains class
      ("RedfishError" ∷ "RedfishConnectionError" ∷ "RedfishAccessError" ∷ "RedfishHTTPError" ∷ [])

-- `except RedfishError as exc`: the handler gets the message, and any other exception goes on.
abbrev pub on_redfish {ℓ} : {A : Type ℓ} → Exn → (String → Result A) → Result A
on_redfish cancelled handler = err cancelled
on_redfish (raised class message) handler =
    if is_redfish class then handler message else err (raised class message)

abbrev pub Reader : Type 0
Reader = String → Result Fields

abbrev pub Verdict : Type 0
Verdict = Bool × String

unfoldable pub push_uri : Fields → Json
push_uri us =
    let multipart = get_or_null "MultipartHttpPushUri" us in
    if is_truthy multipart then multipart else get_or_null "HttpPushUri" us

-- `(value or "").lower()`
unfoldable pub lower_text : Json → Result String
lower_text (str s) = ok (lower s)
lower_text j = if is_truthy j then no_attribute "lower" j else ok ""

-- How many members have a URI with "update" in it.
unfoldable pub count_updates : List Json → Result ℕ
unfolding lower_text
count_updates [] = ok 0
count_updates (m ∷ ms) =
    let rest = count_updates ms in
    elim (get "@odata.id" m) [
      | err e ↦ err e
      | ok v ↦ elim (lower_text (or_else v null)) [
        | err e ↦ err e
        | ok uri ↦ elim rest [
          | err e ↦ err e
          | ok n ↦ ok (if has_text uri "update" then n + 1 else n)
        ]
      ]
    ]

unfoldable pub running_tasks : Reader → Result ℕ
unfolding count_updates
running_tasks read = elim (read "/redfish/v1/TaskService/Tasks") [
  | err e ↦ err e
  | ok tasks ↦ elim (items (get_or_null "Members" tasks)) [
    | err e ↦ err e
    | ok ms ↦ count_updates ms
  ]
]

-- `m["@odata.id"].rsplit("/", 1)[-1]`
segment_of : Json → Result String
segment_of (str s) = ok (last_segment s)
segment_of j = no_attribute "rsplit" j

member_id : Json → Result String
unfolding segment_of
member_id (obj fs) = elim (get_field "@odata.id" fs) [
  | none ↦ err (raised "KeyError" "'@odata.id'")
  | some v ↦ segment_of v
]
member_id j = err (raised "TypeError" ("'" <> type_name j <> "' object is not subscriptable"))

member_ids : List Json → Result (List String)
unfolding member_id
member_ids [] = ok []
member_ids (m ∷ ms) =
    let rest = member_ids ms in
    elim (member_id m) [ err e ↦ err e | ok i ↦ elim rest [ err e ↦ err e | ok is ↦ ok (i ∷ is) ] ]

unfoldable pub inventory_ids : Reader → Result (List String)
unfolding member_ids
inventory_ids read = elim (read "/redfish/v1/UpdateService/FirmwareInventory") [
  | err e ↦ err e
  | ok fi ↦ elim (items (get_or_null "Members" fi)) [ err e ↦ err e | ok ms ↦ member_ids ms ]
]

-- Rollback banks: a target whose id names one is never counted.
unfoldable pub is_banned : String → Bool
is_banned i = any (λ b. has_text i b) ("Backup" ∷ "Golden" ∷ "Staging" ∷ "Image2" ∷ "Image_2" ∷ [])

unfoldable pub is_target : String → String → Bool
unfolding is_banned
is_target fw_type i =
    if fw_type == "BIOS"
    then (has_text i "BIOS" || has_text i "UEFI") && not (is_banned i)
    else any (λ k. has_text i k) ("BMC" ∷ "iDRAC" ∷ "iLO" ∷ "XCC" ∷ "Manager" ∷ [])
      && not (is_banned i)

unfoldable pub has_target : String → List String → Bool
unfolding is_target
has_target fw_type ids =
    if fw_type == "BIOS" || fw_type == "BMC" then any (is_target fw_type) ids else true

target_label : String → List String → String
unfolding is_banned
target_label fw_type ids =
    or_else (find (λ i. has_text (upper i) fw_type && not (is_banned i)) ids) fw_type

abbrev quoted : List String → Items
quoted [] = nil
quoted (i ∷ is) = cons (str i) (quoted is)

ready : Fields → String → Bool × String
ready us label = (
  true,
  replace "  " " " (
      "BMC ready — push="
      <> show (push_uri us)
      <> " target="
      <> label
      <> " vendor="
      <> show (or_else (get_field "Oem" us) (obj end))),
)

unfoldable pub is_404 : String → Bool
is_404 message = has_text message "404" || has_text message "Not Found"

unfoldable pub check_target : Reader → Firmware → Fields → Result Verdict
unfolding ready target_label
check_target read fw us = elim (inventory_ids read) [
  | err e ↦ on_redfish e λ message. ok (
      if is_404 message then ready us fw.type else (
        false,
        "FirmwareInventory probe failed (" <> message
            <> "). Refusing to proceed — transient probe failure could mask a missing-target condition and corrupt a rollback bank.",
      ))
  | ok ids ↦ ok (
      if has_target fw.type ids then ready us (target_label fw.type ids) else (
        false,
        "No " <> fw.type <> " target in FirmwareInventory (saw: " <> show (arr (quoted ids)) <> ")",
      ))
]

-- A BMC without a readable TaskService is not asked.
unfoldable pub check_busy : Reader → Firmware → Fields → Result Verdict
unfolding check_target
check_busy read fw us = elim (running_tasks read) [
  | err e ↦ on_redfish e λ _. check_target read fw us
  | ok zero ↦ check_target read fw us
  | ok (suc n) ↦ ok (
    false,
    "BMC is busy (" <> print_nat (suc n) <> " active task(s)) — wait or cancel them first",
  )
]

unfoldable pub check_service : Reader → ServerInfo → Firmware → Result Verdict
unfolding check_busy
check_service read info fw = elim (read "/redfish/v1/UpdateService") [
  | err e ↦ on_redfish e λ message. ok (false, info.ip <> " " <> message)
  | ok us ↦
      if not (is_truthy (or_else (get_field "ServiceEnabled" us) (bool true)))
      then ok (false, "UpdateService is disabled on the BMC")
      else if not (is_truthy (push_uri us))
      then ok (false, "BMC advertises no upload URI (no MultipartHttpPushUri / HttpPushUri)")
      else check_busy read fw us
]

abbrev pub connection : ServerInfo → Credentials → String × ℕ × String → Connection
connection info creds (host, port, scheme) = record {
  host = host;
  port = port;
  scheme = scheme;
  credentials = creds;
  tls_fingerprint = info.tls_fingerprint;
}

unfoldable pub preflight_bmc : Env → ServerInfo → Firmware → Credentials → Result Verdict
unfolding check_service
preflight_bmc env info fw creds = elim (parse_redfish_root info.redfish_root) [
  | err e ↦ err e
  | ok root ↦ elim (env.connect (connection info creds root)) [
    | err e ↦ err e
    | ok read ↦ check_service read info fw
  ]
]
