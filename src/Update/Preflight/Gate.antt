-- ===== src/Update/Preflight/Gate.antt =====
-- What a positive verdict of the pre-flight rests on.
use clusterone.Prelude.{List, String, arith, inl, inr, or_else, refl, suc, true, zero, ℕ, ◌≡◌, ◌⊎◌}
use clusterone.Exec.{Result, cancelled, err, ok, raised}
use clusterone.Json.{Fields, bool, get_field, is_truthy}
use clusterone.Models.{Credentials, Firmware, ServerInfo}
use clusterone.Update.{Env, parse_redfish_root}
use clusterone.Update.Preflight.{
  Reader, check_busy, check_service, check_target, connection, has_target, inventory_ids, is_404,
  is_redfish, preflight_bmc, push_uri, running_tasks,
}

-- The inventory has a target, or a RedfishError on it is taken for one that is not there.
abbrev pub Targeted : Reader → Firmware → Type 0
Targeted read fw =
    ((ids : List String) × (inventory_ids read ≡ ok ids) × (has_target fw.type ids ≡ true))
    ⊎ ((class message : String) × (inventory_ids read ≡ err (raised class message))
        × (is_redfish class ≡ true)
        × (is_404 message ≡ true))

-- The reader's answers behind a positive verdict on `fw`.
pub record IsReady (read : Reader) (fw : Firmware) (us : Fields) : Type 0 where
  pub service : read "/redfish/v1/UpdateService" ≡ ok us
  pub enabled : is_truthy (or_else (get_field "ServiceEnabled" us) (bool true)) ≡ true
  pub uploads : is_truthy (push_uri us) ≡ true
  pub targeted : Targeted read fw

module _ (read : Reader) (fw : Firmware) (us : Fields) where
  target_cases :
      (x : Result (List String)) {m : String}
      → inventory_ids read ≡ x
      → check_target read fw us ≡ ok (true, m)
      → Targeted read fw
  unfolding check_target
  target_cases (ok ids) {m} e h = inl (ids, e, ground arith)
  target_cases (err cancelled) e h = absurd (ground arith)
  target_cases (err (raised class message)) e h =
      inr (class, message, e, ground arith, ground arith)

  busy_cases :
      (x : Result ℕ) {m : String}
      → running_tasks read ≡ x
      → check_busy read fw us ≡ ok (true, m)
      → Targeted read fw
  unfolding check_busy
  busy_cases (err cancelled) e h = absurd (ground arith)
  busy_cases (err (raised class message)) {m} e h =
      target_cases (inventory_ids read) {m = m} refl (ground arith)
  busy_cases (ok zero) {m} e h = target_cases (inventory_ids read) {m = m} refl (ground arith)
  busy_cases (ok (suc n)) e h = absurd (ground arith)

service_cases :
    (read : Reader) (info : ServerInfo) (fw : Firmware) (x : Result Fields) {m : String}
    → read "/redfish/v1/UpdateService" ≡ x
    → check_service read info fw ≡ ok (true, m)
    → (us : Fields) × IsReady read fw us
unfolding check_service
service_cases read info fw (err cancelled) e h = absurd (ground arith)
service_cases read info fw (err (raised class message)) e h = absurd (ground arith)
service_cases read info fw (ok us) {m} e h = (
  us,
  record {
    service = e;
    enabled = ground arith;
    uploads = ground arith;
    targeted = busy_cases read fw us (running_tasks read) {m = m} refl (ground arith);
  },
)

-- A flash goes on past the pre-flight only on a BMC whose update service was read, is enabled and
-- names an upload URI, and whose inventory was read or failed with a RedfishError whose message
-- contains 404 or Not Found: no other failure of the inventory lets it go on. If the image is for
-- the BMC or the BIOS, an inventory that was read has a target for it outside the rollback banks.
pub preflight-IsReady :
    (env : Env) (info : ServerInfo) (fw : Firmware) (creds : Credentials) (m : String)
    → preflight_bmc env info fw creds ≡ ok (true, m)
    → (root : String × ℕ × String) × (read : Reader) × (us : Fields) × (parse_redfish_root
          info.redfish_root
        ≡ ok root)
      × (env.connect (connection info creds root) ≡ ok read)
      × IsReady read fw us
unfolding preflight_bmc
preflight-IsReady env info fw creds m h = rooted (parse_redfish_root info.redfish_root) refl
  where
    Found : Type 0
    Found =
        (root : String × ℕ × String) × (read : Reader) × (us : Fields) × (parse_redfish_root
            info.redfish_root
          ≡ ok root)
        × (env.connect (connection info creds root) ≡ ok read)
        × IsReady read fw us

    connected :
        (root : String × ℕ × String) (x : Result Reader)
        → parse_redfish_root info.redfish_root ≡ ok root
        → env.connect (connection info creds root) ≡ x
        → Found
    connected root (err e) p c = absurd (ground arith)
    connected root (ok read) p c =
        let (us, r) =
          service_cases read info fw (read "/redfish/v1/UpdateService") {m = m} refl
            (ground arith) in
        (root, read, us, p, c, r)

    rooted : (x : Result (String × ℕ × String)) → parse_redfish_root info.redfish_root ≡ x → Found
    rooted (err e) p = absurd (ground arith)
    rooted (ok root) p = connected root (env.connect (connection info creds root)) p refl
