-- ===== src/Models.antt =====
-- core/models: the values that services and plugins pass to one another, and the results of
-- core/plugins_api/base.py.
use clusterone.Prelude.{Bool, List, Option, String, upper, ℕ, ◌==◌}

-- core/models/drive.py
pub record Drive : Type 0 where
  pub name : String
  pub protocol : String
  pub media_type : String
  pub capacity_bytes : ℕ
  pub model : String
  pub serial : String
  pub slot : Option String
  pub redfish_uri : String

unfoldable pub is_nvme : Drive → Bool
is_nvme d = upper d.protocol == "NVME"

unfoldable pub is_ssd : Drive → Bool
is_ssd d = upper d.media_type == "SSD"

-- core/models/server.py
pub record Credentials : Type 0 where
  pub username : String
  pub password : String

pub record ServerInfo : Type 0 where
  pub ip : String
  pub hostname : Option String
  pub manufacturer : Option String
  pub oem : Option String
  pub model : Option String
  pub serial : Option String
  pub bmc_version : Option String
  pub bios_version : Option String
  pub redfish_root : Option String
  pub tls_fingerprint : Option String
  pub drives : List Drive

-- core/models/firmware.py
pub record Firmware : Type 0 where
  pub id : ℕ
  pub name : String
  pub type : String
  pub oem : String
  pub version : String
  pub file_path : String
  pub sha256 : String
  pub model : Option String
  pub size_bytes : ℕ

-- core/plugins_api/base.py
pub record RedfishProbe : Type 0 where
  pub ip : String
  pub manufacturer : Option String
  pub redfish_root : Option String

pub record CompatResult : Type 0 where
  pub compatible : Bool
  pub reason : String
  pub is_downgrade : Bool

pub record Outcome : Type 0 where
  pub success : Bool
  pub message : String
  pub version_after : Option String
