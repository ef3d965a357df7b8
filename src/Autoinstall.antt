-- ===== src/Autoinstall.antt =====
-- core/services/autoinstall_renderer.py: the install configuration of a host.
pub mod Templates
pub mod Handles
pub mod Targets
use Prim.Native.Char.{code}
use Prim.Native.String.{[], ◌∷◌}
use clusterone.Prelude.{
  Bool, Option, String, [], all_digits, false, if◌then◌else◌, is_empty, leb, lower, none, not,
  or_else, partition, some, starts_with, strip, strip_prefix, true, ℕ, ◌&&◌, ◌<>◌, ◌==◌, ◌||◌, ◌∷◌,
}
use clusterone.Exec.{Exn, Result, err, ok, raised}
use clusterone.Autoinstall.Templates.{Context, safe_substitute}

is_lower : ℕ → Bool
is_lower c = leb 97 c && leb c 122

unfoldable pub all_lower : String → Bool
unfolding is_lower
all_lower [] = true
all_lower (c ∷ s) = is_lower (code c) && all_lower s

-- `[a-z]+$`
unfoldable pub letters : Option String → Bool
unfolding all_lower
letters none = false
letters (some s) = not (is_empty s) && all_lower s

-- `\d+$` behind an `n`, and `\d+n\d+$`, of ASCII digits.
unfoldable pub tail_digits : String → Bool
unfolding all_digits
tail_digits s = not (is_empty s) && all_digits s

unfoldable pub digit_pair : Option (String × String) → Bool
unfolding tail_digits
digit_pair none = false
digit_pair (some p) = tail_digits p.0 && tail_digits p.1

unfoldable pub namespaced : Option String → Bool
unfolding digit_pair partition
namespaced none = false
namespaced (some s) = digit_pair (partition "n" s)

-- `^(nvme\d+n\d+|sd[a-z]+|vd[a-z]+)$` on a text that is trimmed.
unfoldable pub device_re : String → Bool
unfolding letters namespaced strip_prefix
device_re s =
    namespaced (strip_prefix "nvme" s)
    || letters (strip_prefix "sd" s)
    || letters (strip_prefix "vd" s)

pub record Snippets : Type 0 where
  pub disk_premount : String
  pub disk_directives : String
  pub disk_match : String

abbrev pub is_abs : String → Bool
is_abs device = starts_with device "/dev/"

abbrev bare : String → String
bare device = or_else (strip_prefix "/dev/" device) device

unfoldable pub is_device : String → Bool
unfolding device_re
is_device device = is_abs device || device_re device

abbrev pub is_cloud_init : String → Bool
is_cloud_init fam = fam == "ubuntu" || fam == "debian"

-- The script that looks for the disk of a serial, and the directives for a device.
abbrev premount : String → String
premount serial =
    "%pre --interpreter=/bin/bash --log=/tmp/clusterone-disk-resolve.log\n" <> "TARGET_SERIAL='"
    <> serial <> "'\nDEV=''\nfor d in /dev/nvme*n1 /dev/sd? /dev/vd?; do\n"
    <> "  [ -b \"$d\" ] || continue\n" <> "  sn=$(lsblk -ndo SERIAL \"$d\" 2>/dev/null)\n"
    <> "  if [ \"$sn\" = \"$TARGET_SERIAL\" ]; then DEV=\"${d#/dev/}\"; break; fi\n" <> "done\n"
    <> "if [ -z \"$DEV\" ]; then echo \"ClusterOne: no disk with serial "
    <> "$TARGET_SERIAL found\" >&2; exit 1; fi\n" <> "cat > /tmp/clusterone-disk.ks <<EOF\n"
    <> "ignoredisk --only-use=$DEV\n" <> "clearpart --drives=$DEV --all --initlabel\n"
    <> "bootloader --boot-drive=$DEV --location=mbr\n" <> "EOF\n%end"

abbrev directives : String → String
directives dev =
    "ignoredisk --only-use=" <> dev <> "\nclearpart --drives=" <> dev
    <> " --all --initlabel\nbootloader --boot-drive=" <> dev <> " --location=mbr"

abbrev pub by_serial_snippets : String → String → Snippets
by_serial_snippets fam serial =
    if is_cloud_init fam
    then record { disk_premount = ""; disk_directives = ""; disk_match = "serial: " <> serial }
    else record {
      disk_premount = premount serial;
      disk_directives = "%include /tmp/clusterone-disk.ks";
      disk_match = "";
    }

abbrev pub by_device_snippets : String → String → Snippets
by_device_snippets fam device =
    if is_cloud_init fam
    then record {
      disk_premount = "";
      disk_directives = "";
      disk_match = "path: " <> (if is_abs device then device else "/dev/" <> device);
    }
    else record { disk_premount = ""; disk_directives = directives (bare device); disk_match = "" }

-- `quoted` is `repr` of the device's text.
abbrev pub cannot_target : (String → String) → String → Exn
cannot_target quoted device = raised "ValueError" (
    "cannot target a disk safely: no serial reported and "
    <> quoted device
    <> " is not a Linux device handle — refusing to guess which disk to wipe")

unfoldable pub disk_snippets :
    (quoted : String → String) (os_family device serial : String) → Result Snippets
unfolding is_device
disk_snippets quoted os_family device serial =
    let fam = lower os_family in
    let dev = strip device in
    let sn = strip serial in
    if is_empty sn && not (is_device dev)
    then err (cannot_target quoted dev)
    else if is_empty sn
    then ok (by_device_snippets fam dev)
    else ok (by_serial_snippets fam sn)

-- `read_template` gives the text of a bundled file; `none` says that it is not there.
unfoldable pub bundled_name : String → Option String
bundled_name fam =
    if fam == "rocky" || fam == "rhel" || fam == "alma"
    then some "rocky9_minimal.ks"
    else if fam == "ubuntu" || fam == "debian"
    then some "ubuntu24_minimal.yaml"
    else none

unfoldable pub builtin_template : (String → Option String) → String → Result String
unfolding bundled_name
builtin_template read_template os_family = elim (bundled_name (lower os_family)) [
  | none ↦
      err (
        raised "ValueError" ("No bundled autoinstall template for OS family '" <> os_family <> "'"))
  | some fname ↦ elim (read_template fname) [
    | none ↦ err (raised "FileNotFoundError" ("Bundled template missing on disk: " <> fname))
    | some body ↦ ok body
  ]
]

-- What a host brings to its configuration.
pub record Host : Type 0 where
  pub hostname : String
  pub ip : String
  pub disk : String
  pub root_password : String
  pub serial : String
  pub ssh_authorized_keys : String
  pub gateway : String
  pub nameserver : String

abbrev pub disk_path : String → String
disk_path clean = if starts_with clean "/" then clean else "/dev/" <> clean

abbrev pub context : Host → Snippets → Context
context h s =
    ("hostname", if is_empty h.hostname then "unnamed-host" else h.hostname)
    ∷ ("ip", h.ip)
    ∷ ("disk", strip h.disk)
    ∷ ("disk_path", disk_path (strip h.disk))
    ∷ ("disk_serial", strip h.serial)
    ∷ ("disk_match", s.disk_match)
    ∷ ("disk_premount", s.disk_premount)
    ∷ ("disk_directives", s.disk_directives)
    ∷ ("root_password", h.root_password)
    ∷ ("ssh_authorized_keys", h.ssh_authorized_keys)
    ∷ ("gateway", h.gateway)
    ∷ ("nameserver", h.nameserver)
    ∷ []

unfoldable pub template_of : (String → Option String) → String → String → Result String
unfolding builtin_template
template_of read_template template_body os_family =
    if is_empty (strip template_body)
    then builtin_template read_template os_family
    else ok template_body

unfoldable pub render :
    (String → Option String)
    → (quoted : String → String) → (template_body os_family : String) → Host
    → Result String
unfolding template_of disk_snippets safe_substitute
render read_template quoted template_body os_family h =
    elim (template_of read_template template_body os_family) [
      | err e ↦ err e
      | ok body ↦ elim (disk_snippets quoted os_family h.disk h.serial) [
        | err e ↦ err e
        | ok snippets ↦ ok (safe_substitute (context h snippets) body)
      ]
    ]
