-- ===== src/Examples/ServiceRuns.antt =====
-- The theorems on the disk resolver, the file server, the installer and the power service at
-- concrete inputs.
use mathlib.Core.Path.{Path}
use clusterone.Prelude.{
  Bool-cases, List, Option, String, [], if◌then◌else◌, inl, inr, is_ascii, leb, lower, none,
  parse_nat, partition, print_nat, refl, select, some, starts_with, strip, true, ℕ, ◌*◌, ◌+◌, ◌/◌,
  ◌<>◌, ◌==◌, ◌∷◌, ◌≡◌, ◌≤◌,
}
use clusterone.Exec.{ok}
use clusterone.Models.{Drive}
use clusterone.Disks.{Resolution, apply_strategy, by_serial, is_sized, matched, resolve_disk}
use clusterone.Disks.Sizes.{Floats}
use clusterone.Disks.Extremes.{AtMost}
use clusterone.Disks.Sized.{IsBestOf, of_smallest, resolve_disk-IsBestOf}
use clusterone.Disks.Picks.{IsSound, resolve_disk-IsSound}
use clusterone.Serving.{compute, handle_autoinstall, handle_iso, iso_path, sign, verify}
use clusterone.Serving.Messages.{no_colon}
use clusterone.Serving.Access.{handle_autoinstall-sign, handle_iso-sign, verify-sign}

-- Whole percentages in place of floats.
abbrev pub percents : Floats ℕ
percents = record {
  of_text = parse_nat;
  tenth = 10;
  over_100 = λ x. x;
  times = λ x n. ok (x * n);
  within = λ d n x. leb (d * 100) (x * n);
  percent = λ x. ok (print_nat x);
  gigabytes = λ n. print_nat (n / 1000000000);
}

abbrev pub drive : String → ℕ → String → Drive
drive name bytes serial = record {
  name = name;
  protocol = "NVMe";
  media_type = "SSD";
  capacity_bytes = bytes;
  model = "PM9A3 " <> name;
  serial = serial;
  slot = none;
  redfish_uri = "";
}

abbrev pub drives : List Drive
drives = drive "a" 960000000000 "S1" ∷ drive "b" 480000000000 "S2" ∷ drive "c" 0 "S3" ∷ []

resolve_disk-IsSound_example :
    IsSound drives (matched (drive "b" 480000000000 "S2") "matched serial 'S2'")
unfolding resolve_disk apply_strategy by_serial lower strip starts_with partition
resolve_disk-IsSound_example = resolve_disk-IsSound percents "By_serial: S2 " drives _ refl

resolve_disk-IsBestOf_example :
    (r : Resolution) × (resolve_disk percents " smallest_disk" drives ≡ ok r)
    × IsBestOf AtMost (select is_sized drives) r
unfolding strip lower
resolve_disk-IsBestOf_example =
    resolve_disk-IsBestOf percents " smallest_disk" "smallest_disk" is_sized AtMost drives refl
      of_smallest

-- A digest in ASCII, and one that tells all texts apart.
abbrev ascii_digest : String → String
ascii_digest m = if is_ascii m then m else ""

ascii_digest-is_ascii : (m : String) → is_ascii (ascii_digest m) ≡ true
ascii_digest-is_ascii m = elim (Bool-cases (is_ascii m)) [ inl e ↦ rw e e | inr e ↦ rw e refl ]

abbrev plain_digest : String → String
plain_digest m = m

verify-sign_example :
    verify ascii_digest 8200 "iso" "ab12" (print_nat 8200) "iso:ab12:8200"
    ≡ ok (leb 8200 (1000 + 7200))
unfolding sign compute print_nat
verify-sign_example =
    verify-sign ascii_digest ascii_digest-is_ascii 1000 8200 "iso" "ab12" 7200 8200 "iso:ab12:8200"
      refl

abbrev configurations : String → Option String
configurations token = if token == "tok" then some "cfg" else none

handle_autoinstall-sign_example :
    (Path String "autoinstall" "autoinstall")
    × (Path String "tok" "tok")
    × (1100 ≤ 1000 + 300)
    × (configurations "tok" ≡ some "cfg")
unfolding sign compute print_nat handle_autoinstall verify no_colon
handle_autoinstall-sign_example =
    handle_autoinstall-sign plain_digest (λ m n h. h) configurations 1000 1100 300 1300
      "autoinstall" "tok" "tok" "1300" "autoinstall:tok:1300" "cfg" refl refl refl

handle_iso-sign_example :
    (Path String "iso" "iso")
    × (Path String "ab12" "ab12")
    × (1100 ≤ 1000 + 7200)
    × (Path String "isos/ab12.iso" (iso_path plain_digest "isos" "ab12"))
    × (true ≡ true)
unfolding sign compute print_nat handle_iso verify no_colon starts_with
handle_iso-sign_example =
    handle_iso-sign plain_digest (λ m n h. h) "isos" (λ path. true) 1000 1100 7200 8200 "iso" "ab12"
      "ab12" "8200" "iso:ab12:8200" "isos/ab12.iso" refl refl refl
