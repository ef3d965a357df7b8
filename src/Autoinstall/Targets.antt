-- ===== src/Autoinstall/Targets.antt =====
-- Which disk a configuration targets.
use mathlib.Core.Path.{subst}
use clusterone.Prelude.{
  Bool, Option, String, arith, false, if◌then◌else◌, inl, inr, is_empty, lower, not, refl, strip,
  true, ◌&&◌, ◌≡◌, ◌⊎◌,
}
use clusterone.Exec.{Result, err, ok}
use clusterone.Autoinstall.{
  Host, Snippets, by_device_snippets, by_serial_snippets, cannot_target, context, disk_snippets,
  is_device, render, template_of,
}
use clusterone.Autoinstall.Handles.{IsDeviceText, is_device_iff}
use clusterone.Autoinstall.Templates.{safe_substitute}

module _ (quoted : String → String) (os_family device serial : String) where
  -- A serial decides alone; without one the device's text has to be of the accepted form, and
  -- decides alone.
  pub data IsTargeted : Result Snippets → Type 0 where
    by_serial :
        is_empty (strip serial) ≡ false
        → IsTargeted (ok (by_serial_snippets (lower os_family) (strip serial)))
    by_device :
        is_empty (strip serial) ≡ true
        → IsDeviceText (strip device)
        → IsTargeted (ok (by_device_snippets (lower os_family) (strip device)))
    untargeted :
        is_empty (strip serial) ≡ true
        → (IsDeviceText (strip device) → ⊥)
        → IsTargeted (err (cannot_target quoted (strip device)))

  targeted_when :
      (no_serial genuine : Bool)
      → is_empty (strip serial) ≡ no_serial
      → is_device (strip device) ≡ genuine
      → IsTargeted (
          if no_serial && not genuine
          then err (cannot_target quoted (strip device))
          else if no_serial
          then ok (by_device_snippets (lower os_family) (strip device))
          else ok (by_serial_snippets (lower os_family) (strip serial)))
  targeted_when false genuine h k = by_serial h
  targeted_when true false h k =
      untargeted h (λ handle. ground (arith, k, (is_device_iff (strip device)).1 handle))
  targeted_when true true h k = by_device h ((is_device_iff (strip device)).0 k)

  target_of :
      (s : Result Snippets) (found : Snippets)
      → IsTargeted s
      → s ≡ ok found
      → (is_empty (strip serial) ≡ false) ⊎ IsDeviceText (strip device)
  target_of s found (by_serial h) e = inl h
  target_of s found (by_device h k) e = inr k
  target_of s found (untargeted h k) e = absurd (ground (arith, e))

-- The snippets for a disk: those of the serial where one is reported, whatever the device; else
-- those of the device's text where that is anything under `/dev/` or has the form of an nvme, sd
-- or vd name; else a ValueError.
pub disk_snippets-IsTargeted :
    (quoted : String → String) (os_family device serial : String)
    → IsTargeted quoted os_family device serial (disk_snippets quoted os_family device serial)
unfolding disk_snippets
disk_snippets-IsTargeted quoted os_family device serial =
    targeted_when quoted os_family device serial (is_empty (strip serial))
      (is_device (strip device)) refl refl

snippets_behind :
    (f : Snippets → String) (r : Result Snippets) (text : String)
    → ◌≡◌ {A = Result String} (elim r [ err e ↦ err e | ok s ↦ ok (f s) ]) (ok text)
    → (s : Snippets) × (r ≡ ok s) × (text ≡ f s)
snippets_behind f (err e) text h = absurd (ground (arith, h))
snippets_behind f (ok s) text h = (s, refl, ground (arith, h))

body_behind :
    (f : String → Result String) (r : Result String) (text : String)
    → elim r [ err e ↦ err e | ok body ↦ f body ] ≡ ok text
    → (body : String) × (r ≡ ok body) × (f body ≡ ok text)
body_behind f (err e) text h = absurd (ground (arith, h))
body_behind f (ok body) text h = (body, refl, h)

-- A configuration that is rendered is its template under the context of the host and of snippets
-- that are of the serial, where one is reported, or of the device's text, which then is anything
-- under `/dev/` or has the form of an nvme, sd or vd name. Whether the template has a place for the
-- snippets is not asked.
pub render-IsTargeted :
    (read_template : String → Option String) (quoted : String → String)
    (template_body os_family : String) (h : Host) (text : String)
    → render read_template quoted template_body os_family h ≡ ok text
    → (body : String) × (s : Snippets) × (template_of read_template template_body os_family
        ≡ ok body)
      × (IsTargeted quoted os_family h.disk h.serial (ok s))
      × ((is_empty (strip h.serial) ≡ false) ⊎ IsDeviceText (strip h.disk))
      × (text ≡ safe_substitute (context h s) body)
unfolding render
render-IsTargeted read_template quoted template_body os_family h text e =
    let (body, found, k) =
      body_behind _ (template_of read_template template_body os_family) text e in
    let (s, made, same) =
      snippets_behind (λ s. safe_substitute (context h s) body)
        (disk_snippets quoted os_family h.disk h.serial) text k in
    let target = disk_snippets-IsTargeted quoted os_family h.disk h.serial in
    (
      body,
      s,
      found,
      subst (IsTargeted quoted os_family h.disk h.serial) made target,
      target_of quoted os_family h.disk h.serial (disk_snippets quoted os_family h.disk h.serial) s
          target made,
      same,
    )
