-- ===== src/Capabilities/Banks.antt =====
-- Which members of the firmware inventory core/plugins_api/capability_discoverer.py offers to flash.
use mathlib.Core.Option.{some-injective}
use mathlib.Core.Path.{subst}
use clusterone.Prelude.{
  All, Bool, Bool-cases, List, Option, String, [], ap, arith, eq_iff, if◌then◌else◌, inl, inr,
  last_segment, none, refl, some, sym, true, ◌&&◌, ◌==◌, ◌∙◌, ◌∷◌, ◌≡◌, ◌⊎◌,
}
use clusterone.Json.{Json}
use clusterone.Capabilities.{
  CapabilityMap, Dict, FirmwareMember, Inventory, bios_candidates, bmc_candidates,
  classify_component, is_active_bank, is_hgx_member, lookup, or_next, pick_active, pick_among, put,
  take_member,
}
use clusterone.Capabilities.Members.{
  add_extra, extra_members, firmware_member, further_classes, hgx_members, resolve_banks,
}

-- A member whose leaf names no rollback bank, and is of that class.
abbrev pub Flashable : String → String → Type 0
Flashable class uri =
    (is_active_bank (last_segment uri) ≡ true) × (classify_component (last_segment uri) ≡ class)

-- An entry of the inventory stands under its leaf, with the verdicts on it.
abbrev pub Judged : String × FirmwareMember → Type 0
Judged (leaf, m) =
    (leaf ≡ last_segment m.uri)
    × (m.is_active ≡ is_active_bank (last_segment m.uri))
    × (m.component_class ≡ classify_component (last_segment m.uri))

-- A member of an HGX baseboard, under its leaf.
abbrev pub HgxActive : String × String → Type 0
HgxActive (leaf, uri) =
    (leaf ≡ last_segment uri)
    × (is_hgx_member (last_segment uri) ≡ true)
    × (is_active_bank (last_segment uri) ≡ true)

put-All :
    {A : Type 0} (P : String × A → Type 0) (key : String) (v : A) (d : Dict A)
    → P (key, v)
    → All P d
    → All P (put key v d)
unfolding put
put-All P key v [] p h = (p, tt)
put-All P key v ((k, u) ∷ d) p (q, h) = elim (Bool-cases (k == key)) [
  | inl e ↦ rw e (subst (λ j. P (j, v)) (sym ((eq_iff k key).0 e)) p, h)
  | inr e ↦ rw e (q, put-All P key v d p h)
]

lookup-All :
    {A : Type 0} (P : String × A → Type 0) (key : String) (v : A) (d : Dict A)
    → All P d
    → lookup key d ≡ some v
    → P (key, v)
unfolding lookup
lookup-All P key v [] h e = absurd (ground (arith, e))
lookup-All P key v ((k, u) ∷ d) (q, h) e = elim (Bool-cases (k == key)) [
  | inl same ↦
      subst (λ j. P (j, v)) ((eq_iff k key).0 same)
        (subst (λ a. P (k, a)) (some-injective u v (rw same at e)) q)
  | inr other ↦ lookup-All P key v d h (rw other at e)
]

take_member-Flashable :
    (class leaf uri : String) (o : Option FirmwareMember)
    → ((m : FirmwareMember) → o ≡ some m → Judged (leaf, m))
    → take_member class o ≡ some uri
    → Flashable class uri
unfolding take_member
take_member-Flashable class leaf uri none h e = absurd (ground (arith, e))
take_member-Flashable class leaf uri (some m) h e =
    let (at, active, judged) = h m refl in
    elim (Bool-cases m.is_active) [
      | inr a ↦ absurd (ground (arith, rw a at e))
      | inl a ↦ elim (Bool-cases (m.component_class == class)) [
        | inr c ↦ absurd (ground (arith, rw (a, c) at e))
        | inl c ↦
            subst (Flashable class) (some-injective m.uri uri (rw (a, c) at e))
              (sym active ∙ a, sym judged ∙ (eq_iff m.component_class class).0 c)
      ]
    ]

or_next-cases :
    (o next : Option String) (uri : String)
    → or_next o next ≡ some uri
    → (o ≡ some uri) ⊎ (next ≡ some uri)
unfolding or_next
or_next-cases none next uri e = inr e
or_next-cases (some u) next uri e = inl e

pick_among-Flashable :
    (class uri : String) (inventory : Inventory) (leaves : List String)
    → All Judged inventory
    → pick_among class inventory leaves ≡ some uri
    → Flashable class uri
unfolding pick_among
pick_among-Flashable class uri inventory [] h e = absurd (ground (arith, e))
pick_among-Flashable class uri inventory (leaf ∷ leaves) h e =
    elim (or_next-cases (take_member class (lookup leaf inventory)) _ uri e) [
      | inl here ↦
          take_member-Flashable class leaf uri (lookup leaf inventory)
            (λ m q. lookup-All Judged leaf m inventory h q) here
      | inr there ↦ pick_among-Flashable class uri inventory leaves h there
    ]

pub pick_active-Flashable :
    (class uri : String) (priority : List String) (inventory : Inventory)
    → All Judged inventory
    → pick_active class priority inventory ≡ some uri
    → Flashable class uri
unfolding pick_active
pick_active-Flashable class uri priority inventory h e =
    elim (or_next-cases (pick_among class inventory priority) _ uri e) [
      | inl first ↦ pick_among-Flashable class uri inventory priority h first
      | inr then_sorted ↦ pick_among-Flashable class uri inventory _ h then_sorted
    ]

-- What a map offers: as BIOS and as BMC, under the further classes, and of an HGX baseboard.
pub data Offers (inventory : Inventory) (bios bmc : Option String) (extra hgx : Dict String)
    : Type 0 where
  safe :
      All Judged inventory
      → ((uri : String) → bios ≡ some uri → Flashable "bios" uri)
      → ((uri : String) → bmc ≡ some uri → Flashable "bmc" uri)
      → All (λ (e : String × String). Flashable e.0 e.1) extra
      → All HgxActive hgx
      → Offers inventory bios bmc extra hgx

abbrev pub IsSafe : CapabilityMap → Type 0
IsSafe c =
    Offers c.firmware_inventory c.bios_member_uri c.bmc_member_uri c.extra_firmware_members
      c.hgx_member_uris

firmware_member-Judged :
    (uri : String) (version : Json) (updateable : Bool) (software_id : Json) (related : List Json)
    → Judged (last_segment uri, firmware_member uri version updateable software_id related)
unfolding firmware_member
firmware_member-Judged uri version updateable software_id related = (refl, refl, refl)

add_extra-All :
    (class : String) (o : Option String) (extra : Dict String)
    → ((uri : String) → o ≡ some uri → Flashable class uri)
    → All (λ (e : String × String). Flashable e.0 e.1) extra
    → All (λ (e : String × String). Flashable e.0 e.1) (add_extra class o extra)
unfolding add_extra
add_extra-All class none extra h x = x
add_extra-All class (some uri) extra h x =
    put-All (λ (e : String × String). Flashable e.0 e.1) class uri extra (h uri refl) x

extra_members-All :
    (classes : List String) (inventory : Inventory) (extra : Dict String)
    → All Judged inventory
    → All (λ (e : String × String). Flashable e.0 e.1) extra
    → All (λ (e : String × String). Flashable e.0 e.1) (extra_members classes inventory extra)
unfolding extra_members
extra_members-All [] inventory extra h x = x
extra_members-All (k ∷ ks) inventory extra h x = extra_members-All ks inventory _ h (
    add_extra-All k (pick_active k [] inventory) extra
      (λ uri e. pick_active-Flashable k uri [] inventory h e) x)

keep_hgx-All :
    (leaf : String) (m : FirmwareMember) (found : Dict String)
    → leaf ≡ last_segment m.uri
    → m.is_active ≡ is_active_bank (last_segment m.uri)
    → All HgxActive found
    → All HgxActive (if is_hgx_member leaf && m.is_active then put leaf m.uri found else found)
keep_hgx-All leaf m found at active x = elim (Bool-cases (is_hgx_member leaf)) [
  | inr e ↦ rw e x
  | inl e ↦ elim (Bool-cases m.is_active) [
    | inr a ↦ rw (e, a) x
    | inl a ↦
        rw (e, a)
          (put-All HgxActive leaf m.uri found (at, ap is_hgx_member (sym at) ∙ e, sym active ∙ a) x)
  ]
]

hgx_members-All :
    (inventory : Inventory) (found : Dict String)
    → All Judged inventory
    → All HgxActive found
    → All HgxActive (hgx_members inventory found)
unfolding hgx_members
hgx_members-All [] found h x = x
hgx_members-All ((leaf, m) ∷ rest) found ((at, active, _), h) x =
    hgx_members-All rest _ h (keep_hgx-All leaf m found at active x)

pub resolve_banks-IsSafe : (c : CapabilityMap) → IsSafe c → IsSafe (resolve_banks c)
unfolding resolve_banks
resolve_banks-IsSafe c (safe inventory bios bmc extra hgx) =
    safe inventory
      (λ uri e. pick_active-Flashable "bios" uri bios_candidates c.firmware_inventory inventory e)
      (λ uri e. pick_active-Flashable "bmc" uri bmc_candidates c.firmware_inventory inventory e)
      (extra_members-All further_classes c.firmware_inventory c.extra_firmware_members inventory
        extra)
      (hgx_members-All c.firmware_inventory c.hgx_member_uris inventory hgx)

pub put-IsSafe :
    (uri : String) (version : Json) (updateable : Bool) (software_id : Json) (related : List Json)
    (c : CapabilityMap)
    → IsSafe c
    → IsSafe (record c {
      firmware_inventory =
          put
            (last_segment uri)
            (firmware_member uri version updateable software_id related)
            c.firmware_inventory;
    })
put-IsSafe uri version updateable software_id related c (safe inventory bios bmc extra hgx) =
    safe
      (put-All Judged (last_segment uri) _ c.firmware_inventory
        (firmware_member-Judged uri version updateable software_id related) inventory)
      bios bmc extra hgx
