-- ===== src/Servers/Upsert.antt =====
-- `upsert`: what a discovery keeps of a row and what it forgets.
use clusterone.Prelude.{
  is_empty, ◌≢◌, ◌⊎◌, Bool, Bool-cases, Option, String, [], arith, eq_iff, false, if◌then◌else◌,
  inl, inr, map, none, refl, some, suc, true, ◌++◌, ◌==◌, ◌∙◌, ◌∷◌, ◌≡◌,
}
use clusterone.Exec.{ok}
use clusterone.Jobs.{max_id}
use clusterone.Servers.{
  ServerFields, ServerRow, Servers, at_ip, get_by_ip, hw_changed, new_row, trimmed, update_known,
  upsert,
}

map_some : (ServerRow → ServerRow) → Option ServerRow → Option ServerRow
map_some g none = none
map_some g (some s) = some (g s)

get_by_ip-at_ip :
    (ip k : String) (g : ServerRow → ServerRow) (rows : Servers)
    → ((s : ServerRow) → (g s).ip ≡ s.ip)
    → get_by_ip k (at_ip ip g rows)
      ≡ (if ip == k then map_some g (get_by_ip k rows) else get_by_ip k rows)
unfolding get_by_ip map_some
get_by_ip-at_ip ip k g [] same = ground arith
get_by_ip-at_ip ip k g (s ∷ rows) same =
    ground
      (arith, same s, eq_iff s.ip ip, eq_iff s.ip k, eq_iff ip k, get_by_ip-at_ip ip k g rows same)

get_by_ip-append :
    (k : String) (rows : Servers) (s : ServerRow)
    → get_by_ip k (rows ++ s ∷ [])
      ≡ elim (get_by_ip k rows) [ some old ↦ some old | none ↦ if s.ip == k then some s else none ]
unfolding get_by_ip
get_by_ip-append k [] s = ground arith
get_by_ip-append k (r ∷ rows) s = ground (arith, get_by_ip-append k rows s)

-- The row of an address behind a discovery of it: the fields and the status are the new ones. What
-- the operator picked and the disks survive, unless both serials are known and differ.
pub data IsMerged (now status : String) (f : ServerFields) (old : ServerRow)
    : ServerRow → Type 0 where
  kept :
      (is_empty (trimmed old.serial) ≡ true)
        ⊎ ((is_empty (trimmed f.serial) ≡ true) ⊎ (trimmed old.serial ≡ trimmed f.serial))
      → IsMerged now status f old
          (record old { fields = f; status = status; last_seen = some now; updated_at = some now })
  forgotten :
      is_empty (trimmed old.serial) ≡ false
      → is_empty (trimmed f.serial) ≡ false
      → trimmed old.serial ≢ trimmed f.serial
      → IsMerged now status f old (record old {
        fields = f;
        status = status;
        oem_override = none;
        disks_json = none;
        disks_at = none;
        last_seen = some now;
        updated_at = some now;
      })

update_known-IsMerged :
    (now status : String) (f : ServerFields) (old : ServerRow)
    → IsMerged now status f old (update_known old.serial status f now old)
unfolding update_known hw_changed
update_known-IsMerged now status f old =
    let same = eq_iff (trimmed old.serial) (trimmed f.serial) in
    elim (Bool-cases (is_empty (trimmed old.serial))) [
      | inl a ↦ rw a (kept (inl a))
      | inr a ↦ elim (Bool-cases (is_empty (trimmed f.serial))) [
        | inl b ↦ rw (a, b) (kept (inr (inl b)))
        | inr b ↦ elim (Bool-cases (trimmed old.serial == trimmed f.serial)) [
          | inl c ↦ rw (a, b, c) (kept (inr (inr (same.0 c))))
          | inr c ↦ rw (a, b, c) (forgotten a b (λ e. ground (arith, c, same.1 e)))
        ]
      ]
    ]

ip-update_known :
    (serial : Option String) (status : String) (f : ServerFields) (now : String) (s : ServerRow)
    → (update_known serial status f now s).ip ≡ s.ip
unfolding update_known
ip-update_known serial status f now s = elim (Bool-cases (hw_changed serial f.serial)) [
  | inl e ↦ rw e
  | inr e ↦ rw e
]

-- A discovery of a known address with a status gives the id of its row, writes that row as
-- `IsMerged` says, and leaves the row of every other address as it was.
pub upsert_known :
    (ip status : String) (f : ServerFields) (now : String) (rows : Servers) (old : ServerRow)
    → get_by_ip ip rows ≡ some old
    → (row : ServerRow) × IsMerged now status f old row
      × ((upsert ip (some status) f now rows).0 ≡ ok old.id)
      × ((k : String)
          → get_by_ip k (upsert ip (some status) f now rows).1
            ≡ (if ip == k then some row else get_by_ip k rows))
unfolding upsert
upsert_known ip status f now rows old h = (
  update_known old.serial status f now old,
  update_known-IsMerged now status f old,
  rw (h, upsert),
  λ k.
      rw (h, upsert)
        (get_by_ip-at_ip ip k (update_known old.serial status f now) rows
            (ip-update_known old.serial status f now)
          ∙ known_row k (ip == k) refl),
)
  where
    known_row :
        (k : String) (b : Bool)
        → (ip == k) ≡ b
        → (if b
            then map_some (update_known old.serial status f now) (get_by_ip k rows)
            else get_by_ip k rows)
          ≡ (if b then some (update_known old.serial status f now old) else get_by_ip k rows)
    known_row k true e = rw (← (eq_iff ip k).0 e, h) (unfold map_some in refl)
    known_row k false e = refl

-- A discovery of an address that has no row adds one, which nobody has picked a vendor for, and
-- changes no other.
pub upsert_unknown :
    (ip k status : String) (f : ServerFields) (now : String) (rows : Servers)
    → get_by_ip ip rows ≡ none
    → let id = suc (max_id (map (λ (s : ServerRow). s.id) rows)) in
      get_by_ip k (upsert ip (some status) f now rows).1
      ≡ (if ip == k then some (new_row id ip status f now) else get_by_ip k rows)
unfolding upsert
upsert_unknown ip k status f now rows h =
    rw (h, upsert)
      (get_by_ip-append k rows
          (new_row (suc (max_id (map (λ (s : ServerRow). s.id) rows))) ip status f now)
        ∙ ground (arith, eq_iff ip k))
