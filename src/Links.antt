-- ===== src/Links.antt =====
-- backend/app/api/routes/device_links.py: the links that operators draw. `show` prints an identifier;
-- the permission that a route requires is the gate of Admin.antt.
use network_monitoring.Prelude.{
  ℕ, String, refl, inl, inr, Bool, true, false, Option, none, some, List, [], arith, eq_iff,
  nat_beq, nat_beq_iff, Bool-cases, is_some, any, All, All-append, ◌≡◌, ◌∙◌, ◌&&◌, ◌||◌, ◌∷◌, ◌++◌,
  ◌==◌, if◌then◌else◌, nat_eq, string_eq,
}
use network_monitoring.Table
use network_monitoring.Text.{concat}
use network_monitoring.Device.{Device}
use network_monitoring.World.{World, DeviceLink, add_audit}
use network_monitoring.StateCache.Coherence.{device_id}
use network_monitoring.Parents.{Refusal, refuse}
use network_monitoring.Devices.{Answer}

pub record DeviceLinkCreate : Type 0 where
  pub source_id : ℕ
  pub target_id : ℕ
  pub kind : String
  pub label : Option String

abbrev pub link_id : DeviceLink → ℕ
link_id l = l.id

-- uq_device_links_edge
abbrev pub same_edge : DeviceLink → DeviceLink → Bool
same_edge a b =
    nat_beq a.source_id b.source_id && (nat_beq a.target_id b.target_id && a.kind == b.kind)

abbrev pub label_of : Option String → Option String
label_of none = none
label_of (some s) = if s == "" then none else some s

unfoldable pub list_links : World → List DeviceLink
list_links w = w.device_links

insert_link : (ℕ → String) → ℕ → DeviceLink → World → Answer DeviceLink × World
unfolding add_audit
insert_link show user l w =
    let logged =
      add_audit (some user) "device_link.create" (some "device") (some l.target_id)
        (some (concat (l.kind ∷ ": " ∷ show l.source_id ∷ " → " ∷ show l.target_id ∷ []))) w in
    if any (same_edge l) w.device_links
    then (inl (refuse 409 "This link already exists"), w)
    else (inr l, record logged { device_links = w.device_links ++ l ∷ [] })

-- `id` is the fresh uuid4 of the link
unfoldable pub create_link :
    (ℕ → String) → ℕ → ℕ → ℕ → DeviceLinkCreate → World → Answer DeviceLink × World
unfolding insert_link
create_link show user now id body w =
    if nat_beq body.source_id body.target_id
    then (inl (refuse 422 "A device cannot link to itself"), w)
    else if is_some (Table.find device_id body.source_id w.devices)
        && is_some (Table.find device_id body.target_id w.devices)
    then insert_link show user
        record {
          id = id;
          source_id = body.source_id;
          target_id = body.target_id;
          kind = body.kind;
          label = label_of body.label;
          created_by = some user;
          created_at = now;
        }
        w
    else (inl (refuse 404 "Both source and target devices must exist"), w)

unfoldable pub delete_link : (ℕ → String) → ℕ → ℕ → World → Option Refusal × World
unfolding add_audit
delete_link show user k w = elim (Table.find link_id k w.device_links) [
  | none ↦ (some (refuse 404 "Link not found"), w)
  | some l ↦
      let logged =
        add_audit (some user) "device_link.delete" (some "device") (some l.target_id)
          (some (concat (l.kind ∷ ": " ∷ show l.source_id ∷ " → " ∷ show l.target_id ∷ []))) w in
      (none, record logged { device_links = Table.delete link_id k w.device_links })
]

-- what every stored link is: between two different devices of the table
abbrev pub IsDrawn : List Device → DeviceLink → Type 0
IsDrawn rows l =
    (nat_beq l.source_id l.target_id ≡ false)
    × (is_some (Table.find device_id l.source_id rows) ≡ true)
    × (is_some (Table.find device_id l.target_id rows) ≡ true)

-- no two links with the same ends and kind
abbrev pub IsSimple : List DeviceLink → Type 0
IsSimple [] = Unit
IsSimple (l ∷ ls) = (any (same_edge l) ls ≡ false) × IsSimple ls

same_edge_sym : (a b : DeviceLink) → same_edge a b ≡ same_edge b a
same_edge_sym a b = ground (
  arith,
  eq_iff a.kind b.kind,
  eq_iff b.kind a.kind,
  nat_beq_iff a.source_id b.source_id,
  nat_beq_iff b.source_id a.source_id,
)

any-append_one :
    (p : DeviceLink → Bool) (ls : List DeviceLink) (l : DeviceLink)
    → any p ls ≡ false
    → p l ≡ false
    → any p (ls ++ l ∷ []) ≡ false
any-append_one p [] l h e = ground arith
any-append_one p (x ∷ ls) l h e = ground (arith, any-append_one p ls l)

none-left : (a b : Bool) → (a || b) ≡ false → (a ≡ false) × (b ≡ false)
none-left a b h = ground arith

IsSimple-append :
    (l : DeviceLink) (ls : List DeviceLink)
    → any (same_edge l) ls ≡ false
    → IsSimple ls
    → IsSimple (ls ++ l ∷ [])
IsSimple-append l [] fresh h = (refl, tt)
IsSimple-append l (x ∷ ls) fresh h =
    let (here, later) = none-left (same_edge l x) (any (same_edge l) ls) fresh in
    (
      any-append_one (same_edge x) ls l h.0 (same_edge_sym x l ∙ here),
      IsSimple-append l ls later h.1,
    )

both-true : (a b : Bool) → (a && b) ≡ true → (a ≡ true) × (b ≡ true)
both-true a b h = ground arith

-- A created link, or a refused one, leaves every link between two different devices of the table and
-- no two links alike.
pub create_link-IsSimple :
    (show : ℕ → String) (user now id : ℕ) (body : DeviceLinkCreate) (w : World)
    → All (IsDrawn w.devices) w.device_links
    → IsSimple w.device_links
    → All (IsDrawn w.devices) (create_link show user now id body w).1.device_links
      × IsSimple (create_link show user now id body w).1.device_links
unfolding create_link insert_link
create_link-IsSimple show user now id body w drawn simple =
    elim (Bool-cases (nat_beq body.source_id body.target_id)) [
      | inl e ↦ rw (e, create_link) (drawn, simple)
      | inr e ↦
          elim (Bool-cases (
            is_some (Table.find device_id body.source_id w.devices)
            && is_some (Table.find device_id body.target_id w.devices))) [
              | inr f ↦ rw (e, f, create_link) (drawn, simple)
              | inl f ↦
                  let l : DeviceLink = record {
                    id = id;
                    source_id = body.source_id;
                    target_id = body.target_id;
                    kind = body.kind;
                    label = label_of body.label;
                    created_by = some user;
                    created_at = now;
                  } in
                  elim (Bool-cases (any (same_edge l) w.device_links)) [
                    | inl g ↦ rw (e, f, g, create_link) (drawn, simple)
                    | inr g ↦
                        rw (e, f, g, create_link)
                          (
                            All-append (IsDrawn w.devices) w.device_links (l ∷ []) drawn
                                ((e, (both-true _ _ f).0, (both-true _ _ f).1), tt),
                            IsSimple-append l w.device_links g simple,
                          )
                  ]
            ]
    ]
