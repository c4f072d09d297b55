-- ===== src/Discovery/Sweep.antt =====
-- What a sweep writes (backend/app/services/discovery.py).
use network_monitoring.Prelude.{
  ℕ, String, refl, ap, inl, inr, not, Option, List, [], map, Bool-cases, keep, All, contains, ◌≡◌,
  ◌∙◌, ◌∷◌, ◌==◌, nat_eq, string_eq,
}
use network_monitoring.World.{DiscoveredDevice}
use network_monitoring.Discovery.{Hit, row_ip, hit_ip, touch, record_hits}

-- what a later sweep leaves of a row: all but the last contact
pub record Entry : Type 0 where
  pub id : ℕ
  pub ip_address : String
  pub hostname : Option String
  pub status : String
  pub first_seen : ℕ

abbrev pub entry : DiscoveredDevice → Entry
entry r = record {
  id = r.id;
  ip_address = r.ip_address;
  hostname = r.hostname;
  status = r.status;
  first_seen = r.first_seen;
}

entries-touch :
    (now : ℕ) (h : Hit) (rows : List DiscoveredDevice)
    → map entry (touch now h rows) ≡ map entry rows
unfolding touch
entries-touch now h [] = refl
entries-touch now h (r ∷ rows) = elim (Bool-cases (r.ip_address == h.ip)) [
  | inl e ↦ rw (e) (ap (◌∷◌ (entry r)) (entries-touch now h rows))
  | inr e ↦ rw (e) (ap (◌∷◌ (entry r)) (entries-touch now h rows))
]

ips-touch :
    (now : ℕ) (h : Hit) (rows : List DiscoveredDevice)
    → map row_ip (touch now h rows) ≡ map row_ip rows
unfolding touch
ips-touch now h [] = refl
ips-touch now h (r ∷ rows) = elim (Bool-cases (r.ip_address == h.ip)) [
  | inl e ↦ rw (e) (ap (◌∷◌ r.ip_address) (ips-touch now h rows))
  | inr e ↦ rw (e) (ap (◌∷◌ r.ip_address) (ips-touch now h rows))
]

-- the addresses of the hits that the table does not hold yet
abbrev pub fresh : List String → List String → List String
fresh ips known = keep (λ ip. not (contains ip known)) ips

module _ (new_id : String → ℕ) (now : ℕ) where
  pub record_hits-entries :
      (hits : List Hit) (rows : List DiscoveredDevice)
      → map entry (record_hits new_id now hits rows).0 ≡ map entry rows
  unfolding record_hits
  record_hits-entries [] rows = refl
  record_hits-entries (h ∷ hits) rows = elim (Bool-cases (contains h.ip (map row_ip rows))) [
    | inl e ↦
        rw (e, record_hits) (record_hits-entries hits (touch now h rows) ∙ entries-touch now h rows)
    | inr e ↦ rw (e, record_hits) (record_hits-entries hits rows)
  ]

  pub record_hits-ips :
      (hits : List Hit) (rows : List DiscoveredDevice)
      → map row_ip (record_hits new_id now hits rows).0 ≡ map row_ip rows
  unfolding record_hits
  record_hits-ips [] rows = refl
  record_hits-ips (h ∷ hits) rows = elim (Bool-cases (contains h.ip (map row_ip rows))) [
    | inl e ↦ rw (e, record_hits) (record_hits-ips hits (touch now h rows) ∙ ips-touch now h rows)
    | inr e ↦ rw (e, record_hits) (record_hits-ips hits rows)
  ]

  pub record_hits-fresh :
      (hits : List Hit) (rows : List DiscoveredDevice)
      → map row_ip (record_hits new_id now hits rows).1 ≡ fresh (map hit_ip hits) (map row_ip rows)
  unfolding record_hits
  record_hits-fresh [] rows = refl
  record_hits-fresh (h ∷ hits) rows = elim (Bool-cases (contains h.ip (map row_ip rows))) [
    | inl e ↦
        rw (e, record_hits)
          (record_hits-fresh hits (touch now h rows)
            ∙ ap (fresh (map hit_ip hits)) (ips-touch now h rows))
    | inr e ↦ rw (e, record_hits) (ap (◌∷◌ h.ip) (record_hits-fresh hits rows))
  ]

  pub record_hits-new :
      (hits : List Hit) (rows : List DiscoveredDevice)
      → All
          (λ (r : DiscoveredDevice). (r.status ≡ "new") × (r.last_seen ≡ now))
          (record_hits new_id now hits rows).1
  unfolding record_hits
  record_hits-new [] rows = tt
  record_hits-new (h ∷ hits) rows = elim (Bool-cases (contains h.ip (map row_ip rows))) [
    | inl e ↦ rw (e, record_hits) (record_hits-new hits (touch now h rows))
    | inr e ↦ rw (e, record_hits) ((refl, refl), record_hits-new hits rows)
  ]
