-- ===== src/Discovery/Distinct.antt =====
-- When a sweep can be committed (backend/app/services/discovery.py).
use mathlib.Core.List.{map-append}
use network_monitoring.Prelude.{
  ℕ, String, refl, sym, ap, inl, inr, Bool, true, false, not, List, [], map, arith, eq_iff,
  Bool-cases, length, keep, all, length-map, contains, ◌≡◌, ◌∙◌, ◌⊎◌, ◌&&◌, ◌||◌, ◌∷◌, ◌++◌, nat_eq,
  string_eq,
}
use network_monitoring.Discovery.{
  integrity_error, record_hits, hit_ip, row_ip, World, DiscoveredDevice, record_sweep, Hit,
  distinct,
}
use network_monitoring.Discovery.Sweep.{record_hits-ips, record_hits-fresh, fresh}

contains-keep :
    (x : String) (p : String → Bool) (xs : List String)
    → contains x (keep p xs) ≡ (p x && contains x xs)
contains-keep x p [] = ground arith
contains-keep x p (y ∷ xs) = ground (arith, contains-keep x p xs, eq_iff y x)

distinct-keep :
    (p : String → Bool) (xs : List String) → distinct xs ≡ true → distinct (keep p xs) ≡ true
distinct-keep p [] h = refl
distinct-keep p (x ∷ xs) h = ground (arith, contains-keep x p xs, distinct-keep p xs)

contains-append :
    (x : String) (xs ys : List String) → contains x (xs ++ ys) ≡ (contains x xs || contains x ys)
contains-append x [] ys = refl
contains-append x (y ∷ xs) ys = ground (arith, contains-append x xs ys)

-- no text of the first list is in the second
abbrev apart : List String → List String → Bool
apart xs ys = all (λ x. not (contains x ys)) xs

distinct-append :
    (xs ys : List String) → apart xs ys ≡ true → distinct (xs ++ ys) ≡ (distinct xs && distinct ys)
distinct-append [] ys h = refl
distinct-append (x ∷ xs) ys h = ground (arith, contains-append x xs ys, distinct-append xs ys)

apart-fresh :
    (known xs ips : List String)
    → all (λ x. contains x known) xs ≡ true
    → apart xs (fresh ips known) ≡ true
apart-fresh known [] ips h = refl
apart-fresh known (x ∷ xs) ips h =
    ground (arith, contains-keep x (λ ip. not (contains ip known)) ips, apart-fresh known xs ips)

all-contains-cons :
    (y : String) (known xs : List String)
    → all (λ x. contains x known) xs ≡ true
    → all (λ x. contains x (y ∷ known)) xs ≡ true
all-contains-cons y known [] h = refl
all-contains-cons y known (x ∷ xs) h = ground (arith, all-contains-cons y known xs)

all-contains : (xs : List String) → all (λ x. contains x xs) xs ≡ true
all-contains [] = refl
all-contains (x ∷ xs) = ground (arith, eq_iff x x, all-contains-cons x xs xs (all-contains xs))

-- the addresses of the table with those that are fresh
distinct-append-fresh :
    (known ips : List String)
    → distinct known ≡ true
    → distinct (known ++ fresh ips known) ≡ distinct (fresh ips known)
distinct-append-fresh known ips h =
    distinct-append known (fresh ips known) (apart-fresh known known ips (all-contains known))
    ∙ rw (h) refl

module _ (new_id : String → ℕ) (now : ℕ) where
  record_hits-append :
      (hits : List Hit) (rows : List DiscoveredDevice)
      → map row_ip ((record_hits new_id now hits rows).0 ++ (record_hits new_id now hits rows).1)
        ≡ map row_ip rows ++ fresh (map hit_ip hits) (map row_ip rows)
  record_hits-append hits rows =
      map-append row_ip (record_hits new_id now hits rows).0 (record_hits new_id now hits rows).1
      ∙ rw (record_hits-ips new_id now hits rows, record_hits-fresh new_id now hits rows) refl

  -- The end of a sweep, if the table holds no address twice: it is committed exactly if no address
  -- that the table lacks has answered twice (as one in two overlapping subnets does), and then the
  -- table gains those addresses and counts them; otherwise nothing of the sweep is written.
  pub record_sweep-distinct :
      (swept : ℕ) (hits : List Hit) (w : World)
      → distinct (map row_ip w.discovered) ≡ true
      → ((distinct (fresh (map hit_ip hits) (map row_ip w.discovered)) ≡ true)
          × ((record_sweep new_id now swept hits w).0
              ≡ inr record {
                swept = swept;
                alive = length hits;
                new = length (fresh (map hit_ip hits) (map row_ip w.discovered));
              })
          × (map row_ip (record_sweep new_id now swept hits w).1.discovered
              ≡ map row_ip w.discovered ++ fresh (map hit_ip hits) (map row_ip w.discovered)))
        ⊎ ((distinct (fresh (map hit_ip hits) (map row_ip w.discovered)) ≡ false)
            × (record_sweep new_id now swept hits w ≡ (inl integrity_error, w)))
  unfolding record_sweep
  record_sweep-distinct swept hits w h =
      let known = map row_ip w.discovered in
      let same = record_hits-append hits w.discovered in
      let ends = ap distinct same ∙ distinct-append-fresh known (map hit_ip hits) h in
      elim (Bool-cases (distinct (fresh (map hit_ip hits) known))) [
        | inl e ↦ inl (
          e,
          rw (ends ∙ e, record_sweep)
              (ap (λ n. inr record { swept = swept; alive = length hits; new = n })
                (sym (length-map row_ip (record_hits new_id now hits w.discovered).1)
                  ∙ ap length (record_hits-fresh new_id now hits w.discovered))),
          rw (ends ∙ e, record_sweep) same,
        )
        | inr e ↦ inr (e, rw (ends ∙ e, record_sweep) refl)
      ]
