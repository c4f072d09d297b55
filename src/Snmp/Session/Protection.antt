-- ===== src/Snmp/Session/Protection.antt =====
-- What protects the messages of an SNMPv3 session (`_Snmp.__init__` of
-- backend/app/services/snmp_collector.py), against what is requested.
use network_monitoring.Text.{text_or, truthy}
use network_monitoring.Snmp.{Failure}
use network_monitoring.Snmp.Session.{
  AuthProtocol, no_auth, md5, sha, sha256, PrivProtocol, no_priv, des, aes, aes256, auth_protocol,
  priv_protocol, Usm, V3, with_keys, usm_of,
}
use network_monitoring.Prelude.{
  String, refl, ap, inl, inr, Bool, true, false, not, Option, none, some, eq_iff, Bool-cases, ◌≡◌,
  ◌∙◌, ◌≢◌, ◌⊎◌, ◌&&◌, ◌==◌, nat_eq, string_eq,
}

-- the names under which the protocols are requested
abbrev pub auth_name : AuthProtocol → String
auth_name no_auth = "none"
auth_name md5 = "md5"
auth_name sha = "sha"
auth_name sha256 = "sha256"

abbrev pub priv_name : PrivProtocol → String
priv_name no_priv = "none"
priv_name des = "des"
priv_name aes = "aes"
priv_name aes256 = "aes256"

abbrev pub wants_auth : AuthProtocol → Bool
wants_auth no_auth = false
wants_auth md5 = true
wants_auth sha = true
wants_auth sha256 = true

abbrev pub wants_priv : PrivProtocol → Bool
wants_priv no_priv = false
wants_priv des = true
wants_priv aes = true
wants_priv aes256 = true

-- what a session sends with: nothing, or the protocol with the key, which is not empty
abbrev pub IsUsed : {P : Type 0} → Bool → P → Option String → Option (String × P) → Type 0
IsUsed false p key sent = sent ≡ none
IsUsed true p key sent = (k : String) × (key ≡ some k) × (k ≢ "") × (sent ≡ some (k, p))

abbrev pub IsProtected : AuthProtocol → PrivProtocol → V3 → Usm → Type 0
IsProtected auth priv v u =
    (u.user ≡ v.user)
    × IsUsed (wants_auth auth) auth v.auth_key u.auth
    × IsUsed (wants_auth auth && wants_priv priv) priv v.priv_key u.priv

abbrev pub IsMissing : Option String → Type 0
IsMissing key = (key ≡ none) ⊎ (key ≡ some "")

abbrev pub LacksKey : AuthProtocol → PrivProtocol → V3 → Type 0
LacksKey auth priv v =
    (wants_auth auth ≡ true)
    × (IsMissing v.auth_key ⊎ ((wants_priv priv ≡ true) × IsMissing v.priv_key))

auth_protocol-auth_name :
    (repr : String → String) (a : AuthProtocol) → auth_protocol repr (auth_name a) ≡ inr a
unfolding auth_protocol
auth_protocol-auth_name repr no_auth = refl
auth_protocol-auth_name repr md5 = refl
auth_protocol-auth_name repr sha = refl
auth_protocol-auth_name repr sha256 = refl

priv_protocol-priv_name :
    (repr : String → String) (p : PrivProtocol) → priv_protocol repr (priv_name p) ≡ inr p
unfolding priv_protocol
priv_protocol-priv_name repr no_priv = refl
priv_protocol-priv_name repr des = refl
priv_protocol-priv_name repr aes = refl
priv_protocol-priv_name repr aes256 = refl

none-auth_name : (a : AuthProtocol) → (auth_name a == "none") ≡ not (wants_auth a)
none-auth_name no_auth = refl
none-auth_name md5 = refl
none-auth_name sha = refl
none-auth_name sha256 = refl

none-priv_name : (p : PrivProtocol) → (priv_name p == "none") ≡ not (wants_priv p)
none-priv_name no_priv = refl
none-priv_name des = refl
none-priv_name aes = refl
none-priv_name aes256 = refl

key_cases :
    (key : Option String)
    → ((truthy key ≡ true) × (key ≡ some (text_or key "")) × (text_or key "" ≢ ""))
      ⊎ ((truthy key ≡ false) × IsMissing key)
key_cases none = inr (refl, inl refl)
key_cases (some k) = elim (Bool-cases (k == "")) [
  | inl e ↦ inr (rw e refl, inr (ap some ((eq_iff k "").0 e)))
  | inr e ↦ inl (rw e refl, rw e refl, rw e (λ same. let clash = (eq_iff k "").1 same in cc))
]

with_keys-IsProtected :
    (repr : String → String) (v : V3) (auth : AuthProtocol) (priv : PrivProtocol)
    → v.auth_proto ≡ auth_name auth
    → v.priv_proto ≡ priv_name priv
    → ((u : Usm) × (with_keys repr v (auth, priv) ≡ inr u) × IsProtected auth priv v u)
      ⊎ (LacksKey auth priv v
          × ((f : Failure) × (with_keys repr v (auth, priv) ≡ inl f) × (f.kind ≡ "ValueError")))
unfolding with_keys
with_keys-IsProtected repr v auth priv named_a named_p =
    let a : (v.auth_proto == "none") ≡ not (wants_auth auth) =
      ap (λ s. s == "none") named_a ∙ none-auth_name auth in
    let p : (v.priv_proto == "none") ≡ not (wants_priv priv) =
      ap (λ s. s == "none") named_p ∙ none-priv_name priv in
    elim (Bool-cases (wants_auth auth)) [
      | inr bare ↦ rw (a, bare, with_keys) (inl (_, refl, (refl, refl, refl)))
      | inl asked ↦ elim (key_cases v.auth_key) [
        | inr (e, gone) ↦ rw (a, asked, e, with_keys) (inr ((refl, inl gone), (_, refl, refl)))
        | inl (e, is, filled) ↦ elim (Bool-cases (wants_priv priv)) [
          | inr f ↦
              rw (a, asked, e, p, f, with_keys) (inl (_, refl, (refl, (_, is, filled, refl), refl)))
          | inl f ↦ elim (key_cases v.priv_key) [
            | inl (g, is', filled') ↦
                rw (a, asked, e, p, f, g, with_keys)
                  (inl (_, refl, (refl, (_, is, filled, refl), (_, is', filled', refl))))
            | inr (g, gone) ↦
                rw (a, asked, e, p, f, g, with_keys)
                  (inr ((refl, inr (refl, gone)), (_, refl, refl)))
          ]
        ]
      ]
    ]

-- A v3 user with known protocols is given the protection that it requests, or a ValueError if a key
-- for that is missing or empty. With an authentication protocol, the session uses it with the
-- authentication key, and the encryption protocol, if any, with the encryption key. Without one it
-- uses no protocol at all, so that an encryption protocol that is requested alone is dropped.
pub usm_of-IsProtected :
    (repr : String → String) (v : V3) (auth : AuthProtocol) (priv : PrivProtocol)
    → v.auth_proto ≡ auth_name auth
    → v.priv_proto ≡ priv_name priv
    → ((u : Usm) × (usm_of repr v ≡ inr u) × IsProtected auth priv v u)
      ⊎ (LacksKey auth priv v × ((f : Failure) × (usm_of repr v ≡ inl f) × (f.kind ≡ "ValueError")))
unfolding usm_of
usm_of-IsProtected repr v auth priv named_a named_p =
    rw
      (
        ap (auth_protocol repr) named_a ∙ auth_protocol-auth_name repr auth,
        ap (priv_protocol repr) named_p ∙ priv_protocol-priv_name repr priv,
        usm_of,
      )
      (with_keys-IsProtected repr v auth priv named_a named_p)
