-- ===== src/Hosts.antt =====
-- `_validate_host` and `resolve_host_to_ip` of backend/app/schemas/device.py. `is_ip` tells whether
-- ipaddress.ip_address accepts a text, `getaddrinfo` gives the addresses of a name or the text of its
-- gaierror, and `repr` is Python's.
use network_monitoring.Text.{concat, strip, is_blank}
use Prim.Native.Char.{Char}
use network_monitoring.Prelude.{
  String, inl, inr, Bool, true, false, List, [], arith, Bool-cases, Sum-cases, All, ◌≡◌, ◌⊎◌, ◌||◌,
  ◌∷◌, ◌==◌, if◌then◌else◌, nat_eq, string_eq,
}

-- any(p(c) for c in s)
unfoldable pub any_char : (Char → Bool) → String → Bool
any_char p String.[] = false
any_char p (String.◌∷◌ c s) = p c || any_char p s

-- the value, or the text of the ValueError
unfoldable pub validate_host : (String → Bool) → (String → String) → String → String ⊎ String
unfolding strip any_char
validate_host is_ip repr value =
    let s = strip value in
    if s == ""
    then inl "ip_address must not be empty"
    else if is_ip s
    then inr s
    else if any_char is_blank s
    then inl (concat ("Not a valid IP address or hostname: " ∷ repr s ∷ []))
    else inr s

abbrev unresolved : (String → String) → String → List String → String
unresolved repr s more = concat ("Could not resolve hostname " ∷ repr s ∷ more)

unfoldable pub resolve_host_to_ip :
    (String → Bool) → (String → String) → (String → String ⊎ List String) → String → String ⊎ String
unfolding strip
resolve_host_to_ip is_ip repr getaddrinfo value =
    let s = strip value in
    if is_ip s then inr s else elim (getaddrinfo s) [
      | inl exc ↦ inl (unresolved repr s (": " ∷ exc ∷ []))
      | inr [] ↦ inl (unresolved repr s [])
      | inr (ip ∷ infos) ↦ inr ip
    ]

-- What a host resolves to is an IP literal, if the addresses of a name are.
pub resolve_host_to_ip-literal :
    (is_ip : String → Bool) (repr : String → String) (getaddrinfo : String → String ⊎ List String)
    (value ip : String)
    → ((name : String) (infos : List String)
        → getaddrinfo name ≡ inr infos
        → All (λ a. is_ip a ≡ true) infos)
    → resolve_host_to_ip is_ip repr getaddrinfo value ≡ inr ip
    → is_ip ip ≡ true
unfolding resolve_host_to_ip
resolve_host_to_ip-literal is_ip repr getaddrinfo value ip literal h =
    elim (Bool-cases (is_ip (strip value))) [
      | inl e ↦ ground (arith, e, h)
      | inr e ↦ elim (Sum-cases (getaddrinfo (strip value))) [
        | inl (exc, g) ↦ ground (arith, e, g, h)
        | inr ([], g) ↦ ground (arith, e, g, h)
        | inr (a ∷ infos, g) ↦
            let first = (literal (strip value) (a ∷ infos) g).0 in ground (arith, e, g, h, first)
      ]
    ]
