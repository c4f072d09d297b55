-- ===== src/Traps/Severity.antt =====
-- The identity and the severity of a trap (backend/app/services/snmp_trap_listener.py).
use network_monitoring.Dict
use network_monitoring.Text.{concat}
use network_monitoring.Traps.{
  VarBind, Pdu, v1, v2c, trap_names, known_trap, trap_oid_of, trap_of, parse_trap, or_empty,
}
use network_monitoring.Prelude.{
  ℕ, String, refl, inl, inr, some, List, [], arith, nat_beq, Bool-cases, ◌+◌, ◌<◌, ◌≡◌, ◌≢◌, ◌∷◌,
  nat_eq, string_eq,
}

known_trap-lt : (oid : String) → (known_trap oid).1 < 8
unfolding known_trap trap_names Dict.get
known_trap-lt oid = ground arith

-- Every trap, of either version and with any bindings, has a severity of the syslog scale.
pub parse_trap-severity_lt : (show : ℕ → String) (pdu : Pdu) → (parse_trap show pdu).severity < 8
unfolding parse_trap trap_of
parse_trap-severity_lt show (v1 generic enterprise specific binds) =
    ground (arith, known_trap-lt (concat ("1.3.6.1.6.3.1.1.5." ∷ show (generic + 1) ∷ [])))
parse_trap-severity_lt show (v2c binds) = known_trap-lt (or_empty (trap_oid_of binds))

-- A generic trap has one identity in both versions: a v1 trap that is not enterprise-specific, and a
-- v2c trap whose snmpTrapOID is the oid that RFC 2576 gives the generic number, have the same oid,
-- name and severity.
pub parse_trap-versions :
    (show : ℕ → String) (generic specific : ℕ) (enterprise : String) (binds binds' : List VarBind)
    → generic ≢ 6
    → trap_oid_of binds' ≡ some (concat ("1.3.6.1.6.3.1.1.5." ∷ show (generic + 1) ∷ []))
    → (let a = parse_trap show (v1 generic enterprise specific binds) in
        let b = parse_trap show (v2c binds') in
        (a.trap_oid ≡ b.trap_oid) × (a.trap_name ≡ b.trap_name) × (a.severity ≡ b.severity))
unfolding parse_trap trap_of
parse_trap-versions show generic specific enterprise binds binds' ne e =
    elim (Bool-cases (nat_beq generic 6)) [
      | inl b ↦ ground (arith, b)
      | inr b ↦ rw (b, e, parse_trap) (refl, refl, refl)
    ]
