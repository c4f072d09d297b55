-- ===== src/Snmp/Facts.antt =====
-- One poll of a device (`_run_collection` of backend/app/services/snmp_collector.py). `agent` answers
-- the session, `now` is the monotonic clock after it.
use network_monitoring.Prelude.{
  ℕ, String, inl, inr, Bool, true, false, not, Option, none, some, List, [], leb, nat_beq, ◌+◌, ◌-◌,
  ◌∷◌, ◌==◌, if◌then◌else◌, nat_eq, string_eq,
}
use network_monitoring.Dict
use network_monitoring.Dict.{Dict}
use network_monitoring.Text.{first_chars}
use network_monitoring.Snmp.{Poll, ◌>>=◌, Value, Agent, int, get, walk}
use network_monitoring.Snmp.Usage.{cpu_percent, memory_percent}
use network_monitoring.Snmp.Uptime.{format_uptime}
use network_monitoring.Snmp.Rates.{Sample, octets_of, passed, bps}
use network_monitoring.Snmp.Oids.{
  oid_sys_descr, oid_sys_uptime, oid_sys_name, oid_if_descr, oid_if_oper_status, oid_if_name,
  oid_if_hc_in, oid_if_hc_out, oid_if_high_speed, oid_if_in_octets, oid_if_out_octets,
}

pub record Interface : Type 0 where
  pub index : ℕ
  pub name : String
  pub oper : String
  pub speed_mbps : Option ℕ
  pub in_bps : Option ℕ
  pub out_bps : Option ℕ

pub record Facts : Type 0 where
  pub sys_name : Option String
  pub sys_descr : Option String
  pub uptime : Option String
  pub cpu_percent : Option ℕ
  pub mem_percent : Option ℕ
  pub interfaces : List Interface

-- `facts`, cpu and mem in it, and the totals of the device
pub record Collection : Type 0 where
  pub facts : Facts
  pub in_bps : Option ℕ
  pub out_bps : Option ℕ

abbrev empty_on_failure : {A : Type 0} → Poll (List A) → List A
empty_on_failure (inl f) = []
empty_on_failure (inr rows) = rows

-- what the session reads of the interfaces
pub record Tables : Type 0 where
  pub if_descr : Dict ℕ Value
  pub if_oper : Dict ℕ Value
  pub if_names : Dict ℕ Value
  pub hc : Bool
  pub in_octets : Dict ℕ Value
  pub out_octets : Dict ℕ Value
  pub speeds : Dict ℕ Value

abbrev is_empty : {A : Type 0} → List A → Bool
is_empty [] = true
is_empty (x ∷ xs) = false

-- the 64-bit counters, and else the 32-bit ones
counters_of : Agent → Poll (Bool × Dict ℕ Value × Dict ℕ Value)
unfolding walk
counters_of a =
    let hc_in = empty_on_failure (walk a oid_if_hc_in) in
    if not (is_empty hc_in)
    then inr (true, hc_in, empty_on_failure (walk a oid_if_hc_out))
    else do ins ← walk a oid_if_in_octets; outs ← walk a oid_if_out_octets; inr (false, ins, outs)

read_tables : Agent → Poll Tables
unfolding walk counters_of
read_tables a = do
  if_descr ← walk a oid_if_descr
  if_oper ← walk a oid_if_oper_status
  counters ← counters_of a
  inr record {
    if_descr = if_descr;
    if_oper = if_oper;
    if_names = empty_on_failure (walk a oid_if_name);
    hc = counters.0;
    in_octets = counters.1;
    out_octets = counters.2;
    speeds = empty_on_failure (walk a oid_if_high_speed);
  }

abbrev insert_key : {A : Type 0} → ℕ × A → List (ℕ × A) → List (ℕ × A)
insert_key e [] = e ∷ []
insert_key e (x ∷ xs) = let rest = insert_key e xs in if leb e.0 x.0 then e ∷ x ∷ xs else x ∷ rest

-- sorted(rows.items())
abbrev pub by_index : {A : Type 0} → Dict ℕ A → List (ℕ × A)
by_index [] = []
by_index (e ∷ es) = insert_key e (by_index es)

int_at : ℕ → ℕ → Dict ℕ Value → Poll ℕ
unfolding Dict.get int
int_at i default rows = elim (Dict.get i rows) [ none ↦ inr default | some v ↦ int v ]

maybe_int_at : ℕ → Dict ℕ Value → Poll (Option ℕ)
unfolding Dict.get int
maybe_int_at i rows = elim (Dict.get i rows) [
  | none ↦ inr none
  | some v ↦ do n ← int v; inr (some n)
]

abbrev name_or : Option Value → Value → String
name_or none descr = descr.text
name_or (some name) descr = if name.text == "" then descr.text else name.text

abbrev in_rate : ℕ → Option (ℕ × ℕ) → Option ℕ
in_rate dt none = none
in_rate dt (some r) = some (bps r.0 dt)

abbrev out_rate : ℕ → Option (ℕ × ℕ) → Option ℕ
out_rate dt none = none
out_rate dt (some r) = some (bps r.1 dt)

-- `rates` are the octets that passed in `dt` microseconds
interface_of : Tables → Dict ℕ (ℕ × ℕ) → ℕ → ℕ × Value → Poll Interface
unfolding Dict.get int_at maybe_int_at
interface_of t rates dt (i, descr) = do
  oper ← int_at i 2 t.if_oper
  speed ← maybe_int_at i t.speeds
  inr record {
    index = i;
    name = name_or (Dict.get i t.if_names) descr;
    oper = if nat_beq oper 1 then "up" else "down";
    speed_mbps = speed;
    in_bps = in_rate dt (Dict.get i rates);
    out_bps = out_rate dt (Dict.get i rates);
  }

unfoldable pub interfaces_of :
    Tables → Dict ℕ (ℕ × ℕ) → ℕ → List (ℕ × Value) → Poll (List Interface)
unfolding interface_of
interfaces_of t rates dt [] = inr []
interfaces_of t rates dt (row ∷ rows) = do
  interface ← interface_of t rates dt row
  rest ← interfaces_of t rates dt rows
  inr (interface ∷ rest)

abbrev count_of : Option (ℕ × ℕ) → ℕ × ℕ
count_of none = (0, 0)
count_of (some r) = r

-- the octets of the listed interfaces, for total_in and total_out
unfoldable pub totals : Dict ℕ (ℕ × ℕ) → List (ℕ × Value) → ℕ × ℕ
unfolding Dict.get
totals rates [] = (0, 0)
totals rates ((i, descr) ∷ rows) =
    let (n_in, n_out) = count_of (Dict.get i rates) in
    let (t_in, t_out) = totals rates rows in (n_in + t_in, n_out + t_out)

abbrev text_of : Option Value → Option String
text_of none = none
text_of (some v) = some v.text

abbrev cut : Option String → Option String
cut none = none
cut (some s) = some (first_chars 500 s)

uptime_of : (ℕ → String) → Option Value → Poll (Option String)
unfolding int format_uptime
uptime_of show none = inr none
uptime_of show (some v) = do ticks ← int v; inr (some (format_uptime show ticks))

-- the elapsed time between the two polls
abbrev elapsed : Option Sample → ℕ → ℕ
elapsed none now = 0
elapsed (some prev) now = now - prev.t

-- what is reported of the values that were read
unfoldable pub report :
    (ℕ → String) → Agent → Dict String Value → Tables → Dict ℕ (ℕ × ℕ) → ℕ → Poll Collection
unfolding interfaces_of totals uptime_of cpu_percent memory_percent Dict.get bps
report show a sys_vals t rates dt = do
  interfaces ← interfaces_of t rates dt (by_index t.if_descr)
  uptime ← uptime_of show (Dict.get oid_sys_uptime sys_vals)
  let (total_in, total_out) = totals rates (by_index t.if_descr) in
      inr record {
        facts = record {
          sys_name = text_of (Dict.get oid_sys_name sys_vals);
          sys_descr = cut (text_of (Dict.get oid_sys_descr sys_vals));
          uptime = uptime;
          cpu_percent = cpu_percent a;
          mem_percent = memory_percent a;
          interfaces = interfaces;
        };
        in_bps = if is_empty rates then none else some (bps total_in dt);
        out_bps = if is_empty rates then none else some (bps total_out dt);
      }

abbrev read_session : Agent → Poll (Dict String Value × Tables)
read_session a = do
  sys_vals ← get a (oid_sys_descr ∷ oid_sys_uptime ∷ oid_sys_name ∷ [])
  t ← read_tables a
  inr (sys_vals, t)

-- The store of counters advances once the counters are read, whatever fails after that.
advance :
    (ℕ → String)
    → Agent
    → ℕ
    → ℕ
    → Dict ℕ Sample
    → Dict String Value × Tables
    → Poll Collection × Dict ℕ Sample
unfolding Dict.get Dict.put octets_of passed report
advance show a now id counters (sys_vals, t) =
    let prev = Dict.get id counters in
    elim (octets_of t.in_octets t.out_octets) [
      | inl f ↦ (inl f, counters)
      | inr octets ↦ (
        report show a sys_vals t (passed prev now t.hc octets) (elapsed prev now),
        Dict.put id record { t = now; hc = t.hc; octets = octets } counters,
      )
    ]

unfoldable pub run_collection :
    (ℕ → String) → Agent → ℕ → ℕ → Dict ℕ Sample → Poll Collection × Dict ℕ Sample
unfolding get read_tables advance
run_collection show a now id counters = elim (read_session a) [
  | inl f ↦ (inl f, counters)
  | inr session ↦ advance show a now id counters session
]
