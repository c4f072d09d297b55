-- ===== src/Snmp/System.antt =====
-- Identity, CPU, memory and storage of the inventory (`_inv_system`, `_inv_resources` and
-- `_inv_storage` of backend/app/services/snmp_collector.py).
use network_monitoring.Rounding.{round_div}
use network_monitoring.Prelude.{
  ℕ, zero, suc, String, inr, Option, none, some, List, [], ltb, nat_beq, ◌*◌, ◌∷◌, ◌==◌,
  if◌then◌else◌, nat_eq, string_eq,
}
use network_monitoring.Dict
use network_monitoring.Dict.{Dict}
use network_monitoring.Text.{first_chars, text_or}
use network_monitoring.Snmp.{Poll, ◌>>=◌, Value, Agent, int, get, walk}
use network_monitoring.Snmp.Usage.{average, or_else, vendor_cpu, hr_mem, vendor_mem, tried}
use network_monitoring.Snmp.Uptime.{format_uptime}
use network_monitoring.Snmp.Facts.{by_index}
use network_monitoring.Snmp.Decode.{as_int, as_str, vendor_from_oid, safe_walk, stripped}
use network_monitoring.Snmp.Oids.{
  oid_ent_class, oid_ent_fw_rev, oid_ent_hw_rev, oid_ent_model, oid_ent_serial, oid_ent_sw_rev,
  oid_hr_cpu_load, oid_hr_storage_descr, oid_hr_storage_size, oid_hr_storage_type,
  oid_hr_storage_units, oid_hr_storage_used, oid_hr_type_fixed_disk, oid_hr_type_ram,
  oid_sys_contact, oid_sys_descr, oid_sys_location, oid_sys_name, oid_sys_object_id, oid_sys_uptime,
}

-- the row of the chassis, or the first one with a serial number or a model
abbrev chassis_rows : Dict ℕ Value → List ℕ
chassis_rows [] = []
chassis_rows ((i, c) ∷ rows) =
    let rest = chassis_rows rows in
    elim (as_int (some c)) [ none ↦ rest | some n ↦ if nat_beq n 3 then i ∷ rest else rest ]

abbrev first_of : List ℕ → Option ℕ
first_of [] = none
first_of (i ∷ is) = some i

-- `a or b`: a row with index 0 is false
abbrev nonzero_or : Option ℕ → Option ℕ → Option ℕ
nonzero_or none b = b
nonzero_or (some zero) b = b
nonzero_or (some (suc n)) b = some (suc n)

unfoldable pub entity_index : Dict ℕ Value → Dict ℕ Value → Dict ℕ Value → Option ℕ
entity_index classes models serials =
    or_else (first_of (chassis_rows classes))
      (nonzero_or (first_of (Dict.keys serials)) (first_of (Dict.keys models)))

abbrev text_at : Option ℕ → Dict ℕ Value → Option String
text_at none rows = none
text_at (some i) rows = as_str (Dict.get i rows)

pub record System : Type 0 where
  pub sys_name : Option String
  pub sys_descr : Option String
  pub uptime : Option String
  pub contact : Option String
  pub location : Option String
  pub vendor : Option String
  pub object_id : Option String
  pub model : Option String
  pub serial : Option String
  pub hardware_rev : Option String
  pub firmware_rev : Option String
  pub software_rev : Option String

uptime_of : (ℕ → String) → Option Value → Poll (Option String)
unfolding int format_uptime
uptime_of show none = inr none
uptime_of show (some v) = do ticks ← int v; inr (some (format_uptime show ticks))

system_of :
    Agent → Dict String Value → Option String → Option String → Dict ℕ Value × Dict ℕ Value → System
unfolding Dict.get as_str vendor_from_oid safe_walk entity_index
system_of a scalars uptime sys_obj (models, serials) =
    let idx = entity_index (safe_walk a oid_ent_class) models serials in
    record {
      sys_name = as_str (Dict.get oid_sys_name scalars);
      sys_descr = stripped (first_chars 500 (text_or (as_str (Dict.get oid_sys_descr scalars)) ""));
      uptime = uptime;
      contact = as_str (Dict.get oid_sys_contact scalars);
      location = as_str (Dict.get oid_sys_location scalars);
      vendor = vendor_from_oid sys_obj;
      object_id = sys_obj;
      model = text_at idx models;
      serial = text_at idx serials;
      hardware_rev = text_at idx (safe_walk a oid_ent_hw_rev);
      firmware_rev = text_at idx (safe_walk a oid_ent_fw_rev);
      software_rev = text_at idx (safe_walk a oid_ent_sw_rev);
    }

unfoldable pub inv_system : (ℕ → String) → Agent → Poll System
unfolding get Dict.get as_str uptime_of safe_walk system_of
inv_system show a = do
  scalars ← get a (
      oid_sys_name ∷ oid_sys_descr ∷ oid_sys_uptime ∷ oid_sys_object_id ∷ oid_sys_contact
      ∷ oid_sys_location ∷ [])
  uptime ← uptime_of show (Dict.get oid_sys_uptime scalars)
  inr (
      system_of a scalars uptime (as_str (Dict.get oid_sys_object_id scalars))
        (safe_walk a oid_ent_model, safe_walk a oid_ent_serial))

pub record Resources : Type 0 where
  pub cpu_percent : Option ℕ
  pub cores : List ℕ
  pub mem_percent : Option ℕ

-- [c for c in map(_as_int, values) if c is not None]
abbrev pub known_ints : List Value → List ℕ
known_ints [] = []
known_ints (v ∷ vs) = let rest = known_ints vs in elim v.number [ none ↦ rest | some n ↦ n ∷ rest ]

unfoldable pub inv_resources : Agent → Resources
unfolding safe_walk average vendor_cpu hr_mem vendor_mem
inv_resources a =
    let cores = known_ints (Dict.values (safe_walk a oid_hr_cpu_load)) in
    record {
      cpu_percent = or_else (average cores) (vendor_cpu a);
      cores = cores;
      mem_percent = or_else (tried (hr_mem a)) (vendor_mem a);
    }

pub record Storage : Type 0 where
  pub descr : Option String
  pub kind : String
  pub size_bytes : ℕ
  pub used_bytes : ℕ
  pub pct : Option ℕ

-- `n or d`
abbrev pub int_or : Option ℕ → ℕ → ℕ
int_or none d = d
int_or (some n) d = if nat_beq n 0 then d else n

abbrev storage_kind : Option String → String
storage_kind oid =
    if text_or oid "" == oid_hr_type_fixed_disk
    then "disk"
    else if text_or oid "" == oid_hr_type_ram
    then "ram"
    else "other"

-- the row of an area whose size is known
unfoldable pub storage_row : Option String → String → ℕ → ℕ → ℕ → Storage
unfolding round_div
storage_row descr kind size unit used = record {
  descr = descr;
  kind = kind;
  size_bytes = size * unit;
  used_bytes = used * unit;
  pct = if ltb 0 (size * unit) then some (round_div (1000 * (used * unit)) (size * unit)) else none;
}

storage_rows :
    (Dict ℕ Value × Dict ℕ Value × Dict ℕ Value × Dict ℕ Value) → List (ℕ × Value) → List Storage
unfolding Dict.get as_str storage_row
storage_rows t [] = []
storage_rows (types, units, sizes, useds) ((i, descr) ∷ rows) =
    let rest = storage_rows (types, units, sizes, useds) rows in
    elim (as_int (Dict.get i sizes)) [
      | none ↦ rest
      | some size ↦
          storage_row (as_str (some descr)) (storage_kind (as_str (Dict.get i types))) size
            (int_or (as_int (Dict.get i units)) 1) (int_or (as_int (Dict.get i useds)) 0)
          ∷ rest
    ]

unfoldable pub inv_storage : Agent → Poll (List Storage)
unfolding walk safe_walk storage_rows
inv_storage a = do
  descrs ← walk a oid_hr_storage_descr
  inr (
      storage_rows
        (
          safe_walk a oid_hr_storage_type,
          safe_walk a oid_hr_storage_units,
          safe_walk a oid_hr_storage_size,
          safe_walk a oid_hr_storage_used,
        )
        (by_index descrs))
