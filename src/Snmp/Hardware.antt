-- ===== src/Snmp/Hardware.antt =====
-- Interfaces, sensors and power of the inventory (`_inv_interfaces`, `_inv_sensors` and `_inv_ups` of
-- backend/app/services/snmp_collector.py). A sensor's value is in hundredths.
use network_monitoring.Rounding.{round_div}
use network_monitoring.Prelude.{
  ℕ, String, inl, inr, Bool, false, Option, none, some, List, [], map, nat_beq, length, ◌*◌, ◌^◌,
  ◌∷◌, ◌++◌, if◌then◌else◌, nat_eq, string_eq,
}
use network_monitoring.Dict
use network_monitoring.Dict.{Dict}
use network_monitoring.Text.{concat}
use network_monitoring.Snmp.{Poll, ◌>>=◌, Value, Agent, get, walk}
use network_monitoring.Snmp.Facts.{by_index}
use network_monitoring.Snmp.Decode.{as_int, as_str, mac, safe_walk}
use network_monitoring.Snmp.System.{int_or, known_ints}
use network_monitoring.Snmp.Oids.{
  oid_cenv_fan_descr, oid_cenv_fan_state, oid_cenv_supply_descr, oid_cenv_supply_state,
  oid_cenv_temp_descr, oid_cenv_temp_state, oid_cenv_temp_value, oid_ent_name, oid_if_admin_status,
  oid_if_alias, oid_if_descr, oid_if_high_speed, oid_if_in_discards, oid_if_in_errors, oid_if_mtu,
  oid_if_name, oid_if_oper_status, oid_if_out_discards, oid_if_out_errors, oid_if_phys, oid_if_type,
  oid_sensor_precision, oid_sensor_status, oid_sensor_type, oid_sensor_units, oid_sensor_value,
  oid_ups_battery_status, oid_ups_charge_pct, oid_ups_in_voltage, oid_ups_minutes_remain,
  oid_ups_out_load, oid_ups_out_voltage, oid_ups_seconds_on_batt,
}

pub record InvInterface : Type 0 where
  pub index : ℕ
  pub name : Option String
  pub descr : Option String
  pub alias : Option String
  pub oper : String
  pub admin : String
  pub type_ : Option ℕ
  pub mtu : Option ℕ
  pub mac_address : Option String
  pub speed_mbps : Option ℕ
  pub in_errors : Option ℕ
  pub out_errors : Option ℕ
  pub in_discards : Option ℕ
  pub out_discards : Option ℕ

abbrev is_one : Option ℕ → Bool
is_one none = false
is_one (some n) = nat_beq n 1

abbrev text_else : Option String → Option String → Option String
text_else none b = b
text_else (some s) b = some s

inv_interface : (ℕ → String) → Agent → ℕ × Value → InvInterface
unfolding Dict.get as_str mac safe_walk
inv_interface hex a (i, descr) = record {
  index = i;
  name = text_else (as_str (Dict.get i (safe_walk a oid_if_name))) (as_str (some descr));
  descr = as_str (some descr);
  alias = as_str (Dict.get i (safe_walk a oid_if_alias));
  oper = if is_one (as_int (Dict.get i (safe_walk a oid_if_oper_status))) then "up" else "down";
  admin = if is_one (as_int (Dict.get i (safe_walk a oid_if_admin_status))) then "up" else "down";
  type_ = as_int (Dict.get i (safe_walk a oid_if_type));
  mtu = as_int (Dict.get i (safe_walk a oid_if_mtu));
  mac_address = mac hex (Dict.get i (safe_walk a oid_if_phys));
  speed_mbps = as_int (Dict.get i (safe_walk a oid_if_high_speed));
  in_errors = as_int (Dict.get i (safe_walk a oid_if_in_errors));
  out_errors = as_int (Dict.get i (safe_walk a oid_if_out_errors));
  in_discards = as_int (Dict.get i (safe_walk a oid_if_in_discards));
  out_discards = as_int (Dict.get i (safe_walk a oid_if_out_discards));
}

unfoldable pub inv_interfaces : (ℕ → String) → Agent → Poll (List InvInterface)
unfolding walk inv_interface
inv_interfaces hex a = do
  descrs ← walk a oid_if_descr
  inr (map (inv_interface hex a) (by_index descrs))

pub record Sensor : Type 0 where
  pub name : Option String
  pub kind : String
  pub value : Option ℕ
  pub unit : Option String
  pub status : String

unfoldable pub sensor_kinds : Dict ℕ String
sensor_kinds =
    (3, "power")
    ∷ (4, "power")
    ∷ (5, "power")
    ∷ (6, "power")
    ∷ (8, "temperature")
    ∷ (10, "fan")
    ∷ []

unfoldable pub sensor_units : Dict ℕ String
sensor_units =
    (3, "VAC")
    ∷ (4, "VDC")
    ∷ (5, "A")
    ∷ (6, "W")
    ∷ (7, "Hz")
    ∷ (8, "°C")
    ∷ (9, "%RH")
    ∷ (10, "RPM")
    ∷ []

abbrev sensor_status : Option ℕ → String
sensor_status s = if is_one s then "ok" else "warn"

-- the row of a sensor that has a value
entity_sensor : (ℕ → String) → Agent → ℕ → ℕ → ℕ → Sensor
unfolding Dict.get as_str safe_walk sensor_kinds sensor_units round_div
entity_sensor show a i kind_code raw = record {
  name =
      text_else (as_str (Dict.get i (safe_walk a oid_ent_name)))
        (some (concat ("sensor " ∷ show i ∷ [])));
  kind = elim (Dict.get kind_code sensor_kinds) [ none ↦ "other" | some k ↦ k ];
  value = some (
      round_div (raw * 100)
        (10 ^ int_or (as_int (Dict.get i (safe_walk a oid_sensor_precision))) 0));
  unit =
      text_else (as_str (Dict.get i (safe_walk a oid_sensor_units)))
        (Dict.get kind_code sensor_units);
  status = sensor_status (as_int (Dict.get i (safe_walk a oid_sensor_status)));
}

entity_sensors : (ℕ → String) → Agent → List (ℕ × Value) → List Sensor
unfolding Dict.get safe_walk entity_sensor
entity_sensors show a [] = []
entity_sensors show a ((i, t) ∷ rows) =
    let rest = entity_sensors show a rows in
    elim (as_int (Dict.get i (safe_walk a oid_sensor_value))) [
      | none ↦ rest
      | some raw ↦ entity_sensor show a i (int_or t.number 0) raw ∷ rest
    ]

-- one column of CISCO-ENVMON-MIB: its rows with their values and states
cisco_sensors :
    String → Option String → List (ℕ × Value) → Dict ℕ Value → Dict ℕ Value → List Sensor
unfolding Dict.get as_str
cisco_sensors kind unit [] vals states = []
cisco_sensors kind unit ((i, d) ∷ rows) vals states =
    record {
      name = as_str (some d);
      kind = kind;
      value = elim (as_int (Dict.get i vals)) [ none ↦ none | some n ↦ some (n * 100) ];
      unit = unit;
      status = sensor_status (as_int (Dict.get i states));
    }
    ∷ cisco_sensors kind unit rows vals states

cisco_fallback : Agent → List Sensor
unfolding safe_walk cisco_sensors
cisco_fallback a =
    cisco_sensors "temperature" (some "°C") (by_index (safe_walk a oid_cenv_temp_descr))
      (safe_walk a oid_cenv_temp_value) (safe_walk a oid_cenv_temp_state)
    ++ (cisco_sensors "fan" none (by_index (safe_walk a oid_cenv_fan_descr)) []
          (safe_walk a oid_cenv_fan_state)
        ++ cisco_sensors "power" none (by_index (safe_walk a oid_cenv_supply_descr)) []
            (safe_walk a oid_cenv_supply_state))

unfoldable pub inv_sensors : (ℕ → String) → Agent → List Sensor
unfolding safe_walk entity_sensors cisco_fallback
inv_sensors show a = elim (entity_sensors show a (by_index (safe_walk a oid_sensor_type))) [
  | [] ↦ cisco_fallback a
  | s ∷ ss ↦ s ∷ ss
]

pub record Ups : Type 0 where
  pub battery_status : String
  pub charge_pct : Option ℕ
  pub minutes_remaining : Option ℕ
  pub seconds_on_battery : Option ℕ
  pub output_load_pct : Option ℕ
  pub input_voltage : Option ℕ
  pub output_voltage : Option ℕ

unfoldable pub battery_map : ℕ → String
battery_map n =
    if nat_beq n 2
    then "normal"
    else if nat_beq n 3
    then "low"
    else if nat_beq n 4
    then "depleted"
    else "unknown"

-- the first number of a column
abbrev first_int : Dict ℕ Value → Option ℕ
first_int rows = elim (known_ints (Dict.values rows)) [ [] ↦ none | n ∷ ns ↦ some n ]

unfoldable pub inv_ups : Agent → Option Ups
unfolding get Dict.get safe_walk battery_map
inv_ups a =
    elim (get a (
      oid_ups_battery_status ∷ oid_ups_minutes_remain ∷ oid_ups_charge_pct ∷ oid_ups_seconds_on_batt
      ∷ [])) [
        | inl f ↦ none
        | inr scalars ↦
            if nat_beq (length scalars) 0
            then none
            else some record {
              battery_status =
                  battery_map (int_or (as_int (Dict.get oid_ups_battery_status scalars)) 1);
              charge_pct = as_int (Dict.get oid_ups_charge_pct scalars);
              minutes_remaining = as_int (Dict.get oid_ups_minutes_remain scalars);
              seconds_on_battery = as_int (Dict.get oid_ups_seconds_on_batt scalars);
              output_load_pct = first_int (safe_walk a oid_ups_out_load);
              input_voltage = first_int (safe_walk a oid_ups_in_voltage);
              output_voltage = first_int (safe_walk a oid_ups_out_voltage);
            }
      ]
