-- ===== src/Snmp/Collect.antt =====
-- `collect_device` and `peek_device` of backend/app/services/snmp_collector.py. `repr` and `dumps`
-- are Python's repr and json.dumps, `network` the agent that a session reaches.
use network_monitoring.Prelude.{
  ℕ, String, inl, inr, Option, none, some, List, [], ◌∷◌, ◌++◌, ◌==◌, if◌then◌else◌, nat_eq,
  string_eq,
}
use network_monitoring.Dict.{Dict}
use network_monitoring.Table
use network_monitoring.Text.{concat}
use network_monitoring.Device.{Device, serialize_device}
use network_monitoring.World.{World, SnmpHistory}
use network_monitoring.StateCache.{upsert_device}
use network_monitoring.StateCache.Coherence.{device_id}
use network_monitoring.Snmp.{Failure, Poll, Agent}
use network_monitoring.Snmp.Session.{Session, device_session, lacks_credentials, is_v3}
use network_monitoring.Snmp.Rates.{Sample}
use network_monitoring.Snmp.Facts.{Facts, Collection, run_collection}

-- {status, detail, facts}
pub record Summary : Type 0 where
  pub status : String
  pub detail : Option String
  pub facts : Option Facts

abbrev pub explained : Failure → String
explained f = concat (f.kind ∷ ": " ∷ f.text ∷ [])

abbrev pub status_of : Poll Collection → String
status_of (inl f) = if f.kind == "TimeoutError" then "timeout" else "error"
status_of (inr c) = "ok"

abbrev pub summary_of : Poll Collection → Summary
summary_of (inl f) = record {
  status = status_of (inl f);
  detail = some (explained f);
  facts = none;
}
summary_of (inr c) = record { status = "ok"; detail = none; facts = some c.facts }

-- phase 1: the row of the device, if SNMP is on
unfoldable pub snmp_row : Option Device → Option Device
snmp_row none = none
snmp_row (some d) = if d.snmp_enabled then some d else none

-- the row without credentials is committed, and the snapshot is left as it was
unfoldable pub refuse_credentials : ℕ → Device → World → World
refuse_credentials now d w = record w {
  devices =
      Table.replace device_id
        (record d { snmp_status = "error"; snmp_collected_at = some now; updated_at = now })
        w.devices;
}

abbrev pub collected : (Facts → String) → ℕ → Poll Collection → Device → Device
collected dumps now (inl f) d = record d {
  snmp_status = status_of (inl f);
  snmp_collected_at = some now;
  updated_at = now;
}
collected dumps now (inr c) d = record d {
  snmp_status = "ok";
  snmp_collected_at = some now;
  snmp_facts = some (dumps c.facts);
  updated_at = now;
}

abbrev pub history_of : ℕ → ℕ → Poll Collection → List SnmpHistory
history_of now id (inl f) = []
history_of now id (inr c) =
    record {
      ts = now;
      device_id = id;
      cpu_percent = c.facts.cpu_percent;
      mem_percent = c.facts.mem_percent;
      in_bps = c.in_bps;
      out_bps = c.out_bps;
    }
    ∷ []

-- phase 3, on a fresh session
unfoldable pub persist_collection :
    (Facts → String) → ℕ → ℕ → Poll Collection → World → Option Summary × World
unfolding upsert_device
persist_collection dumps now id result w = elim (Table.find device_id id w.devices) [
  | none ↦ (none, w)
  | some d ↦
      let d' = collected dumps now result d in
      (
        some (summary_of result),
        upsert_device (serialize_device d') (record w {
          devices = Table.replace device_id d' w.devices;
          snmp_history = w.snmp_history ++ history_of now id result;
        }),
      )
]

abbrev no_credentials : Device → Summary
no_credentials d = record {
  status = "error";
  detail =
      some (concat ("no " ∷ (if is_v3 d then "snmp_v3_user" else "snmp_community") ∷ " set" ∷ []));
  facts = none;
}

-- The constructor's exception leaves the function; every other one is classified. `mono` is the
-- monotonic clock after the poll, `now` the time at the commit, and `meanwhile` is what other tasks
-- write during the poll.
module _ (repr : String → String) (show : ℕ → String) (dumps : Facts → String)
    (network : Session → Agent) (mono now : ℕ) where
  unfoldable pub poll_and_persist :
      (World → World)
      → Device
      → Session
      → World × Dict ℕ Sample
      → Poll (Option Summary) × World × Dict ℕ Sample
  unfolding run_collection persist_collection
  poll_and_persist meanwhile d session (w, counters) =
      let (result, counters') = run_collection show (network session) mono d.id counters in
      let (summary, w') = persist_collection dumps now d.id result (meanwhile w) in
      (inr summary, w', counters')

  unfoldable pub collect_device :
      (World → World) → ℕ → World × Dict ℕ Sample → Poll (Option Summary) × World × Dict ℕ Sample
  unfolding snmp_row lacks_credentials refuse_credentials device_session poll_and_persist
  collect_device meanwhile id (w, counters) = elim (snmp_row (Table.find device_id id w.devices)) [
    | none ↦ (inr none, w, counters)
    | some d ↦
        if lacks_credentials d
        then (inr (some (no_credentials d)), refuse_credentials now d w, counters)
        else elim (device_session repr d) [
          | inl f ↦ (inl f, w, counters)
          | inr session ↦ poll_and_persist meanwhile d session (w, counters)
        ]
  ]

  peek_session : Device → Session → Dict ℕ Sample → Summary × Dict ℕ Sample
  unfolding run_collection
  peek_session d session counters =
      let (result, counters') = run_collection show (network session) mono d.id counters in
      (summary_of result, counters')

  -- `row` is the row that the caller has loaded, or that the function loads; `counters` are
  -- `_peek_counters`
  unfoldable pub peek_device : Option Device → Dict ℕ Sample → Option Summary × Dict ℕ Sample
  unfolding snmp_row lacks_credentials device_session peek_session
  peek_device row counters = elim (snmp_row row) [
    | none ↦ (none, counters)
    | some d ↦
        if lacks_credentials d
        then (
          some record { status = "error"; detail = some "SNMP credentials not set"; facts = none },
          counters,
        )
        else elim (device_session repr d) [
          | inl f ↦ (some (summary_of (inl f)), counters)
          | inr session ↦
              let (summary, counters') = peek_session d session counters in
              (some summary, counters')
        ]
  ]
