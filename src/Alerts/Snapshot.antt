-- ===== src/Alerts/Snapshot.antt =====
-- The alert engine and the snapshot (`_alert_tick` of backend/app/services/alerts.py).
use network_monitoring.Table
use network_monitoring.Settings.{Settings}
use network_monitoring.Device.{Device, serialize_device}
use network_monitoring.World.{World}
use network_monitoring.StateCache.Coherence.{device_id, IsCoherent, IsCoherent-write}
use network_monitoring.Alerts.{
  decide, alert_rows, alert_tick, Notice, Decision, quiet, recovered, alarm, marked, carry_out,
}
use network_monitoring.Prelude.{
  ℕ, String, refl, inl, inr, Bool, true, Option, List, [], Option-cases, is_some, All, ◌≡◌, ◌∙◌,
  ◌∷◌, nat_eq, string_eq,
}

-- every row of the tick is still in the table
abbrev Present : World → List Device → Type 0
Present w = All (λ d. is_some (Table.find device_id d.id w.devices) ≡ true)

id-marked : (now : ℕ) (k : Decision) (d : Device) → (marked now k d).id ≡ d.id
unfolding marked
id-marked now quiet d = refl
id-marked now recovered d = refl
id-marked now alarm d = refl

carry_out-IsCoherent :
    (s : Settings) (deliver : String → Option Bool) (now : ℕ) (k : Decision) (d : Device)
    (w : World) (sent : List Notice)
    → is_some (Table.find device_id d.id w.devices) ≡ true
    → IsCoherent w
    → IsCoherent (carry_out s deliver now k d (w, sent)).0
unfolding carry_out serialize_device
carry_out-IsCoherent s deliver now quiet d w sent h c = c
carry_out-IsCoherent s deliver now k d w sent h c =
    elim (Option-cases (Table.find device_id d.id w.devices)) [
      | inl gone ↦ cc
      | inr (old, e) ↦ IsCoherent-write (marked now k d) old w (rw (id-marked now k d) e) c
    ]

carry_out-find :
    (s : Settings) (deliver : String → Option Bool) (now : ℕ) (k : Decision) (d : Device)
    (w : World) (sent : List Notice) (j : ℕ)
    → is_some (Table.find device_id j (carry_out s deliver now k d (w, sent)).0.devices)
      ≡ is_some (Table.find device_id j w.devices)
unfolding carry_out
carry_out-find s deliver now quiet d w sent j = refl
carry_out-find s deliver now k d w sent j =
    Table.is_some-find-replace device_id j (marked now k d) w.devices

carry_out-Present :
    (s : Settings) (deliver : String → Option Bool) (now : ℕ) (k : Decision) (d : Device)
    (w : World) (sent : List Notice) (ds : List Device)
    → Present w ds
    → Present (carry_out s deliver now k d (w, sent)).0 ds
carry_out-Present s deliver now k d w sent [] h = tt
carry_out-Present s deliver now k d w sent (x ∷ ds) h = (
  carry_out-find s deliver now k d w sent x.id ∙ h.0,
  carry_out-Present s deliver now k d w sent ds h.1,
)

alert_rows-IsCoherent :
    (s : Settings) (deliver : String → Option Bool) (now : ℕ) (rows ds : List Device) (w : World)
    (sent : List Notice)
    → Present w ds
    → IsCoherent w
    → IsCoherent (alert_rows s deliver now rows ds (w, sent)).0
unfolding alert_rows
alert_rows-IsCoherent s deliver now rows [] w sent h c = c
alert_rows-IsCoherent s deliver now rows (d ∷ ds) w sent h c =
    let k = decide s now rows w.event_logs d in
    let (w', sent') = carry_out s deliver now k d (w, sent) in
    alert_rows-IsCoherent s deliver now rows ds w' sent'
      (carry_out-Present s deliver now k d w sent ds h.1)
      (carry_out-IsCoherent s deliver now k d w sent h.0 c)

-- A tick of the alert engine, whatever it sends and whichever deliveries fail, keeps a snapshot
-- that shows the table showing it.
pub alert_tick-IsCoherent :
    (s : Settings) (deliver : String → Option Bool) (now : ℕ) (w : World) (sent : List Notice)
    → IsCoherent w
    → IsCoherent (alert_tick s deliver now (w, sent)).0
unfolding alert_tick
alert_tick-IsCoherent s deliver now w sent c =
    alert_rows-IsCoherent s deliver now w.devices w.devices w sent
      (Table.All-find device_id w.devices) c
