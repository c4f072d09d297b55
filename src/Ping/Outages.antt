-- ===== src/Ping/Outages.antt =====
-- The event log of a device as the record of its outages (`_check_one` of
-- backend/app/services/ping_scheduler.py, and what `_outage_started_at` of alerts.py reads off it).
use network_monitoring.Settings.{Settings}
use network_monitoring.Device.{Device, is_offline}
use network_monitoring.World.{EventType, came_online, went_offline}
use network_monitoring.Ping.{Check, observe}
use network_monitoring.Ping.Verdict.{HasVerdict, observe-HasVerdict, observe_all}
use network_monitoring.Prelude.{refl, ap, Bool, true, false, List, [], arith, ◌≡◌, ◌∙◌, ◌∷◌, ◌++◌}

-- No outage begins inside an outage; the argument says whether one is open.
abbrev pub IsOutageLog : Bool → List EventType → Type 0
IsOutageLog down [] = Unit
IsOutageLog true (went_offline ∷ es) = ⊥
IsOutageLog false (went_offline ∷ es) = IsOutageLog true es
IsOutageLog down (came_online ∷ es) = IsOutageLog false es

-- whether an outage is open after the events
abbrev pub down_after : Bool → List EventType → Bool
down_after down [] = down
down_after down (went_offline ∷ es) = down_after true es
down_after down (came_online ∷ es) = down_after false es

IsOutageLog-append :
    (down : Bool) (es fs : List EventType)
    → IsOutageLog down es
    → IsOutageLog (down_after down es) fs
    → IsOutageLog down (es ++ fs)
IsOutageLog-append down [] fs h k = k
IsOutageLog-append true (went_offline ∷ es) fs h k = absurd h
IsOutageLog-append false (went_offline ∷ es) fs h k = IsOutageLog-append true es fs h k
IsOutageLog-append true (came_online ∷ es) fs h k = IsOutageLog-append false es fs h k
IsOutageLog-append false (came_online ∷ es) fs h k = IsOutageLog-append false es fs h k

down_after-append :
    (down : Bool) (es fs : List EventType)
    → down_after down (es ++ fs) ≡ down_after (down_after down es) fs
down_after-append down [] fs = refl
down_after-append down (went_offline ∷ es) fs = down_after-append true es fs
down_after-append down (came_online ∷ es) fs = down_after-append false es fs

-- one check
observe_outage :
    (s : Settings) (c : Check) (d : Device)
    → HasVerdict s d
    → IsOutageLog (is_offline d.current_status) (observe s c d).1
      × (down_after (is_offline d.current_status) (observe s c d).1
          ≡ is_offline (observe s c d).0.current_status)
unfolding observe
observe_outage s c d h = ground arith

-- From a row whose status is the verdict on its count, whatever the checks find, the events that
-- they add never begin an outage inside an outage, and after them an outage is open exactly if the
-- device is offline.
pub observe_all_outages :
    (s : Settings) (cs : List Check) (d : Device)
    → HasVerdict s d
    → IsOutageLog (is_offline d.current_status) (observe_all s cs d).1
      × (down_after (is_offline d.current_status) (observe_all s cs d).1
          ≡ is_offline (observe_all s cs d).0.current_status)
unfolding observe_all
observe_all_outages s [] d h = (tt, refl)
observe_all_outages s (c ∷ cs) d h =
    let (log, ends) = observe_outage s c d h in
    let (log', ends') = observe_all_outages s cs (observe s c d).0 (observe-HasVerdict s c d) in
    let events = (observe s c d).1 in
    let rest = (observe_all s cs (observe s c d).0).1 in
    (
      IsOutageLog-append _ events rest log (rw ends log'),
      down_after-append _ events rest ∙ ap (λ b. down_after b rest) ends ∙ ends',
    )
