-- ===== src/Notify.antt =====
-- backend/app/services/notify.py: which channels are configured, and the delivery on each. Sending
-- itself is the argument `deliver`: what a channel answers, or `none` where it raises.
use network_monitoring.Dict
use network_monitoring.Dict.{Dict, keys}
use network_monitoring.Settings.{Settings}
use network_monitoring.Text.{concat, join, comma_list}
use network_monitoring.Prelude.{
  String, refl, Bool, true, false, not, Option, none, some, List, [], map, arith, eq_iff, all,
  contains, ◌≡◌, ◌&&◌, ◌∷◌, ◌++◌, ◌==◌, if◌then◌else◌, nat_eq, string_eq,
}

unfoldable pub sms_numbers : Settings → List String
unfolding comma_list
sms_numbers s = comma_list s.alert_sms_to

abbrev filled : String → Bool
filled s = not (s == "")

abbrev has_numbers : List String → Bool
has_numbers [] = false
has_numbers (_ ∷ _) = true

unfoldable pub active_channels : Settings → List String
unfolding sms_numbers
active_channels s =
    (if filled s.smtp_host && filled s.alert_email_to then "email" ∷ [] else [])
    ++ (if filled s.alert_webhook_url then "webhook" ∷ [] else [])
    ++ (if filled s.alert_telegram_bot_token && filled s.alert_telegram_chat_id
        then "telegram" ∷ []
        else [])
    ++ (if filled s.alert_sms_command && has_numbers (sms_numbers s) then "sms" ∷ [] else [])

-- `_send_sms`: every number is tried, and all must succeed; no number is no failure
unfoldable pub send_sms : (String → Bool) → List String → Bool
send_sms one numbers = all (λ b. b) (map one numbers)

abbrev pub answer : Option Bool → Bool
answer none = false
answer (some b) = b

deliver_all : (String → Option Bool) → List String → Dict String Bool
deliver_all deliver [] = []
deliver_all deliver (c ∷ cs) = (c, answer (deliver c)) ∷ deliver_all deliver cs

unfoldable pub send_alert : Settings → (String → Option Bool) → Dict String Bool
unfolding deliver_all
send_alert s deliver = deliver_all deliver (active_channels s)

unfoldable pub summarize : Dict String Bool → String
summarize [] = "no channels configured"
summarize (e ∷ es) = join ", " (
    map (λ (r : String × Bool). concat (r.0 ∷ " " ∷ (if r.1 then "ok" else "failed") ∷ []))
      (e ∷ es))

get-deliver_all :
    (deliver : String → Option Bool) (c : String) (cs : List String)
    → Dict.get c (deliver_all deliver cs)
      ≡ (if contains c cs then some (answer (deliver c)) else none)
unfolding Dict.get deliver_all
get-deliver_all deliver c [] = refl
get-deliver_all deliver c (x ∷ cs) = ground (arith, get-deliver_all deliver c cs, eq_iff x c)

-- One channel's failure never blocks another: every configured channel, and no other, has a result,
-- which is its own answer, or failure where it raised.
pub get-send_alert :
    (s : Settings) (deliver : String → Option Bool) (c : String)
    → Dict.get c (send_alert s deliver)
      ≡ (if contains c (active_channels s) then some (answer (deliver c)) else none)
unfolding send_alert
get-send_alert s deliver c = get-deliver_all deliver c (active_channels s)
