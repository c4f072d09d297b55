-- ===== src/Pages.antt =====
-- The paginated queries of backend/app/api/routes/syslog.py, snmp_traps.py, events.py and audit.py.
-- A handler takes the token, the tables and the parameters of the query. `decode` decodes a token,
-- `ilike` is the database's ILIKE and `newest` its ORDER BY time DESC. The detail of a 422, which is
-- a list of Pydantic's, is left out, and so are the ids of the rows.

pub mod Browse
pub mod Order
use network_monitoring.Text.{concat, truthy, text_length}
use network_monitoring.World.{EventLog, AuditLog}
use network_monitoring.Syslog.Receiver.{SyslogRow}
use network_monitoring.Traps.{SnmpTrap}
use network_monitoring.Parents.{refuse}
use network_monitoring.Devices.{Answer}
use network_monitoring.Admin.{Directory, User, manage_users, get_current_user, require_permission}
use network_monitoring.Prelude.{
  ℕ, String, inl, inr, Bool, true, false, Option, none, some, List, [], leb, nat_beq, length, take,
  drop, keep, ◌-◌, ◌*◌, ◌%◌, ◌&&◌, ◌||◌, ◌∷◌, ◌==◌, if◌then◌else◌, nat_eq, string_eq,
}

-- PaginatedSyslog, PaginatedSnmpTraps, PaginatedEvents, PaginatedAudit
pub record Paginated (A : Type 0) : Type 0 where
  pub total : ℕ
  pub items : List A

-- the bounds of `page` and `page_size`
abbrev pub valid_page : ℕ → ℕ → Bool
valid_page page page_size = leb 1 page && (leb 1 page_size && leb page_size 200)

-- the count and the rows of one page
unfoldable pub page_of : {A : Type 0} → (List A → List A) → ℕ → ℕ → List A → Paginated A
page_of newest page page_size rows = record {
  total = length rows;
  items = take page_size (drop ((page - 1) * page_size) (newest rows));
}

-- what follows the gate: the bounds of the parameters, then the page
unfoldable pub answer_page : {A : Type 0} → Answer User → Bool → Paginated A → Answer (Paginated A)
answer_page (inl r) valid p = inl r
answer_page (inr u) valid p = if valid then inr p else inl (refuse 422 "")

-- the parameters that select messages
pub record Filter : Type 0 where
  pub device_id : Option ℕ
  pub host : Option String
  pub max_severity : Option ℕ
  pub q : Option String

abbrev within : ℕ → Option ℕ → Bool
within bound none = true
within bound (some n) = leb n bound

abbrev text_within : ℕ → Option String → Bool
text_within bound none = true
text_within bound (some text) = leb (text_length text) bound

-- the bounds of `max_severity` and `q`
abbrev pub valid_filter : Filter → Bool
valid_filter f = within 7 f.max_severity && text_within 200 f.q

-- `column == value` in SQL, where a NULL equals nothing
abbrev pub same_device : Option ℕ → Option ℕ → Bool
same_device none device = true
same_device (some k) none = false
same_device (some k) (some device) = nat_beq device k

-- `column == value` under `if value:`
abbrev same_text : Option String → String → Bool
same_text none text = true
same_text (some value) text = value == "" || text == value

abbrev severe : Option ℕ → ℕ → Bool
severe none severity = true
severe (some cap) severity = leb severity cap

abbrev mentions : (String → String → Bool) → Option String → String → Bool
mentions ilike none message = true
mentions ilike (some text) message = text == "" || ilike message (concat ("%" ∷ text ∷ "%" ∷ []))

-- `conds`: whether a message with these columns meets all of them
unfoldable pub selects : (String → String → Bool) → Filter → Option ℕ → String → ℕ → String → Bool
selects ilike f device host severity message =
    same_device f.device_id device
    && (same_text f.host host && (severe f.max_severity severity && mentions ilike f.q message))

-- the messages that the conditions of list_syslog select
abbrev pub shown_messages :
    (String → String → Bool) → Filter → List (Option ℕ × SyslogRow) → List (Option ℕ × SyslogRow)
shown_messages ilike f rows =
    keep (λ (m : Option ℕ × SyslogRow). selects ilike f m.0 m.1.host m.1.severity m.1.message) rows

-- the condition of list_audit
abbrev pub shown_actions : Option String → List AuditLog → List AuditLog
shown_actions action rows = keep (λ (a : AuditLog). same_text action a.action) rows

module _ (decode : String → Option ℕ) (token : String) (w : Directory) where
  -- A stored row of the receiver is the id of its device, if any, and the rest.
  unfoldable pub list_syslog :
      (String → String → Bool)
      → (List (Option ℕ × SyslogRow) → List (Option ℕ × SyslogRow))
      → Filter
      → List (Option ℕ × SyslogRow)
      → ℕ
      → ℕ
      → Answer (Paginated (Option ℕ × SyslogRow))
  unfolding get_current_user selects page_of answer_page
  list_syslog ilike newest f rows page_size page =
      answer_page (get_current_user decode token w) (valid_page page page_size && valid_filter f) (
        page_of newest page page_size (
          keep (λ (m : Option ℕ × SyslogRow). selects ilike f m.0 m.1.host m.1.severity m.1.message)
            rows))

  unfoldable pub list_snmp_traps :
      (String → String → Bool)
      → (List SnmpTrap → List SnmpTrap)
      → Filter
      → List SnmpTrap
      → ℕ
      → ℕ
      → Answer (Paginated SnmpTrap)
  unfolding get_current_user selects page_of answer_page
  list_snmp_traps ilike newest f rows page_size page =
      answer_page (get_current_user decode token w) (valid_page page page_size && valid_filter f) (
        page_of newest page page_size
          (keep (λ (t : SnmpTrap). selects ilike f t.device_id t.host t.severity t.message) rows))

  unfoldable pub list_events :
      (List EventLog → List EventLog)
      → Option ℕ
      → List EventLog
      → ℕ
      → ℕ
      → Answer (Paginated EventLog)
  unfolding get_current_user page_of answer_page
  list_events newest device rows page_size page =
      answer_page (get_current_user decode token w) (valid_page page page_size) (
        page_of newest page page_size
          (keep (λ (e : EventLog). same_device device (some e.device_id)) rows))

  unfoldable pub list_audit :
      (List AuditLog → List AuditLog)
      → Option String
      → List AuditLog
      → ℕ
      → ℕ
      → Answer (Paginated AuditLog)
  unfolding require_permission page_of answer_page
  list_audit newest action rows page_size page =
      answer_page (require_permission decode (manage_users ∷ []) token w)
        (valid_page page page_size) (page_of newest page page_size (shown_actions action rows))
