-- ===== src/Tests/Access.antt =====
-- The admin routes and the login guard at concrete inputs.
use network_monitoring.Dict
use network_monitoring.Table
use network_monitoring.Settings.{Settings, default_settings, seconds}
use network_monitoring.Admin.{
  Directory, Role, User, all_permissions, require_permission, update_role, manage_users,
}
use network_monitoring.Admin.Users.{
  Request, post_role, patch_role, patch_user, remove_user, remove_role,
}
use network_monitoring.Admin.Lockout.{
  serve_all, Admitted, manager_not_locked_out, update_role_locks_out,
}
use network_monitoring.LoginGuard.{
  enabled, Guard, is_blocked, register_success, register_failure, expire, login, prune,
}
use network_monitoring.LoginGuard.Window.{
  IsQueue, recent, queue, IsOrdered, expire-recent, is_blocked-recent, register_success_unblocks,
}
use network_monitoring.LoginGuard.Alarms.{logins, after, logins_alert_once}
use network_monitoring.Parents.{refuse}
use network_monitoring.Syslog.Receiver.{SyslogRow}
use network_monitoring.Pages.{Filter, selects, list_syslog}
use network_monitoring.Pages.Browse.{browse, time, list_syslog-browse}
use network_monitoring.Pages.Order.{newest_first, newest_first-IsNewestFirst}
use network_monitoring.Admin.{get_current_user}
use network_monitoring.Prelude.{
  ℕ, String, refl, inl, inr, Bool, true, false, Option, none, some, List, [], arith, leb,
  Bool-cases, length, contains, ◌≡◌, ◌∷◌, ◌==◌, if◌then◌else◌, nat_eq, string_eq,
}

abbrev manager : Role
manager = record { id = 5; name = "manager"; permissions = all_permissions }

abbrev custom : Role
custom = record { id = 6; name = "ops"; permissions = manage_users ∷ [] }

abbrev alice : User
alice = record {
  id = 1;
  email = "alice";
  hashed_password = "";
  role_id = 5;
  is_active = true;
  created_at = 0;
}

abbrev bob : User
bob = record {
  id = 2;
  email = "bob";
  hashed_password = "";
  role_id = 6;
  is_active = true;
  created_at = 0;
}

abbrev staff : Directory
staff = record {
  catalogue = all_permissions;
  roles = manager ∷ custom ∷ [];
  users = alice ∷ bob ∷ [];
  owners = 2 ∷ [];
  audit_logs = [];
}

-- a token names its user
abbrev user_of : String → Option ℕ
user_of token = if token == "alice" then some 1 else if token == "bob" then some 2 else none

abbrev plain : String → String
plain p = p

abbrev attempts : List Request
attempts =
    patch_role 5 []
    ∷ patch_user 1 (record { role = some "ops"; password = none; is_active = none })
    ∷ remove_user 1
    ∷ remove_role 5
    ∷ post_role 7 "audit" ("view" ∷ [])
    ∷ []

manager_not_locked_out_example : Admitted user_of "alice" (serve_all plain 1 attempts staff 60)
unfolding Table.find
manager_not_locked_out_example =
    manager_not_locked_out user_of "alice" plain 1 attempts staff 60 refl
      (alice, manager, refl, refl, refl, refl, refl)

update_role_locks_out_example :
    require_permission user_of (manage_users ∷ []) "bob" (update_role 2 6 [] staff).1
    ≡ inl (refuse 403 "Insufficient permissions")
unfolding Table.find
update_role_locks_out_example =
    update_role_locks_out user_of "bob" 2 6 bob custom staff refl refl refl refl refl refl

-- three failures of one address within the window
abbrev tried : Guard
tried = record {
  failures = ("10.0.0.9", 10 ∷ 20 ∷ 30 ∷ []) ∷ [];
  alerted_at = ("10.0.0.9", 30) ∷ [];
}

abbrev host : String
host = "10.0.0.9"

in_order : IsQueue 40 (10 ∷ 20 ∷ 30 ∷ [])
in_order = (
  omega arith,
  (omega arith, (omega arith, tt)),
  (omega arith, (omega arith, tt), (omega arith, tt, tt)),
)

tried-IsOrdered : IsOrdered 40 tried
unfolding Dict.get
tried-IsOrdered ip = elim (Bool-cases (host == ip)) [ inl e ↦ rw e in_order | inr e ↦ rw e tt ]

expire-recent_example :
    expire default_settings 40 (10 ∷ 20 ∷ 30 ∷ []) ≡ recent default_settings 40 (10 ∷ 20 ∷ 30 ∷ [])
expire-recent_example = expire-recent default_settings 40 (10 ∷ 20 ∷ 30 ∷ []) in_order

is_blocked-recent_example :
    (is_blocked default_settings 40 "10.0.0.9" tried).0
    ≡ leb default_settings.login_max_failures
        (length (recent default_settings 40 (queue tried "10.0.0.9")))
unfolding enabled
is_blocked-recent_example =
    is_blocked-recent default_settings 40 "10.0.0.9" tried tried-IsOrdered refl

register_success_unblocks_example :
    (is_blocked default_settings 40 "10.0.0.9" (register_success "10.0.0.9" tried)).0 ≡ false
register_success_unblocks_example =
    register_success_unblocks default_settings 40 "10.0.0.9" tried (omega arith)

-- the fourth failure with a limit of four
abbrev strict : Settings
strict = record default_settings { login_max_failures = 4 }

abbrev unannounced : Guard
unannounced = record tried { alerted_at = [] }

abbrev requests : List (ℕ × String × Bool)
requests = (50, "10.0.0.9", false) ∷ (60, "10.0.0.8", true) ∷ (70, "10.0.0.9", false) ∷ []

logins_alert_once_example :
    contains "10.0.0.9"
      (logins strict requests (after (login strict 40 "10.0.0.9" false unannounced))).1
    ≡ false
unfolding Dict.get Dict.put seconds login is_blocked prune expire register_failure enabled
logins_alert_once_example =
    logins_alert_once strict 40 "10.0.0.9" false unannounced requests refl (omega arith)
      ((omega arith, refl), ((omega arith, refl), ((omega arith, refl), tt)))

-- two messages of a switch, and one of another host
abbrev received : ℕ → String → ℕ → Option ℕ × SyslogRow
received now from severity = (
  some 1,
  record {
    ts = now;
    host = from;
    facility = none;
    severity = severity;
    app_name = none;
    message = "link";
  },
)

abbrev messages : List (Option ℕ × SyslogRow)
messages = received 10 "10.0.0.9" 4 ∷ received 20 "10.0.0.8" 3 ∷ received 30 "10.0.0.9" 3 ∷ []

abbrev of_switch : Filter
of_switch = record { device_id = none; host = some "10.0.0.9"; max_severity = some 4; q = none }

list_syslog-browse_example :
    browse 1 2 (λ k.
      list_syslog user_of "bob" staff (λ p m. true) (newest_first time) of_switch messages 1 k)
    ≡ inr (received 30 "10.0.0.9" 3 ∷ received 10 "10.0.0.9" 4 ∷ [])
unfolding selects get_current_user Table.find
list_syslog-browse_example =
    list_syslog-browse user_of "bob" staff bob (λ p m. true) (λ k. newest_first time) of_switch
      messages 1 2 refl refl (omega arith) (omega arith) (λ k. newest_first-IsNewestFirst time)
      ((λ e. omega (arith, e), tt), (tt, tt)) (omega arith)
