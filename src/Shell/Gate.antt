-- ===== src/Shell/Gate.antt =====
-- Who may open a device shell, and what the audit says of it (backend/app/api/routes/ws.py).
use network_monitoring.Prelude.{
  ℕ, String, refl, sym, inl, inr, Bool, true, false, not, Option, none, some, List, [], map, arith,
  Bool-cases, Option-cases, is_some, any, contains, ◌≡◌, ◌⊎◌, ◌&&◌, ◌∷◌, ◌++◌, if◌then◌else◌,
  nat_eq, string_eq,
}
use network_monitoring.Table
use network_monitoring.Text.{truthy}
use network_monitoring.Device.{Device}
use network_monitoring.StateCache.Coherence.{device_id}
use network_monitoring.Parents.{Refusal}
use network_monitoring.Admin.{
  Directory, User, role_key, user_key, holds, user_permissions, get_current_user,
  require_permission,
}
use network_monitoring.Shell.{
  session_error, send_text, ws_to_ssh, bridged, open_session, session_of, auth_ssh, Event, Outside,
  ws_device_shell,
}

-- the user that a gate lets through
abbrev pub passed : Refusal ⊎ User → Option User
passed (inl r) = none
passed (inr u) = some u

passed-holds :
    (r : Refusal) (u : User) (names : List String)
    → passed (if holds names ("ssh" ∷ []) then inr u else inl r)
      ≡ (if contains "ssh" names then some u else none)
passed-holds r u names = elim (Bool-cases (contains "ssh" names)) [
  | inl e ↦ rw (e) refl
  | inr e ↦ rw (e) refl
]

-- both gates after the lookup of the user, whose account is active or not
gates_agree :
    (on : Bool) (u : User) (w : Directory) (off rejected : Refusal)
    → (if not on then none else elim (Table.find role_key u.role_id w.roles) [
      | none ↦ none
      | some r ↦ if contains "ssh" r.permissions then some u else none
    ])
      ≡ passed (elim (if on then inr u else inl off) [
        | inl r ↦ inl r
        | inr v ↦ if holds (user_permissions w v) ("ssh" ∷ []) then inr v else inl rejected
      ])
unfolding user_permissions
gates_agree false u w off rejected = refl
gates_agree true u w off rejected = elim (Option-cases (Table.find role_key u.role_id w.roles)) [
  | inl g ↦ rw (g, user_permissions) refl
  | inr (r, g) ↦ rw (g, user_permissions) (sym (passed-holds rejected u r.permissions))
]

-- The gate of the shell lets through exactly the user that the gate of an HTTP route with the ssh
-- permission lets through.
pub auth_ssh-require_permission :
    (decode : String → Option ℕ) (token : String) (w : Directory)
    → auth_ssh decode token w ≡ passed (require_permission decode ("ssh" ∷ []) token w)
unfolding auth_ssh require_permission get_current_user
auth_ssh-require_permission decode token w = elim (Option-cases (decode token)) [
  | inl e ↦ rw (e, auth_ssh, require_permission, get_current_user) refl
  | inr (k, e) ↦ elim (Option-cases (Table.find user_key k w.users)) [
    | inl f ↦ rw (e, f, auth_ssh, require_permission, get_current_user) refl
    | inr (u, f) ↦
        rw (e, f, auth_ssh, require_permission, get_current_user) (gates_agree u.is_active u w _ _)
  ]
]

-- what reaches the device
abbrev pub is_remote : Event → Bool
is_remote (Event.ssh_connect c) = true
is_remote (Event.stdin_write s) = true
is_remote (Event.resize_terminal cols rows) = true
is_remote e = false

abbrev pub is_close : Event → Bool
is_close Event.close_audit = true
is_close e = false

abbrev pub is_open : Event → Bool
is_open Event.open_audit = true
is_open e = false

-- what a session that reaches a device presupposes
abbrev IsGranted : Option User → Option Device → List Event → Type 0
IsGranted user row events =
    (is_some user ≡ true)
    × ((d : Device) × (row ≡ some d) × (d.ssh_enabled ≡ true) × (truthy d.ssh_username ≡ true))
    × (any is_open events ≡ true)

session_of-IsGranted :
    (show : ℕ → String) (user : Option User) (row : Option Device) (o : Outside)
    → any is_remote (session_of show user row o) ≡ true
    → IsGranted user row (session_of show user row o)
unfolding session_of
session_of-IsGranted show none row o h = cc
session_of-IsGranted show (some u) none o h = cc
session_of-IsGranted show (some u) (some d) o h = elim (Bool-cases d.ssh_enabled) [
  | inr off ↦ ground (arith, off, h)
  | inl on ↦ elim (Bool-cases (truthy d.ssh_username)) [
    | inr f ↦ ground (arith, on, f, h)
    | inl f ↦ (refl, (d, refl, on, f), refl)
  ]
]

-- Nothing of a session reaches a device unless the token is of a user whom the ssh permission lets
-- through, and the device exists, has SSH enabled and a user name; and then the opening is audited.
pub ws_device_shell-gate :
    (show : ℕ → String) (decode : String → Option ℕ) (token : String) (k : ℕ) (o : Outside)
    (w : Directory) (devices : List Device)
    → any is_remote (ws_device_shell show decode token k o w devices) ≡ true
    → (is_some (passed (require_permission decode ("ssh" ∷ []) token w)) ≡ true)
      × ((d : Device) × (Table.find device_id k devices ≡ some d)
          × (d.ssh_enabled ≡ true)
          × (truthy d.ssh_username ≡ true))
      × (any is_open (ws_device_shell show decode token k o w devices) ≡ true)
unfolding ws_device_shell
ws_device_shell-gate show decode token k o w devices h =
    rw (sym (auth_ssh-require_permission decode token w))
      (session_of-IsGranted show (auth_ssh decode token w) (Table.find device_id k devices) o h)

any-append_right :
    (p : Event → Bool) (xs ys : List Event) → any p ys ≡ true → any p (xs ++ ys) ≡ true
any-append_right p [] ys h = h
any-append_right p (x ∷ xs) ys h = ground (arith, any-append_right p xs ys h)

bridged-closes : (o : Outside) → any is_close (bridged o) ≡ true
unfolding bridged
bridged-closes o = any-append_right is_close (ws_to_ssh o.frames) _ (
    any-append_right is_close (map send_text o.output) _
      (any-append_right is_close (session_error o.bridge_error) _ refl))

-- A session that was opened is audited as closed exactly if the SSH connection was made: one whose
-- client has left before, or whose connection failed, is audited as opened only.
pub session_of_closes :
    (show : ℕ → String) (u : User) (d : Device) (o : Outside)
    → d.ssh_enabled ≡ true
    → truthy d.ssh_username ≡ true
    → (any is_open (session_of show (some u) (some d) o) ≡ true)
      × (any is_close (session_of show (some u) (some d) o)
          ≡ (o.is_connected && not (is_some o.connect_error)))
unfolding session_of open_session
session_of_closes show u d o on named = (
  refl,
  rw (on, named)
      (elim (Bool-cases o.is_connected) [
        | inr f ↦ rw (f, open_session) refl
        | inl f ↦ elim (Option-cases o.connect_error) [
          | inl e ↦ rw (f, e, open_session) (bridged-closes o)
          | inr (text, e) ↦ rw (f, e, open_session) refl
        ]
      ]),
)
