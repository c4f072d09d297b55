-- ===== src/Shell.antt =====
-- backend/app/api/routes/ws.py: the gates of the two WebSockets and the bridge of the device shell.
-- `decode` gives the user of a token, none where decode_token raises or there is no `sub`. The calls of
-- the socket, of asyncssh and of record_audit_safe are the events of a session.
pub mod Gate
use network_monitoring.Prelude.{
  ℕ, String, Bool, not, Option, none, some, List, [], map, nat_beq, contains, ◌&&◌, ◌∷◌, ◌++◌,
  if◌then◌else◌, nat_eq, string_eq,
}
use network_monitoring.Table
use network_monitoring.Text.{concat, text_or, truthy}
use network_monitoring.Device.{Device}
use network_monitoring.StateCache.Coherence.{device_id}
use network_monitoring.Gateway.{Gateway, connect, disconnect}
use network_monitoring.Admin.{
  Directory, Role, User, role_key, user_key, granted, holds, active, user_permissions,
  get_current_user, require_permission,
}
use network_monitoring.Ssh.{Config}
use network_monitoring.Parents.{Refusal}

unfoldable pub auth_ssh : (String → Option ℕ) → String → Directory → Option User
auth_ssh decode token w = elim (decode token) [
  | none ↦ none
  | some k ↦ elim (Table.find user_key k w.users) [
    | none ↦ none
    | some u ↦ if not u.is_active then none else elim (Table.find role_key u.role_id w.roles) [
      | none ↦ none
      | some r ↦ if contains "ssh" r.permissions then some u else none
    ]
  ]
]

-- /ws/status: a token that does not decode is closed with 4001; the connection is dropped when the
-- client leaves. `serve` is what happens to the gateway while it is open.
unfoldable pub ws_status :
    (String → Option ℕ) → (Gateway → Gateway) → String → ℕ → Gateway → Option ℕ × Gateway
unfolding connect disconnect
ws_status decode serve token ws g = elim (decode token) [
  | none ↦ (some 4001, g)
  | some k ↦ (none, disconnect ws (serve (connect ws g)))
]

pub data Event : Type 0 where
  close_code : ℕ → Event
  close_socket accept_socket open_audit close_audit : Event
  send_text : String → Event
  ssh_connect : Config → Event
  stdin_write : String → Event
  resize_terminal : ℕ → ℕ → Event

-- the first frame: {type: 'auth', password}, or anything else, a timeout or a disconnect
pub data First : Type 0 where
  auth_frame : Option String → First
  no_password : First

-- a later frame, as json.loads reads it
pub data Frame : Type 0 where
  not_json : String → Frame
  not_object : Frame
  data_frame : String → Frame
  resize_frame : Option (ℕ × ℕ) → Frame
  other_frame : Frame

abbrev password_of : First → String → String
password_of (auth_frame p) stored = if truthy p then text_or p "" else stored
password_of no_password stored = stored

-- `ws_to_ssh`: what each frame does; `msg.get` of a frame that is no object raises and ends the bridge
unfoldable pub ws_to_ssh : List Frame → List Event
ws_to_ssh [] = []
ws_to_ssh (not_json raw ∷ fs) = stdin_write raw ∷ ws_to_ssh fs
ws_to_ssh (not_object ∷ fs) = []
ws_to_ssh (data_frame text ∷ fs) = stdin_write text ∷ ws_to_ssh fs
ws_to_ssh (resize_frame (some (cols, rows)) ∷ fs) = resize_terminal cols rows ∷ ws_to_ssh fs
ws_to_ssh (resize_frame none ∷ fs) = ws_to_ssh fs
ws_to_ssh (other_frame ∷ fs) = ws_to_ssh fs

-- What the world answers in a session: the first frame, whether the client is still there after it,
-- the error of asyncssh.connect, the later frames, the output, and an error of the bridge.
pub record Outside : Type 0 where
  pub first : First
  pub is_connected : Bool
  pub connect_error : Option String
  pub frames : List Frame
  pub output : List String
  pub bridge_error : Option String

abbrev shell_config : Device → First → Config
shell_config d first = record {
  host = d.ip_address;
  port = if nat_beq d.ssh_port 0 then 22 else d.ssh_port;
  username = text_or d.ssh_username "";
  password = password_of first (text_or d.ssh_password "");
}

connecting : (ℕ → String) → Config → Event
connecting show c = send_text (
    concat (
      "\u{1b}[36mConnecting to "
      ∷ c.username
      ∷ "@"
      ∷ c.host
      ∷ ":"
      ∷ show c.port
      ∷ " …\u{1b}[0m\r\n"
      ∷ []))

abbrev pub session_error : Option String → List Event
session_error none = []
session_error (some text) =
    send_text (concat ("\r\n\u{1b}[31mSession error: " ∷ text ∷ "\u{1b}[0m\r\n" ∷ [])) ∷ []

-- the two tasks of the bridge, one direction after the other
unfoldable pub bridged : Outside → List Event
unfolding ws_to_ssh
bridged o =
    ws_to_ssh o.frames
    ++ (map send_text o.output ++ (session_error o.bridge_error ++ close_audit ∷ close_socket ∷ []))

unfoldable pub open_session : (ℕ → String) → Device → Outside → List Event
unfolding connecting bridged
open_session show d o =
    let c = shell_config d o.first in
    if not o.is_connected
    then []
    else connecting show c ∷ elim o.connect_error [
      | some text ↦
          ssh_connect c
          ∷ send_text
              (concat ("\r\n\u{1b}[31mSSH connection failed: " ∷ text ∷ "\u{1b}[0m\r\n" ∷ []))
          ∷ close_socket
          ∷ []
      | none ↦ ssh_connect c ∷ bridged o
    ]

-- the session of the user that the gate lets through, on the row of the device
unfoldable pub session_of : (ℕ → String) → Option User → Option Device → Outside → List Event
unfolding open_session
session_of show none row o = close_code 4003 ∷ []
session_of show (some u) none o = close_code 4004 ∷ []
session_of show (some u) (some d) o =
    accept_socket
    ∷ open_audit
    ∷ (if d.ssh_enabled && truthy d.ssh_username
        then open_session show d o
        else send_text "\r\n\u{1b}[31mSSH is not configured for this device.\u{1b}[0m\r\n"
          ∷ close_socket
          ∷ [])

unfoldable pub ws_device_shell :
    (ℕ → String) → (String → Option ℕ) → String → ℕ → Outside → Directory → List Device → List Event
unfolding auth_ssh session_of
ws_device_shell show decode token k o w devices =
    session_of show (auth_ssh decode token w) (Table.find device_id k devices) o
