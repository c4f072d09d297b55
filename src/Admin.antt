-- ===== src/Admin.antt =====
-- backend/app/core/permissions.py, backend/app/api/deps.py and backend/app/api/routes/admin.py:
-- roles, users and the gate in front of every route. A token is decoded, and a password hashed, by
-- the arguments `decode` and `hash`; a user's hashed password is what `hash` gave.
pub mod Users
pub mod Lockout
pub mod ManagerRole
pub mod ManagerUser
use network_monitoring.Table
use network_monitoring.Text.{concat, join}
use network_monitoring.World.{AuditLog}
use network_monitoring.Parents.{Refusal, refuse}
use network_monitoring.Devices.{Answer}
use Prim.Native.String
use Prim.Native.Char.{code}
use network_monitoring.Prelude.{
  ℕ, String, inl, inr, Bool, true, false, not, Option, none, some, List, [], ltb, nat_beq, is_some,
  length, keep, any, all, contains, ◌&&◌, ◌||◌, ◌∷◌, ◌++◌, ◌==◌, if◌then◌else◌, nat_eq, string_eq,
}

abbrev pub manage_users : String
manage_users = "manage_users"

abbrev pub all_permissions : List String
all_permissions =
    "view" ∷ "snmp" ∷ "ssh" ∷ "mute" ∷ "edit_device" ∷ "edit_config" ∷ manage_users ∷ []

abbrev pub builtin_roles : List String
builtin_roles = "viewer" ∷ "user" ∷ "operator" ∷ "engineer" ∷ "manager" ∷ []

-- models/role.py, with the names of the role's permissions
pub record Role : Type 0 where
  pub id : ℕ
  pub name : String
  pub permissions : List String

-- models/user.py
pub record User : Type 0 where
  pub id : ℕ
  pub email : String
  pub hashed_password : String
  pub role_id : ℕ
  pub is_active : Bool
  pub created_at : ℕ

-- The tables: `catalogue` is the permissions, `owners` the created_by of each device.
pub record Directory : Type 0 where
  pub catalogue : List String
  pub roles : List Role
  pub users : List User
  pub owners : List ℕ
  pub audit_logs : List AuditLog

abbrev pub role_key : Role → ℕ
role_key r = r.id

abbrev pub user_key : User → ℕ
user_key u = u.id

-- `user_permissions`: the names that the user's role grants
abbrev pub granted : Option Role → List String
granted none = []
granted (some r) = r.permissions

unfoldable pub user_permissions : Directory → User → List String
user_permissions w u = granted (Table.find role_key u.role_id w.roles)

abbrev unauthorized : Refusal
unauthorized = refuse 401 "Could not validate credentials"

abbrev pub active : Option User → Answer User
active none = inl unauthorized
active (some u) = if u.is_active then inr u else inl unauthorized

unfoldable pub get_current_user : (String → Option ℕ) → String → Directory → Answer User
get_current_user decode token w = elim (decode token) [
  | none ↦ inl unauthorized
  | some k ↦ active (Table.find user_key k w.users)
]

-- set(required).issubset(perms)
abbrev pub holds : List String → List String → Bool
holds perms required = all (λ r. contains r perms) required

unfoldable pub require_permission :
    (String → Option ℕ) → List String → String → Directory → Answer User
unfolding get_current_user user_permissions
require_permission decode required token w = elim (get_current_user decode token w) [
  | inl r ↦ inl r
  | inr u ↦
      if holds (user_permissions w u) required
      then inr u
      else inl (refuse 403 "Insufficient permissions")
]

-- `a < b` on texts
unfoldable pub text_less : String → String → Bool
text_less s String.[] = false
text_less String.[] (String.◌∷◌ c t) = true
text_less (String.◌∷◌ b s) (String.◌∷◌ c t) =
    let rest = text_less s t in ltb (code b) (code c) || (nat_beq (code b) (code c) && rest)

insert_text : String → List String → List String
unfolding text_less
insert_text s [] = s ∷ []
insert_text s (t ∷ ts) =
    let rest = insert_text s ts in
    if s == t then t ∷ ts else if text_less s t then s ∷ t ∷ ts else t ∷ rest

-- sorted(set(names))
unfoldable pub sorted_set : List String → List String
unfolding insert_text
sorted_set [] = []
sorted_set (s ∷ ss) = insert_text s (sorted_set ss)

abbrev pub no_texts : List String → Bool
no_texts [] = true
no_texts (_ ∷ _) = false

unfoldable pub validate_permissions : List String → Answer (List String)
unfolding sorted_set
validate_permissions names =
    let unknown = keep (λ n. not (contains n all_permissions)) names in
    if no_texts unknown
    then inr (sorted_set names)
    else inl (refuse 400 (concat ("Unknown permissions: " ∷ join ", " (sorted_set unknown) ∷ [])))

-- select(Permission).where(Permission.name.in_(names))
abbrev pub permission_rows : List String → Directory → List String
permission_rows names w = keep (λ p. contains p names) w.catalogue

pub record RoleRead : Type 0 where
  pub id : ℕ
  pub name : String
  pub builtin : Bool
  pub permissions : List String
  pub users : ℕ

unfoldable pub role_read : Directory → Role → RoleRead
unfolding sorted_set
role_read w r = record {
  id = r.id;
  name = r.name;
  builtin = contains r.name builtin_roles;
  permissions = sorted_set r.permissions;
  users = length (keep (λ (u : User). nat_beq u.role_id r.id) w.users);
}

unfoldable pub named : String → List Role → Option Role
named name [] = none
named name (r ∷ rs) = if r.name == name then some r else named name rs

-- add_audit(db, current_user, ...)
abbrev pub audited : ℕ → String → String → Option ℕ → String → Directory → Directory
audited actor action target_type target_id detail w = record w {
  audit_logs =
      w.audit_logs
      ++ record {
        user = some actor;
        action = action;
        target_type = some target_type;
        target_id = target_id;
        detail = some detail;
      }
        ∷ [];
}

-- `id` is the key of the new row
unfoldable pub create_role : ℕ → ℕ → String → List String → Directory → Answer RoleRead × Directory
unfolding validate_permissions named role_read
create_role actor id name permissions w = elim (validate_permissions permissions) [
  | inl r ↦ (inl r, w)
  | inr names ↦
      if is_some (named name w.roles)
      then (inl (refuse 409 "A role with this name already exists"), w)
      else let role : Role = record {
        id = id;
        name = name;
        permissions = permission_rows names w;
      } in
        let w' =
          audited actor "role.create" "role" none (concat (name ∷ ": " ∷ join ", " names ∷ []))
            (record w { roles = w.roles ++ role ∷ [] }) in
        (inr (role_read w' role), w')
]

-- ", ".join(names) or other
abbrev pub joined_or : List String → String → String
joined_or names other = let s = join ", " names in if s == "" then other else s

abbrev role_missing : Refusal
role_missing = refuse 404 "Role not found"

rewrite_role : ℕ → Role → List String → Directory → Answer RoleRead × Directory
unfolding role_read
rewrite_role actor r names w =
    let role = record r { permissions = permission_rows names w } in
    let w' =
      audited actor "role.update" "role" (some r.id)
        (concat (r.name ∷ ": " ∷ joined_or names "(none)" ∷ []))
        (record w { roles = Table.replace role_key role w.roles }) in
    (inr (role_read w' role), w')

unfoldable pub update_role : ℕ → ℕ → List String → Directory → Answer RoleRead × Directory
unfolding validate_permissions rewrite_role
update_role actor k permissions w = elim (Table.find role_key k w.roles) [
  | none ↦ (inl role_missing, w)
  | some r ↦
      if r.name == "manager"
      then (inl (refuse 400 "The manager role's permissions cannot be edited"), w)
      else elim (validate_permissions permissions) [
        | inl e ↦ (inl e, w)
        | inr names ↦ rewrite_role actor r names w
      ]
]

unfoldable pub delete_role : ℕ → ℕ → Directory → Answer Unit × Directory
delete_role actor k w = elim (Table.find role_key k w.roles) [
  | none ↦ (inl role_missing, w)
  | some r ↦
      if contains r.name builtin_roles
      then (inl (refuse 400 "Built-in roles cannot be deleted"), w)
      else if any (λ (u : User). nat_beq u.role_id k) w.users
      then (inl (refuse 400 "Role still has users assigned"), w)
      else (
        inr tt,
        audited actor "role.delete" "role" none r.name
            (record w { roles = Table.delete role_key k w.roles }),
      )
]
