-- ===== src/Admin/Users.antt =====
-- The users of backend/app/api/routes/admin.py.
use network_monitoring.Table
use network_monitoring.Text.{concat}
use network_monitoring.Parents.{Refusal, refuse}
use network_monitoring.Devices.{Answer}
use network_monitoring.Admin.{
  Role, User, Directory, role_key, user_key, named, audited, create_role, update_role, delete_role,
  joined_or,
}
use network_monitoring.Prelude.{
  ℕ, String, inl, inr, Bool, true, Option, none, some, List, [], nat_beq, any, ◌∷◌, ◌++◌, ◌==◌,
  if◌then◌else◌, nat_eq, string_eq,
}

pub record UserRead : Type 0 where
  pub id : ℕ
  pub email : String
  pub role : String
  pub is_active : Bool

-- UserUpdate
pub record UserUpdate : Type 0 where
  pub role : Option String
  pub password : Option String
  pub is_active : Option Bool

abbrev role_name : Option Role → String
role_name none = ""
role_name (some r) = r.name

unfoldable pub user_read : Directory → User → UserRead
user_read w u = record {
  id = u.id;
  email = u.email;
  role = role_name (Table.find role_key u.role_id w.roles);
  is_active = u.is_active;
}

-- `_load_role`
unfoldable pub load_role : String → Directory → Answer Role
unfolding named
load_role name w = elim (named name w.roles) [
  | none ↦ inl (refuse 400 (concat ("Unknown role: " ∷ name ∷ [])))
  | some r ↦ inr r
]

unfoldable pub create_user :
    (String → String)
    → ℕ
    → ℕ
    → ℕ
    → String
    → String
    → String
    → Directory
    → Answer UserRead × Directory
unfolding load_role user_read
create_user hash actor now id email password role w =
    if any (λ (u : User). u.email == email) w.users
    then (inl (refuse 409 "A user with this email already exists"), w)
    else elim (load_role role w) [
      | inl e ↦ (inl e, w)
      | inr r ↦
          let user : User = record {
            id = id;
            email = email;
            hashed_password = hash password;
            role_id = r.id;
            is_active = true;
            created_at = now;
          } in
          let w' =
            audited actor "user.create" "user" none (concat (email ∷ " (" ∷ r.name ∷ ")" ∷ []))
              (record w { users = w.users ++ user ∷ [] }) in
          (inr (user_read w' user), w')
    ]

-- The three parts of an update: each raises, or gives the row and what the audit row says of it.
abbrev Part : Type 0
Part = Answer (User × List String)

unfoldable pub change_role : Directory → ℕ → Option String → User → Part
unfolding load_role
change_role w actor none u = inr (u, [])
change_role w actor (some name) u =
    if nat_beq u.id actor
    then inl (refuse 400 "You cannot change your own role")
    else elim (load_role name w) [
      | inl e ↦ inl e
      | inr r ↦ inr (record u { role_id = r.id }, concat ("role→" ∷ r.name ∷ []) ∷ [])
    ]

unfoldable pub change_active : ℕ → Option Bool → User → Part
change_active actor none u = inr (u, [])
change_active actor (some b) u =
    if nat_beq u.id actor
    then inl (refuse 400 "You cannot deactivate your own account")
    else inr (record u { is_active = b }, (if b then "activated" else "deactivated") ∷ [])

unfoldable pub change_password : (String → String) → Option String → User → User × List String
change_password hash none u = (u, [])
change_password hash (some p) u =
    if p == "" then (u, []) else (record u { hashed_password = hash p }, "password" ∷ [])

-- the row after the changes and their names
unfoldable pub changed_user : (String → String) → Directory → ℕ → UserUpdate → User → Part
unfolding change_role change_active change_password
changed_user hash w actor body u = elim (change_role w actor body.role u) [
  | inl e ↦ inl e
  | inr (v, roles) ↦ elim (change_active actor body.is_active v) [
    | inl e ↦ inl e
    | inr (x, states) ↦
        let (y, passwords) = change_password hash body.password x in
        inr (y, roles ++ states ++ passwords)
  ]
]

abbrev user_missing : Refusal
user_missing = refuse 404 "User not found"

unfoldable pub update_user :
    (String → String) → ℕ → ℕ → UserUpdate → Directory → Answer UserRead × Directory
unfolding changed_user user_read
update_user hash actor k body w = elim (Table.find user_key k w.users) [
  | none ↦ (inl user_missing, w)
  | some u ↦ elim (changed_user hash w actor body u) [
    | inl e ↦ (inl e, w)
    | inr (v, changes) ↦
        let w' =
          audited actor "user.update" "user" (some k)
            (concat (u.email ∷ ": " ∷ joined_or changes "(no fields)" ∷ []))
            (record w { users = Table.replace user_key v w.users }) in
        (inr (user_read w' v), w')
  ]
]

unfoldable pub delete_user : ℕ → ℕ → Directory → Answer Unit × Directory
delete_user actor k w =
    if nat_beq k actor
    then (inl (refuse 400 "You cannot delete your own account"), w)
    else elim (Table.find user_key k w.users) [
      | none ↦ (inl user_missing, w)
      | some u ↦
          if any (λ o. nat_beq o k) w.owners
          then (
            inl (refuse 400 "User owns devices — deactivate the account instead of deleting it"),
            w,
          )
          else (
            inr tt,
            audited actor "user.delete" "user" none u.email
                (record w { users = Table.delete user_key k w.users }),
          )
    ]

-- the requests of the router, and the tables after one; a creation names the key of its new row
pub data Request : Type 0 where
  post_role : ℕ → String → List String → Request
  patch_role : ℕ → List String → Request
  remove_role : ℕ → Request
  post_user : ℕ → String → String → String → Request
  patch_user : ℕ → UserUpdate → Request
  remove_user : ℕ → Request

unfoldable pub serve : (String → String) → ℕ → ℕ → Request → Directory → Directory
unfolding create_role update_role delete_role create_user update_user delete_user
serve hash now actor (post_role id name permissions) w = (create_role actor id name permissions w).1
serve hash now actor (patch_role k permissions) w = (update_role actor k permissions w).1
serve hash now actor (remove_role k) w = (delete_role actor k w).1
serve hash now actor (post_user id email password role) w =
    (create_user hash actor now id email password role w).1
serve hash now actor (patch_user k body) w = (update_user hash actor k body w).1
serve hash now actor (remove_user k) w = (delete_user actor k w).1
