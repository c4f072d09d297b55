-- ===== src/Admin/Lockout.antt =====
-- Who can be locked out through the admin routes (backend/app/api/routes/admin.py).
use network_monitoring.Admin.ManagerRole.{
  IsManager, create_role-IsManager, update_role-IsManager, delete_role-IsManager,
}
use network_monitoring.Admin.ManagerUser.{
  create_user-IsManager, update_user-IsManager, delete_user-IsManager,
}
use network_monitoring.Table
use network_monitoring.Admin.{
  refuse, sorted_set, user_permissions, get_current_user, require_permission, permission_rows, Role,
  User, Directory, role_key, user_key, update_role, manage_users, validate_permissions,
  rewrite_role,
}
use network_monitoring.Admin.Users.{
  remove_user, patch_user, post_user, patch_role, post_role, remove_role, Request, serve,
}
use network_monitoring.Prelude.{
  ℕ, suc, String, refl, sym, ap, inl, inr, true, false, Option, some, List, [], keep, contains, ◌≡◌,
  ◌∙◌, ◌∷◌, ◌==◌, nat_eq, string_eq,
}

pub serve_all : (String → String) → ℕ → List Request → Directory → ℕ → Directory
unfolding serve
serve_all hash actor [] w now = w
serve_all hash actor (q ∷ qs) w now = serve_all hash actor qs (serve hash now actor q w) (suc now)

serve-IsManager :
    (hash : String → String) (now actor : ℕ) (q : Request) (w : Directory)
    → IsManager w actor
    → IsManager (serve hash now actor q w) actor
unfolding serve
serve-IsManager hash now actor (post_role id name permissions) w m =
    create_role-IsManager actor id name permissions w actor m
serve-IsManager hash now actor (patch_role k permissions) w m =
    update_role-IsManager actor k permissions w actor m
serve-IsManager hash now actor (remove_role k) w m = delete_role-IsManager actor k w actor m
serve-IsManager hash now actor (post_user id email password role) w m =
    create_user-IsManager hash actor now id email password role w actor m
serve-IsManager hash now actor (patch_user k body) w m = update_user-IsManager hash actor k body w m
serve-IsManager hash now actor (remove_user k) w m = delete_user-IsManager actor k w m

-- the gate of the admin routes lets the user of a token through
abbrev pub Admitted : (String → Option ℕ) → String → Directory → Type 0
Admitted decode token w =
    (u : User) × (require_permission decode (manage_users ∷ []) token w ≡ inr u)

IsManager-Admitted :
    (decode : String → Option ℕ) (token : String) (a : ℕ) (w : Directory)
    → decode token ≡ some a
    → IsManager w a
    → Admitted decode token w
unfolding require_permission get_current_user user_permissions
IsManager-Admitted decode token a w known (u, r, hu, on, hr, is_manager, may) =
    (u, rw (known, hu, on, hr, may, require_permission, get_current_user, user_permissions) refl)

serve_all-IsManager :
    (hash : String → String) (actor : ℕ) (qs : List Request) (w : Directory) (now : ℕ)
    → IsManager w actor
    → IsManager (serve_all hash actor qs w now) actor
unfolding serve_all
serve_all-IsManager hash actor [] w now m = m
serve_all-IsManager hash actor (q ∷ qs) w now m =
    serve_all-IsManager hash actor qs (serve hash now actor q w) (suc now)
      (serve-IsManager hash now actor q w m)

-- An active user with the manager role, which grants manage_users, passes the gate of the admin
-- routes after any sequence of admin requests of their own.
pub manager_not_locked_out :
    (decode : String → Option ℕ) (token : String) (hash : String → String) (actor : ℕ)
    (qs : List Request) (w : Directory) (now : ℕ)
    → decode token ≡ some actor
    → IsManager w actor
    → Admitted decode token (serve_all hash actor qs w now)
manager_not_locked_out decode token hash actor qs w now known m =
    IsManager-Admitted decode token actor (serve_all hash actor qs w now) known
      (serve_all-IsManager hash actor qs w now m)

no_permission_rows : (names : List String) → keep (λ p. contains p []) names ≡ []
no_permission_rows [] = refl
no_permission_rows (n ∷ ns) = no_permission_rows ns

refused :
    (decode : String → Option ℕ) (token : String) (a : ℕ) (u : User) (q : Role) (w : Directory)
    → decode token ≡ some a
    → Table.find user_key a w.users ≡ some u
    → u.is_active ≡ true
    → Table.find role_key u.role_id w.roles ≡ some q
    → q.permissions ≡ []
    → require_permission decode (manage_users ∷ []) token w
      ≡ inl (refuse 403 "Insufficient permissions")
unfolding require_permission get_current_user user_permissions
refused decode token a u q w known hu on hq none_left =
    rw (known, hu, on, hq, none_left, require_permission, get_current_user, user_permissions) refl

stripped :
    (a k : ℕ) (r : Role) (w : Directory)
    → Table.find role_key k w.roles ≡ some r
    → (r.name == "manager") ≡ false
    → (let w' = (update_role a k [] w).1 in
        (w'.users ≡ w.users)
        × (Table.find role_key k w'.roles ≡ some (record r { permissions = permission_rows [] w })))
unfolding update_role rewrite_role validate_permissions sorted_set
stripped a k r w hr other =
    let r' : Role = record r { permissions = permission_rows [] w } in
    let key = Table.find-key role_key k w.roles r hr in
    let saved =
      Table.find-own_key role_key r.id k (Table.replace role_key r' w.roles) r' (sym key) (
        Table.find-replace_self role_key r' r w.roles
          (Table.find-own_key role_key k r.id w.roles r key hr)) in
    rw (hr, other, update_role) (refl, saved)

-- The guards stop there: an active user of any other role who takes every permission from that role
-- is then refused by the gate of the admin routes.
pub update_role_locks_out :
    (decode : String → Option ℕ) (token : String) (a k : ℕ) (u : User) (r : Role) (w : Directory)
    → decode token ≡ some a
    → Table.find user_key a w.users ≡ some u
    → u.is_active ≡ true
    → u.role_id ≡ k
    → Table.find role_key k w.roles ≡ some r
    → (r.name == "manager") ≡ false
    → require_permission decode (manage_users ∷ []) token (update_role a k [] w).1
      ≡ inl (refuse 403 "Insufficient permissions")
update_role_locks_out decode token a k u r w known hu on role hr other =
    let (users, roles) = stripped a k r w hr other in
    refused decode token a u (record r { permissions = permission_rows [] w })
      (update_role a k [] w).1 known (ap (Table.find user_key a) users ∙ hu) on
      (ap (λ j. Table.find role_key j (update_role a k [] w).1.roles) role ∙ roles)
      (no_permission_rows w.catalogue)
