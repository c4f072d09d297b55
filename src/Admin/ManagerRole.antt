-- ===== src/Admin/ManagerRole.antt =====
-- The manager role through the role routes (backend/app/api/routes/admin.py).
use network_monitoring.Table
use network_monitoring.Admin.{
  permission_rows, builtin_roles, Role, User, Directory, role_key, user_key, named, create_role,
  update_role, delete_role, manage_users, validate_permissions, rewrite_role,
}
use network_monitoring.Prelude.{
  ℕ, String, ap, inl, inr, true, false, some, List, arith, eq_iff, nat_beq, Bool-cases,
  Option-cases, Sum-cases, is_some, any, contains, ◌≡◌, ◌∙◌, ◌≢◌, ◌==◌, nat_eq, string_eq,
}

-- The user `a` is there, active, and has the manager role, which grants `manage_users`.
abbrev pub IsManager : Directory → ℕ → Type 0
IsManager w a =
    (u : User) × (r : Role) × (Table.find user_key a w.users ≡ some u)
    × (u.is_active ≡ true)
    × (Table.find role_key u.role_id w.roles ≡ some r)
    × (r.name ≡ "manager")
    × (contains manage_users r.permissions ≡ true)

pub create_role-IsManager :
    (actor id : ℕ) (name : String) (permissions : List String) (w : Directory) (a : ℕ)
    → IsManager w a
    → IsManager (create_role actor id name permissions w).1 a
unfolding create_role
create_role-IsManager actor id name permissions w a (u, r, hu, on, hr, is_manager, may) =
    elim (Sum-cases (validate_permissions permissions)) [
      | inl (e, f) ↦ rw (f, create_role) (u, r, hu, on, hr, is_manager, may)
      | inr (names, f) ↦ elim (Bool-cases (is_some (named name w.roles))) [
        | inl g ↦ rw (f, g, create_role) (u, r, hu, on, hr, is_manager, may)
        | inr g ↦
            rw (f, g, create_role)
              (
                u,
                r,
                hu,
                on,
                Table.find-append_some role_key u.role_id w.roles _ r hr,
                is_manager,
                may,
              )
      ]
    ]

same_row :
    (k j : ℕ) (rows : List Role) (r q : Role)
    → j ≡ k
    → Table.find role_key k rows ≡ some q
    → Table.find role_key j rows ≡ some r
    → q ≡ r
same_row k j rows r q same hq hr = cc

-- the row of the manager role survives the rewriting of another role
other_role :
    (k j : ℕ) (rows : List Role) (r q : Role)
    → Table.find role_key k rows ≡ some q
    → (q.name == "manager") ≡ false
    → Table.find role_key j rows ≡ some r
    → r.name ≡ "manager"
    → j ≢ k
other_role k j rows r q hq other hr is_manager = λ same.
    let q_is : q.name ≡ "manager" =
      ap (λ (x : Role). x.name) (same_row k j rows r q same hq hr) ∙ is_manager in
    ground (arith, other, eq_iff q.name "manager", q_is)

not_builtin : (s : String) → contains s builtin_roles ≡ false → (s == "manager") ≡ false
not_builtin s h = ground (arith, h, eq_iff s "manager", eq_iff "manager" s)

pub update_role-IsManager :
    (actor k : ℕ) (permissions : List String) (w : Directory) (a : ℕ)
    → IsManager w a
    → IsManager (update_role actor k permissions w).1 a
unfolding update_role rewrite_role
update_role-IsManager actor k permissions w a (u, r, hu, on, hr, is_manager, may) =
    elim (Option-cases (Table.find role_key k w.roles)) [
      | inl e ↦ rw (e, update_role) (u, r, hu, on, hr, is_manager, may)
      | inr (q, e) ↦ elim (Bool-cases (q.name == "manager")) [
        | inl f ↦ rw (e, f, update_role) (u, r, hu, on, hr, is_manager, may)
        | inr f ↦ elim (Sum-cases (validate_permissions permissions)) [
          | inl (x, g) ↦ rw (e, f, g, update_role) (u, r, hu, on, hr, is_manager, may)
          | inr (names, g) ↦
              rw (e, f, g, update_role)
                (
                  u,
                  r,
                  hu,
                  on,
                  Table.find-replace_ne role_key u.role_id
                        (record q { permissions = permission_rows names w }) w.roles
                        (rw (Table.find-key role_key k w.roles q e)
                          (other_role k u.role_id w.roles r q e f hr is_manager))
                      ∙ hr,
                  is_manager,
                  may,
                )
        ]
      ]
    ]

pub delete_role-IsManager :
    (actor k : ℕ) (w : Directory) (a : ℕ) → IsManager w a → IsManager (delete_role actor k w).1 a
unfolding delete_role
delete_role-IsManager actor k w a (u, r, hu, on, hr, is_manager, may) =
    elim (Option-cases (Table.find role_key k w.roles)) [
      | inl e ↦ rw (e, delete_role) (u, r, hu, on, hr, is_manager, may)
      | inr (q, e) ↦ elim (Bool-cases (contains q.name builtin_roles)) [
        | inl f ↦ rw (e, f, delete_role) (u, r, hu, on, hr, is_manager, may)
        | inr f ↦ elim (Bool-cases (any (λ (x : User). nat_beq x.role_id k) w.users)) [
          | inl g ↦ rw (e, f, g, delete_role) (u, r, hu, on, hr, is_manager, may)
          | inr g ↦
              rw (e, f, g, delete_role)
                (
                  u,
                  r,
                  hu,
                  on,
                  Table.find-delete_ne role_key k u.role_id w.roles
                        (other_role k u.role_id w.roles r q e (not_builtin q.name f) hr is_manager)
                      ∙ hr,
                  is_manager,
                  may,
                )
        ]
      ]
    ]
