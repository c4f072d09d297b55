-- ===== src/Admin/ManagerUser.antt =====
-- A manager through the user routes (backend/app/api/routes/admin.py).
use network_monitoring.Admin.ManagerRole.{IsManager}
use network_monitoring.Table
use network_monitoring.Admin.{Role, User, Directory, role_key, user_key, manage_users}
use network_monitoring.Admin.Users.{
  UserUpdate, change_password, changed_user, update_user, create_user, delete_user, change_role,
  change_active, load_role,
}
use network_monitoring.Prelude.{
  ℕ, String, refl, sym, ap, inl, inr, Bool, true, Option, none, some, List, arith, nat_beq,
  nat_beq_iff, Bool-cases, Option-cases, Sum-cases, any, contains, ◌≡◌, ◌∙◌, ◌==◌, nat_eq,
  string_eq,
}

pub create_user-IsManager :
    (hash : String → String) (actor now id : ℕ) (email password role : String) (w : Directory)
    (a : ℕ)
    → IsManager w a
    → IsManager (create_user hash actor now id email password role w).1 a
unfolding create_user
create_user-IsManager hash actor now id email password role w a
      (u, r, hu, on, hr, is_manager, may) =
    elim (Bool-cases (any (λ (x : User). x.email == email) w.users)) [
      | inl e ↦ rw (e, create_user) (u, r, hu, on, hr, is_manager, may)
      | inr e ↦ elim (Sum-cases (load_role role w)) [
        | inl (x, f) ↦ rw (e, f, create_user) (u, r, hu, on, hr, is_manager, may)
        | inr (q, f) ↦
            rw (e, f, create_user)
              (u, r, Table.find-append_some user_key a w.users _ u hu, on, hr, is_manager, may)
      ]
    ]

pub delete_user-IsManager :
    (actor k : ℕ) (w : Directory) → IsManager w actor → IsManager (delete_user actor k w).1 actor
unfolding delete_user
delete_user-IsManager actor k w (u, r, hu, on, hr, is_manager, may) =
    elim (Bool-cases (nat_beq k actor)) [
      | inl e ↦ rw (e, delete_user) (u, r, hu, on, hr, is_manager, may)
      | inr e ↦ elim (Option-cases (Table.find user_key k w.users)) [
        | inl f ↦ rw (e, f, delete_user) (u, r, hu, on, hr, is_manager, may)
        | inr (v, f) ↦ elim (Bool-cases (any (λ o. nat_beq o k) w.owners)) [
          | inl g ↦ rw (e, f, g, delete_user) (u, r, hu, on, hr, is_manager, may)
          | inr g ↦
              rw (e, f, g, delete_user)
                (
                  u,
                  r,
                  Table.find-delete_ne user_key k actor w.users (ground arith) ∙ hu,
                  on,
                  hr,
                  is_manager,
                  may,
                )
        ]
      ]
    ]

-- what every part of an accepted update keeps: the id, and of the actor's own row the role and the
-- activity
abbrev Kept : ℕ → User → User → Type 0
Kept actor u v =
    (v.id ≡ u.id) × (u.id ≡ actor → (v.role_id ≡ u.role_id) × (v.is_active ≡ u.is_active))

Kept-same : (actor : ℕ) (u v : User) → u ≡ v → Kept actor u v
Kept-same actor u v e = (
  ap (λ (x : User). x.id) (sym e),
  λ own. (ap (λ (x : User). x.role_id) (sym e), ap (λ (x : User). x.is_active) (sym e)),
)

change_role-Kept :
    (w : Directory) (actor : ℕ) (o : Option String) (u v : User) (names : List String)
    → change_role w actor o u ≡ inr (v, names)
    → Kept actor u v
unfolding change_role
change_role-Kept w actor none u v names h = Kept-same actor u v cc
change_role-Kept w actor (some name) u v names h = elim (Bool-cases (nat_beq u.id actor)) [
  | inl e ↦ ground (arith, h, e)
  | inr e ↦ elim (Sum-cases (load_role name w)) [
    | inl (x, f) ↦ ground (arith, h, e, f)
    | inr (q, f) ↦ ground (arith, h, e, f)
  ]
]

change_active-Kept :
    (actor : ℕ) (o : Option Bool) (u v : User) (names : List String)
    → change_active actor o u ≡ inr (v, names)
    → Kept actor u v
unfolding change_active
change_active-Kept actor none u v names h = Kept-same actor u v cc
change_active-Kept actor (some b) u v names h = ground (arith, h)

change_password-Kept :
    (hash : String → String) (actor : ℕ) (o : Option String) (u : User)
    → Kept actor u (change_password hash o u).0
unfolding change_password
change_password-Kept hash actor none u = Kept-same actor u u refl
change_password-Kept hash actor (some p) u = ground arith

Kept-trans : (actor : ℕ) (u v x : User) → Kept actor u v → Kept actor v x → Kept actor u x
Kept-trans actor u v x (same, own) (same', own') = (
  same' ∙ same,
  λ e. let (role, on) = own e in let (role', on') = own' (same ∙ e) in (role' ∙ role, on' ∙ on),
)

last_part :
    (hash : String → String) (w : Directory) (actor : ℕ) (body : UserUpdate) (u v x y : User)
    (names roles states : List String)
    → changed_user hash w actor body u ≡ inr (v, names)
    → change_role w actor body.role u ≡ inr (x, roles)
    → change_active actor body.is_active x ≡ inr (y, states)
    → v ≡ (change_password hash body.password y).0
unfolding changed_user
last_part hash w actor body u v x y names roles states h f g = ground (arith, h, f, g)

changed_user-Kept :
    (hash : String → String) (w : Directory) (actor : ℕ) (body : UserUpdate) (u v : User)
    (names : List String)
    → changed_user hash w actor body u ≡ inr (v, names)
    → Kept actor u v
unfolding changed_user
changed_user-Kept hash w actor body u v names h =
    elim (Sum-cases (change_role w actor body.role u)) [
      | inl (e, f) ↦ ground (arith, h, f)
      | inr ((x, roles), f) ↦ elim (Sum-cases (change_active actor body.is_active x)) [
        | inl (e, g) ↦ ground (arith, h, f, g)
        | inr ((y, states), g) ↦
            Kept-trans actor u x v (change_role-Kept w actor body.role u x roles f) (
              Kept-trans actor x y v (change_active-Kept actor body.is_active x y states g) (
                rw (last_part hash w actor body u v x y names roles states h f g)
                  (change_password-Kept hash actor body.password y)))
      ]
    ]

same_user :
    (w : Directory) (k j : ℕ) (u x : User)
    → j ≡ k
    → Table.find user_key j w.users ≡ some u
    → Table.find user_key k w.users ≡ some x
    → x ≡ u
same_user w k j u x same hu hx = cc

replace-IsManager :
    (w : Directory) (actor k : ℕ) (u x v : User) (r : Role)
    → Table.find user_key actor w.users ≡ some u
    → u.is_active ≡ true
    → Table.find role_key u.role_id w.roles ≡ some r
    → r.name ≡ "manager"
    → contains manage_users r.permissions ≡ true
    → Table.find user_key k w.users ≡ some x
    → Kept actor x v
    → IsManager (record w { users = Table.replace user_key v w.users }) actor
replace-IsManager w actor k u x v r hu on hr is_manager may e (id, own) =
    let x_key = Table.find-key user_key k w.users x e in
    let v_key = id ∙ x_key in
    elim (Bool-cases (nat_beq actor k)) [
      | inl b ↦
          let same = (nat_beq_iff actor k).0 b in
          let row = same_user w k actor u x same hu e in
          let (role, active) = own (x_key ∙ sym same) in
          (
            v,
            r,
            Table.find-own_key user_key v.id actor (Table.replace user_key v w.users) v
                (same ∙ sym v_key)
                (Table.find-replace_self user_key v x w.users
                  (Table.find-own_key user_key k v.id w.users x v_key e)),
            active ∙ ap (λ (y : User). y.is_active) row ∙ on,
            rw (role ∙ ap (λ (y : User). y.role_id) row) hr,
            is_manager,
            may,
          )
      | inr b ↦ (
        u,
        r,
        Table.find-replace_ne user_key actor v w.users (ground (arith, b, v_key)) ∙ hu,
        on,
        hr,
        is_manager,
        may,
      )
    ]

pub update_user-IsManager :
    (hash : String → String) (actor k : ℕ) (body : UserUpdate) (w : Directory)
    → IsManager w actor
    → IsManager (update_user hash actor k body w).1 actor
unfolding update_user
update_user-IsManager hash actor k body w (u, r, hu, on, hr, is_manager, may) =
    elim (Option-cases (Table.find user_key k w.users)) [
      | inl e ↦ rw (e, update_user) (u, r, hu, on, hr, is_manager, may)
      | inr (x, e) ↦ elim (Sum-cases (changed_user hash w actor body x)) [
        | inl (y, f) ↦ rw (e, f, update_user) (u, r, hu, on, hr, is_manager, may)
        | inr ((v, names), f) ↦
            rw (e, f, update_user)
              (replace-IsManager w actor k u x v r hu on hr is_manager may e
                (changed_user-Kept hash w actor body x v names f))
      ]
    ]
