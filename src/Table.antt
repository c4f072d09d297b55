-- ===== src/Table.antt =====
-- A database table: a list of rows with a numeric primary key, as the ORM session reads and
-- writes it (`session.get`, a mutation of the loaded row, `session.delete`).
use network_monitoring.Prelude.{
  ℕ, suc, refl, ap, true, Option, none, some, List, [], arith, nat_beq, is_some, length, All, ◌≡◌,
  ◌≢◌, ◌∷◌, ◌++◌, if◌then◌else◌, nat_eq, string_eq,
}

module _ {A : Type 0} (key : A → ℕ) where
  -- session.get(Model, k)
  unfoldable pub find : ℕ → List A → Option A
  find k [] = none
  find k (x ∷ xs) = if nat_beq (key x) k then some x else find k xs

  -- the loaded row, with its attributes set anew
  unfoldable pub replace : A → List A → List A
  replace a [] = []
  replace a (x ∷ xs) = (if nat_beq (key x) (key a) then a else x) ∷ replace a xs

  -- session.delete(row)
  unfoldable pub delete : ℕ → List A → List A
  delete k [] = []
  delete k (x ∷ xs) = let rest = delete k xs in if nat_beq (key x) k then rest else x ∷ rest

  pub find-key : (k : ℕ) (xs : List A) (a : A) → find k xs ≡ some a → key a ≡ k
  unfolding find
  find-key k [] a h = cc
  find-key k (x ∷ xs) a h = ground (arith, find-key k xs a)

  -- A row that is found is found by its own key.
  pub find-own_key :
      (k j : ℕ) (xs : List A) (a : A) → j ≡ k → find k xs ≡ some a → find j xs ≡ some a
  find-own_key k j xs a e h = cc

  pub find-one : (k : ℕ) (a : A) → find k (a ∷ []) ≡ (if nat_beq (key a) k then some a else none)
  unfolding find
  find-one k a = refl

  pub find-append_none : (k : ℕ) (xs ys : List A) → find k xs ≡ none → find k (xs ++ ys) ≡ find k ys
  unfolding find
  find-append_none k [] ys h = refl
  find-append_none k (x ∷ xs) ys h = ground (arith, find-append_none k xs ys)

  pub find-append_some :
      (k : ℕ) (xs ys : List A) (a : A) → find k xs ≡ some a → find k (xs ++ ys) ≡ some a
  unfolding find
  find-append_some k [] ys a h = cc
  find-append_some k (x ∷ xs) ys a h = ground (arith, find-append_some k xs ys a)

  pub find-replace_ne :
      (k : ℕ) (a : A) (xs : List A) → k ≢ key a → find k (replace a xs) ≡ find k xs
  unfolding find replace
  find-replace_ne k a [] h = refl
  find-replace_ne k a (x ∷ xs) h = ground (arith, find-replace_ne k a xs)

  pub find-replace_self :
      (a b : A) (xs : List A) → find (key a) xs ≡ some b → find (key a) (replace a xs) ≡ some a
  unfolding find replace
  find-replace_self a b [] h = cc
  find-replace_self a b (x ∷ xs) h = ground (arith, find-replace_self a b xs)

  pub find-delete_self : (k : ℕ) (xs : List A) → find k (delete k xs) ≡ none
  unfolding find delete
  find-delete_self k [] = refl
  find-delete_self k (x ∷ xs) = ground (arith, find-delete_self k xs)

  pub find-delete_ne : (k j : ℕ) (xs : List A) → j ≢ k → find j (delete k xs) ≡ find j xs
  unfolding find delete
  find-delete_ne k j [] h = refl
  find-delete_ne k j (x ∷ xs) h = ground (arith, find-delete_ne k j xs)

  pub length-replace : (a : A) (xs : List A) → length (replace a xs) ≡ length xs
  unfolding replace
  length-replace a [] = refl
  length-replace a (x ∷ xs) = ap suc (length-replace a xs)

module _ {A : Type 0} (key : A → ℕ) where
  -- A replaced row keeps every key of the table.
  pub is_some-find-replace :
      (k : ℕ) (a : A) (xs : List A)
      → is_some (find key k (replace key a xs)) ≡ is_some (find key k xs)
  unfolding find replace
  is_some-find-replace k a [] = refl
  is_some-find-replace k a (x ∷ xs) = ground (arith, is_some-find-replace k a xs)

  is_some-find-cons :
      (k : ℕ) (y : A) (xs : List A)
      → is_some (find key k xs) ≡ true
      → is_some (find key k (y ∷ xs)) ≡ true
  unfolding find
  is_some-find-cons k y xs h = ground arith

  All-find-cons :
      (y : A) (xs ys : List A)
      → All (λ x. is_some (find key (key x) xs) ≡ true) ys
      → All (λ x. is_some (find key (key x) (y ∷ xs)) ≡ true) ys
  All-find-cons y xs [] h = tt
  All-find-cons y xs (x ∷ ys) h = (is_some-find-cons (key x) y xs h.0, All-find-cons y xs ys h.1)

  -- Every row of a table has its key in it.
  pub All-find : (xs : List A) → All (λ x. is_some (find key (key x) xs) ≡ true) xs
  unfolding find
  All-find [] = tt
  All-find (x ∷ xs) = (ground arith, All-find-cons x xs xs (All-find xs))
