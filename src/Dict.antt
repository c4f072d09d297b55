-- ===== src/Dict.antt =====
-- Python's `dict`: an association list in insertion order. `d[k] = v` overwrites in place or
-- appends; `d.pop(k, None)` and `del d[k]` take the key out.
use network_monitoring.Prelude.{
  refl, Option, none, some, List, [], map, arith, Eq, length, beq_refl, ◌+◌, ◌≤◌, ◌≡◌, ◌∷◌, ◌==◌,
  if◌then◌else◌,
}

abbrev pub Dict {ℓ κ} : Type ℓ → Type κ → Type (ℓ ⊔ κ)
Dict K V = List (K × V)

module _ {ℓ κ} {K : Type ℓ} {V : Type κ} where
  abbrev pub keys : Dict K V → List K
  keys = map (λ e. e.0)

  abbrev pub values : Dict K V → List V
  values = map (λ e. e.1)

module _ {ℓ κ} {K : Type ℓ} {V : Type κ} ⦃e : Eq K⦄ where
  -- d.get(k)
  unfoldable pub get : K → Dict K V → Option V
  get k [] = none
  get k ((j, v) ∷ d) = if j == k then some v else get k d

  -- d[k] = v
  unfoldable pub put : K → V → Dict K V → Dict K V
  put k v [] = (k, v) ∷ []
  put k v ((j, w) ∷ d) = if j == k then (j, v) ∷ d else (j, w) ∷ put k v d

  -- d.pop(k, None)
  unfoldable pub pop : K → Dict K V → Dict K V
  pop k [] = []
  pop k ((j, v) ∷ d) = let rest = pop k d in if j == k then rest else (j, v) ∷ rest

  pub get-put :
      (k j : K) (v : V) (d : Dict K V) → get j (put k v d) ≡ (if k == j then some v else get j d)
  unfolding get put
  get-put k j v [] = refl
  get-put k j v ((i, w) ∷ d) =
      ground (arith, e.same_iff k j, e.same_iff i k, e.same_iff i j, get-put k j v d)

  pub get-pop : (k j : K) (d : Dict K V) → get j (pop k d) ≡ (if k == j then none else get j d)
  unfolding get pop
  get-pop k j [] = ground arith
  get-pop k j ((i, w) ∷ d) =
      ground (arith, e.same_iff k j, e.same_iff i k, e.same_iff i j, get-pop k j d)

  pub get-put_self : (k : K) (v : V) (d : Dict K V) → get k (put k v d) ≡ some v
  get-put_self k v d = ground (arith, get-put k k v d, beq_refl k)

  pub length-put-le : (k : K) (v : V) (d : Dict K V) → length (put k v d) ≤ length d + 1
  unfolding put
  length-put-le k v [] = omega arith
  length-put-le k v ((j, w) ∷ d) = ground (arith, length-put-le k v d)

  pub length-pop-le : (k : K) (d : Dict K V) → length (pop k d) ≤ length d
  unfolding pop
  length-pop-le k [] = omega arith
  length-pop-le k ((j, w) ∷ d) = ground (arith, length-pop-le k d)
