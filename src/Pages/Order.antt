-- ===== src/Pages/Order.antt =====
-- ORDER BY ts DESC in the queries of backend/app/api/routes/syslog.py and its siblings. The database
-- may order rows with the same time as it likes, and differently for every query.
use network_monitoring.Prelude.{
  ℕ, suc, refl, sym, ap, inl, inr, List, [], arith, leb, Bool-cases, length, All, ◌≤◌, ◌≡◌, ◌∙◌,
  ◌≢◌, ◌∷◌, if◌then◌else◌, nat_eq, string_eq,
}

-- the same rows in another order
pub data Reordered {A : Type 0} : List A → List A → Type 0 where
  nothing : Reordered [] []
  same_first : (x : A) {xs ys : List A} → Reordered xs ys → Reordered (x ∷ xs) (x ∷ ys)
  swapped : (x y : A) (xs : List A) → Reordered (x ∷ y ∷ xs) (y ∷ x ∷ xs)
  composed : {xs ys zs : List A} → Reordered xs ys → Reordered ys zs → Reordered xs zs

module _ {A : Type 0} (ts : A → ℕ) where
  abbrev pub IsDescending : List A → Type 0
  IsDescending [] = Unit
  IsDescending (x ∷ xs) = All (λ y. ts y ≤ ts x) xs × IsDescending xs

  -- an answer of the query about these rows
  abbrev pub IsNewestFirst : List A → List A → Type 0
  IsNewestFirst rows answer = Reordered answer rows × IsDescending answer

  -- no two rows have the same time
  abbrev pub AreDistinct : List A → Type 0
  AreDistinct [] = Unit
  AreDistinct (x ∷ xs) = All (λ y. ts x ≢ ts y) xs × AreDistinct xs

  abbrev insert_newest : A → List A → List A
  insert_newest x [] = x ∷ []
  insert_newest x (y ∷ ys) =
      let rest = insert_newest x ys in if leb (ts y) (ts x) then x ∷ y ∷ ys else y ∷ rest

  -- the rows sorted by insertion, the newest first
  abbrev pub newest_first : List A → List A
  newest_first [] = []
  newest_first (x ∷ xs) = insert_newest x (newest_first xs)

  insert_newest-All :
      (x : A) (ys : List A) → All (λ y. ts y ≤ ts x) ys → insert_newest x ys ≡ x ∷ ys
  insert_newest-All x [] h = refl
  insert_newest-All x (y ∷ ys) h = ground (arith, h.0)

  newest_first-IsDescending : (xs : List A) → IsDescending xs → newest_first xs ≡ xs
  newest_first-IsDescending [] h = refl
  newest_first-IsDescending (x ∷ xs) h =
      ap (insert_newest x) (newest_first-IsDescending xs h.1) ∙ insert_newest-All x xs h.0

  insert_newest_comm :
      (x y : A) (zs : List A)
      → ts x ≢ ts y
      → insert_newest x (insert_newest y zs) ≡ insert_newest y (insert_newest x zs)
  insert_newest_comm x y [] ne = ground (arith, ne)
  insert_newest_comm x y (z ∷ zs) ne = ground (arith, ne, insert_newest_comm x y zs ne)

  All-Reordered : (P : A → Type 0) {xs ys : List A} → Reordered xs ys → All P xs → All P ys
  All-Reordered P nothing h = tt
  All-Reordered P (same_first x r) h = (h.0, All-Reordered P r h.1)
  All-Reordered P (swapped x y xs) h = (h.1.0, (h.0, h.1.1))
  All-Reordered P (composed r q) h = All-Reordered P q (All-Reordered P r h)

  AreDistinct-Reordered : {xs ys : List A} → Reordered xs ys → AreDistinct xs → AreDistinct ys
  AreDistinct-Reordered nothing h = tt
  AreDistinct-Reordered (same_first x r) h =
      (All-Reordered (λ y. ts x ≢ ts y) r h.0, AreDistinct-Reordered r h.1)
  AreDistinct-Reordered (swapped x y xs) h = ((λ e. h.0.0 (sym e), h.1.0), (h.0.1, h.1.1))
  AreDistinct-Reordered (composed r q) h = AreDistinct-Reordered q (AreDistinct-Reordered r h)

  newest_first-Reordered :
      {xs ys : List A} → Reordered xs ys → AreDistinct xs → newest_first xs ≡ newest_first ys
  newest_first-Reordered nothing h = refl
  newest_first-Reordered (same_first x r) h = ap (insert_newest x) (newest_first-Reordered r h.1)
  newest_first-Reordered (swapped x y xs) h = insert_newest_comm x y (newest_first xs) h.0.0
  newest_first-Reordered (composed r q) h =
      newest_first-Reordered r h ∙ newest_first-Reordered q (AreDistinct-Reordered r h)

  undone : {xs ys : List A} → Reordered xs ys → Reordered ys xs
  undone nothing = nothing
  undone (same_first x r) = same_first x (undone r)
  undone (swapped x y xs) = swapped y x xs
  undone (composed r q) = composed (undone q) (undone r)

  -- The rows with distinct times have one order in which the newest is first.
  pub IsNewestFirst-newest_first :
      (rows answer : List A)
      → AreDistinct rows
      → IsNewestFirst rows answer
      → answer ≡ newest_first rows
  IsNewestFirst-newest_first rows answer distinct (r, descending) =
      sym (newest_first-IsDescending answer descending)
      ∙ sym (newest_first-Reordered (undone r) distinct)

  pub length-Reordered : {xs ys : List A} → Reordered xs ys → length xs ≡ length ys
  length-Reordered nothing = refl
  length-Reordered (same_first x r) = ap suc (length-Reordered r)
  length-Reordered (swapped x y xs) = refl
  length-Reordered (composed r q) = length-Reordered r ∙ length-Reordered q

  unchanged : (xs : List A) → Reordered xs xs
  unchanged [] = nothing
  unchanged (x ∷ xs) = same_first x (unchanged xs)

  insert_newest-Reordered : (x : A) (ys : List A) → Reordered (insert_newest x ys) (x ∷ ys)
  insert_newest-Reordered x [] = unchanged (x ∷ [])
  insert_newest-Reordered x (y ∷ ys) = elim (Bool-cases (leb (ts y) (ts x))) [
    | inl e ↦ rw e (unchanged (x ∷ y ∷ ys))
    | inr e ↦ rw e (composed (same_first y (insert_newest-Reordered x ys)) (swapped y x ys))
  ]

  newest_first_reorders : (xs : List A) → Reordered (newest_first xs) xs
  newest_first_reorders [] = nothing
  newest_first_reorders (x ∷ xs) =
      composed (insert_newest-Reordered x (newest_first xs))
        (same_first x (newest_first_reorders xs))

  older_still : (m n : ℕ) (xs : List A) → m ≤ n → All (λ y. ts y ≤ m) xs → All (λ y. ts y ≤ n) xs
  older_still m n [] le h = tt
  older_still m n (x ∷ xs) le h = (omega (arith, le, h.0), older_still m n xs le h.1)

  IsDescending-insert_newest :
      (x : A) (ys : List A) → IsDescending ys → IsDescending (insert_newest x ys)
  IsDescending-insert_newest x [] h = (tt, tt)
  IsDescending-insert_newest x (y ∷ ys) h = elim (Bool-cases (leb (ts y) (ts x))) [
    | inl e ↦
        let le : ts y ≤ ts x = ground (arith, e) in
        rw e ((le, older_still (ts y) (ts x) ys le h.0), h)
    | inr e ↦
        let less : ts x ≤ ts y = ground (arith, e) in
        rw e (
          All-Reordered (λ z. ts z ≤ ts y) (undone (insert_newest-Reordered x ys)) (less, h.0),
          IsDescending-insert_newest x ys h.1,
        )
  ]

  newest_first_descends : (xs : List A) → IsDescending (newest_first xs)
  newest_first_descends [] = tt
  newest_first_descends (x ∷ xs) =
      IsDescending-insert_newest x (newest_first xs) (newest_first_descends xs)

  -- Sorting answers the query.
  pub newest_first-IsNewestFirst : (xs : List A) → IsNewestFirst xs (newest_first xs)
  newest_first-IsNewestFirst xs = (newest_first_reorders xs, newest_first_descends xs)
