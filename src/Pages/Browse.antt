-- ===== src/Pages/Browse.antt =====
-- Paging through a listing of backend/app/api/routes/syslog.py and its siblings, and what it shows.

use network_monitoring.Devices.{Answer}
use network_monitoring.Admin.{Directory, User, get_current_user}
use network_monitoring.Syslog.Receiver.{SyslogRow}
use network_monitoring.Pages.{
  Paginated, Filter, page_of, answer_page, valid_page, valid_filter, shown_messages, list_syslog,
}
use network_monitoring.Pages.Order.{
  IsNewestFirst, AreDistinct, newest_first, IsNewestFirst-newest_first, length-Reordered,
}
use network_monitoring.Prelude.{
  ℕ, zero, suc, String, refl, sym, ap, inl, inr, Bool, true, Option, List, [], arith, length, take,
  drop, all, ◌+◌, ◌-◌, ◌*◌, ◌≤◌, ◌≡◌, ◌∙◌, ◌&&◌, ◌∷◌, ◌++◌, nat_eq, string_eq,
}

module _ {A : Type 0} where
  -- the items of n pages from a page on, if all are served
  unfoldable pub browse : ℕ → ℕ → (ℕ → Answer (Paginated A)) → Answer (List A)
  browse from zero serve = inr []
  browse from (suc n) serve =
      let rest = browse (from + 1) n serve in
      elim (serve from) [
        | inl r ↦ inl r
        | inr p ↦ elim rest [ inl r ↦ inl r | inr items ↦ inr (p.items ++ items) ]
      ]

  drop_empty : (n : ℕ) → drop {A = A} n [] ≡ []
  drop_empty zero = refl
  drop_empty (suc n) = refl

  take_empty : (n : ℕ) → take {A = A} n [] ≡ []
  take_empty zero = refl
  take_empty (suc n) = refl

  drop-drop : (m n : ℕ) (xs : List A) → drop m (drop n xs) ≡ drop (n + m) xs
  drop-drop m zero xs = let e : 0 + m ≡ m = omega arith in rw e refl
  drop-drop m (suc n) [] = drop_empty m ∙ sym (drop_empty (suc n + m))
  drop-drop m (suc n) (x ∷ xs) =
      let e : suc n + m ≡ suc (n + m) = omega arith in rw e (drop-drop m n xs)

  take-add : (m n : ℕ) (xs : List A) → take (m + n) xs ≡ take m xs ++ take n (drop m xs)
  take-add zero n xs = let e : 0 + n ≡ n = omega arith in rw e refl
  take-add (suc m) n [] = take_empty (suc m + n) ∙ sym (take_empty n)
  take-add (suc m) n (x ∷ xs) =
      let e : suc m + n ≡ suc (m + n) = omega arith in rw e (ap (◌∷◌ x) (take-add m n xs))

  take-all : (n : ℕ) (xs : List A) → length xs ≤ n → take n xs ≡ xs
  take-all zero [] h = refl
  take-all zero (x ∷ xs) h = ground (arith, h)
  take-all (suc n) [] h = refl
  take-all (suc n) (x ∷ xs) h = ap (◌∷◌ x) (take-all n xs (omega (arith, h)))

  piece :
      (size m a a' b c : ℕ) (xs : List A)
      → a' ≡ a
      → b ≡ a + size
      → c ≡ size + m
      → take size (drop a' xs) ++ take m (drop b xs) ≡ take c (drop a xs)
  piece size m a a' b c xs same next all =
      rw (same, next, all, take-add size m (drop a xs), drop-drop size a xs) refl

  -- Consecutive pages are one longer piece of the listing.
  browse-pages :
      (newest : List A → List A) (rows : List A) (size : ℕ) (serve : ℕ → Answer (Paginated A))
      (k n : ℕ)
      → ((j : ℕ) → serve (j + 1) ≡ inr (page_of newest (j + 1) size rows))
      → browse (k + 1) n serve ≡ inr (take (n * size) (drop (k * size) (newest rows)))
  unfolding browse page_of
  browse-pages newest rows size serve k zero h = let e : 0 * size ≡ 0 = omega arith in rw e refl
  browse-pages newest rows size serve k (suc n) h =
      rw (h k, browse-pages newest rows size serve (k + 1) n h, browse)
        (ap inr (
          piece size (n * size) (k * size) ((k + 1 - 1) * size) ((k + 1) * size) (suc n * size)
            (newest rows) (let e : k + 1 - 1 ≡ k = omega arith in ap (λ i. i * size) e)
            (omega arith) (omega arith)))

  browse-everything :
      (newest : List A → List A) (rows : List A) (size n : ℕ) (serve : ℕ → Answer (Paginated A))
      → ((j : ℕ) → serve (j + 1) ≡ inr (page_of newest (j + 1) size rows))
      → length (newest rows) ≤ n * size
      → browse 1 n serve ≡ inr (newest rows)
  browse-everything newest rows size n serve h enough =
      let first : 0 * size ≡ 0 = omega arith in
      let all : browse 1 n serve ≡ inr (take (n * size) (drop (0 * size) (newest rows))) =
        browse-pages newest rows size serve 0 n h in
      all
      ∙ ap (λ i. inr (take (n * size) (drop i (newest rows)))) first
      ∙ ap inr (take-all (n * size) (newest rows) enough)

  -- the gate and the bounds passed
  answer_page-served :
      (gate : Answer User) (u : User) (valid : Bool) (p : Paginated A)
      → gate ≡ inr u
      → valid ≡ true
      → answer_page gate valid p ≡ inr p
  unfolding answer_page
  answer_page-served gate u valid p admitted within = rw (admitted, within, answer_page) refl

valid_next : (j size : ℕ) → 1 ≤ size → size ≤ 200 → valid_page (j + 1) size ≡ true
valid_next j size some_rows few = ground (arith, some_rows, few)

-- A page depends on the order only through the rows in that order.
page_of-same :
    {A : Type 0} (newest other : List A → List A) (page size : ℕ) (rows : List A)
    → newest rows ≡ other rows
    → page_of newest page size rows ≡ page_of other page size rows
unfolding page_of
page_of-same newest other page size rows e = rw e refl

-- Message.ts
abbrev pub time : Option ℕ × SyslogRow → ℕ
time m = m.1.ts

module _ (decode : String → Option ℕ) (token : String) (w : Directory) (u : User) where
  -- A signed-in user who reads enough pages of the messages, of any size from 1 to 200, sees exactly
  -- the messages that the parameters select, each once and sorted by time, the newest first, if the
  -- rows do not change and no two of those messages have the same time. The database may answer each
  -- query with any order in which the newest come first.
  pub list_syslog-browse :
      (ilike : String → String → Bool)
      (newest : ℕ → List (Option ℕ × SyslogRow) → List (Option ℕ × SyslogRow)) (f : Filter)
      (rows : List (Option ℕ × SyslogRow)) (size n : ℕ)
      → get_current_user decode token w ≡ inr u
      → valid_filter f ≡ true
      → 1 ≤ size
      → size ≤ 200
      → ((k : ℕ) (ms : List (Option ℕ × SyslogRow)) → IsNewestFirst time ms (newest k ms))
      → AreDistinct time (shown_messages ilike f rows)
      → length (shown_messages ilike f rows) ≤ n * size
      → browse 1 n (λ k. list_syslog decode token w ilike (newest k) f rows size k)
        ≡ inr (newest_first time (shown_messages ilike f rows))
  unfolding list_syslog
  list_syslog-browse ilike newest f rows size n admitted valid some_rows few ordered distinct
        enough =
      let shown = shown_messages ilike f rows in
      let sorted : (k : ℕ) → newest k shown ≡ newest_first time shown =
        λ k. IsNewestFirst-newest_first time shown (newest k shown) distinct (ordered k shown) in
      browse-everything (newest_first time) shown size n
        (λ k. list_syslog decode token w ilike (newest k) f rows size k)
        (λ j.
          answer_page-served (get_current_user decode token w) u
            (valid_page (j + 1) size && valid_filter f)
            (page_of (newest (j + 1)) (j + 1) size shown) admitted
            (rw (valid_next j size some_rows few, valid) refl)
          ∙ ap inr (
              page_of-same (newest (j + 1)) (newest_first time) (j + 1) size shown
                (sorted (j + 1))))
        (let all : length (newest_first time shown) ≡ length shown =
            ap length (sym (sorted 1)) ∙ length-Reordered time (ordered 1 shown).0 in
          omega (arith, all, enough))
