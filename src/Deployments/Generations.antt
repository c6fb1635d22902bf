-- ===== src/Deployments/Generations.antt =====
-- The generations of an installation: rows of app_installed_history.
use computecluster.Prelude.{
  ℕ, suc, ◌+◌, ◌≤◌, true, Option, none, some, List, [], ◌∷◌, ◌++◌, ◌≡◌, refl, ap, ◌∙◌, arith,
  length, All, All-sort_by, filter_by, insert_by, sort_by,
}
use computecluster.Deployments.Contracts.{AcceptedSnapshot}
use computecluster.Deployments.Tables.{
  HistoryRow, Tables, newer, nth, generation_of, accepted, accepted_row_at, of_installation,
}
use computecluster.Deployments.Approval.{latest_generation}

-- Rows in the order of their insertion, with the generations behind n.
abbrev pub IsNumbered : ℕ → List HistoryRow → Type 0
IsNumbered n [] = Unit
IsNumbered n (r ∷ rs) =
    (r.generation ≡ suc n) × (generation_of r.snapshot ≡ suc n) × IsNumbered (suc n) rs

abbrev pub rows_of : ℕ → ℕ → Tables → List HistoryRow
rows_of app environment db = filter_by (of_installation app environment) db.history

pub IsNumbered-snoc :
    (n : ℕ) (rs : List HistoryRow) (r : HistoryRow)
    → IsNumbered n rs
    → r.generation ≡ suc (n + length rs)
    → generation_of r.snapshot ≡ suc (n + length rs)
    → IsNumbered n (rs ++ r ∷ [])
IsNumbered-snoc n [] r h g s = (omega (arith, g), omega (arith, s), tt)
IsNumbered-snoc n (x ∷ rs) r h g s =
    (h.0, h.1, IsNumbered-snoc (suc n) rs r h.2 (omega (arith, g)) (omega (arith, s)))

All-numbered :
    (x : HistoryRow) (n : ℕ) (rs : List HistoryRow)
    → x.generation ≤ n
    → IsNumbered n rs
    → All (λ y. newer y x ≡ true) rs
All-numbered x n [] l h = tt
All-numbered x n (r ∷ rs) l h =
    (ground (arith, h.0), All-numbered x (suc n) rs (omega (arith, l)) h.2)

insert_last :
    (x : HistoryRow) (ys : List HistoryRow)
    → All (λ y. newer y x ≡ true) ys
    → insert_by newer x ys ≡ ys ++ x ∷ []
unfolding insert_by
insert_last x [] a = refl
insert_last x (y ∷ ys) a = rw (a.0) (ap (λ zs. y ∷ zs) (insert_last x ys a.1))

abbrev generation_or : ℕ → Option HistoryRow → ℕ
generation_or n none = n
generation_or n (some r) = generation_of r.snapshot

abbrev first_or : ℕ → List HistoryRow → ℕ
first_or n rs = generation_or n (nth 0 rs)

first_or-snoc :
    (n : ℕ) (ys : List HistoryRow) (x : HistoryRow)
    → generation_of x.snapshot ≡ suc n
    → first_or n (ys ++ x ∷ []) ≡ first_or (suc n) ys
unfolding nth
first_or-snoc n [] x e = e
first_or-snoc n (y ∷ ys) x e = refl

newest :
    (n : ℕ) (rs : List HistoryRow) → IsNumbered n rs → first_or n (sort_by newer rs) ≡ n + length rs
unfolding sort_by
newest n [] h = unfold nth in omega arith
newest n (r ∷ rs) h =
    let above : All (λ y. newer y r ≡ true) (sort_by newer rs) =
      All-sort_by _ newer rs (All-numbered r (suc n) rs (omega (arith, h.0)) h.2) in
    ap (first_or n) (insert_last r (sort_by newer rs) above)
    ∙ first_or-snoc n (sort_by newer rs) r h.1
    ∙ newest (suc n) rs h.2
    ∙ omega arith

latest_or :
    (o : Option HistoryRow)
    → latest_generation
        (elim o as (λ _. Option AcceptedSnapshot) [ none ↦ none | some r ↦ some r.snapshot ])
      ≡ generation_or 0 o
latest_or none = refl
latest_or (some r) = refl

-- The latest generation is the number of accepted rows.
pub latest_generation-accepted :
    (app environment : ℕ) (db : Tables)
    → IsNumbered 0 (rows_of app environment db)
    → latest_generation (accepted app environment 0 db) ≡ length (rows_of app environment db)
unfolding accepted accepted_row_at
latest_generation-accepted app environment db h =
    let sorted = sort_by newer (rows_of app environment db) in
    latest_or (nth 0 sorted) ∙ newest 0 (rows_of app environment db) h ∙ omega arith
