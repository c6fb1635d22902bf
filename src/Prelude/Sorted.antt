-- ===== src/Prelude/Sorted.antt =====
-- ORDER BY puts the rows in order, and keeps exactly the rows it is given.
use mathlib.Core.Path.{◌≡◌, refl, sym, ◌∙◌}
use mathlib.Core.Bool.{Bool, true, false, false≢true}
use mathlib.Core.Logic.{inl, inr}
use mathlib.Core.List.{List, [], ◌∷◌, Memᴰ}
use computecluster.Prelude.Tests.{Bool-cases}
use computecluster.Prelude.Lists.{All, filter_by, insert_by, sort_by}

-- A strict weak order, as the comparison of sort keys is one.
pub record IsOrder {ℓ} {A : Type ℓ} (before : A → A → Bool) : Type ℓ where
  pub asym : (x y : A) → before x y ≡ true → before y x ≡ false
  pub neg_trans : (x y z : A) → before x y ≡ false → before y z ≡ false → before x z ≡ false

module _ {ℓ} {A : Type ℓ} where
  -- No row stands before an earlier one.
  abbrev pub IsSorted : (A → A → Bool) → List A → Type ℓ
  IsSorted before [] = Unit
  IsSorted before (x ∷ xs) = All (λ y. before y x ≡ false) xs × IsSorted before xs

  pub All-Memᴰ {κ} : (P : A → Type κ) (xs : List A) → ((x : A) → Memᴰ x xs → P x) → All P xs
  All-Memᴰ P [] h = tt
  All-Memᴰ P (x ∷ xs) h = (h x (Memᴰ.head refl), All-Memᴰ P xs (λ y m. h y (Memᴰ.tail m)))

  All-insert_by_inv {κ} :
      (P : A → Type κ) (before : A → A → Bool) (x : A) (xs : List A)
      → All P (insert_by before x xs)
      → P x × All P xs
  unfolding insert_by
  All-insert_by_inv P before x [] a = a
  All-insert_by_inv P before x (y ∷ ys) a = elim (Bool-cases (before y x)) [
    | inl e ↦
        let b : P y × All P (insert_by before x ys) = rw e at a in
        let c : P x × All P ys = All-insert_by_inv P before x ys b.1 in (c.0, (b.0, c.1))
    | inr e ↦ rw e at a
  ]

  -- What holds of all sorted rows holds of all rows.
  pub All-sort_by_inv {κ} :
      (P : A → Type κ) (before : A → A → Bool) (xs : List A) → All P (sort_by before xs) → All P xs
  unfolding sort_by
  All-sort_by_inv P before [] a = tt
  All-sort_by_inv P before (x ∷ xs) a =
      let b = All-insert_by_inv P before x (sort_by before xs) a in
      (b.0, All-sort_by_inv P before xs b.1)

  pub All-filter_by {κ} :
      (P : A → Type κ) (p : A → Bool) (xs : List A)
      → All P xs
      → All (λ x. P x × (p x ≡ true)) (filter_by p xs)
  unfolding filter_by
  All-filter_by P p [] a = tt
  All-filter_by P p (x ∷ xs) a = elim (Bool-cases (p x)) [
    | inl e ↦ rw e ((a.0, e), All-filter_by P p xs a.1)
    | inr e ↦ rw e (All-filter_by P p xs a.1)
  ]

  pub All-filter_by_inv {κ} :
      (P : A → Type κ) (p : A → Bool) (xs : List A)
      → All P (filter_by p xs)
      → All (λ x. p x ≡ true → P x) xs
  unfolding filter_by
  All-filter_by_inv P p [] a = tt
  All-filter_by_inv P p (x ∷ xs) a = elim (Bool-cases (p x)) [
    | inl e ↦
        let b : P x × All P (filter_by p xs) = rw e at a in
        ((λ _. b.0), All-filter_by_inv P p xs b.1)
    | inr e ↦ ((λ t. absurd (false≢true (sym e ∙ t))), All-filter_by_inv P p xs (rw e at a))
  ]

  module _ (before : A → A → Bool) (o : IsOrder before) where
    above :
        (x y : A) (ys : List A)
        → before y x ≡ false
        → All (λ z. before z y ≡ false) ys
        → All (λ z. before z x ≡ false) ys
    above x y [] e a = tt
    above x y (z ∷ zs) e a = (o.neg_trans z y x a.0 e, above x y zs e a.1)

    All-insert_by_intro :
        (P : A → Type 0) (x : A) (ys : List A) → P x → All P ys → All P (insert_by before x ys)
    unfolding insert_by
    All-insert_by_intro P x [] h a = (h, tt)
    All-insert_by_intro P x (y ∷ ys) h a = elim (Bool-cases (before y x)) [
      | inl e ↦ rw e (a.0, All-insert_by_intro P x ys h a.1)
      | inr e ↦ rw e (h, a)
    ]

    insert_by-IsSorted :
        (x : A) (ys : List A) → IsSorted before ys → IsSorted before (insert_by before x ys)
    unfolding insert_by
    insert_by-IsSorted x [] s = (tt, tt)
    insert_by-IsSorted x (y ∷ ys) s = elim (Bool-cases (before y x)) [
      | inl e ↦ rw e (
        All-insert_by_intro (λ z. before z y ≡ false) x ys (o.asym y x e) s.0,
        insert_by-IsSorted x ys s.1,
      )
      | inr e ↦ rw e ((e, above x y ys e s.0), s)
    ]

    pub sort_by-IsSorted : (xs : List A) → IsSorted before (sort_by before xs)
    unfolding sort_by
    sort_by-IsSorted [] = tt
    sort_by-IsSorted (x ∷ xs) = insert_by-IsSorted x (sort_by before xs) (sort_by-IsSorted xs)

  All-filter_by_keep {κ} :
      (P : A → Type κ) (p : A → Bool) (xs : List A) → All P xs → All P (filter_by p xs)
  unfolding filter_by
  All-filter_by_keep P p [] a = tt
  All-filter_by_keep P p (x ∷ xs) a = elim (Bool-cases (p x)) [
    | inl e ↦ rw e (a.0, All-filter_by_keep P p xs a.1)
    | inr e ↦ rw e (All-filter_by_keep P p xs a.1)
  ]

  pub filter_by-IsSorted :
      (before : A → A → Bool) (p : A → Bool) (xs : List A)
      → IsSorted before xs
      → IsSorted before (filter_by p xs)
  unfolding filter_by
  filter_by-IsSorted before p [] s = tt
  filter_by-IsSorted before p (x ∷ xs) s = elim (Bool-cases (p x)) [
    | inl e ↦
        rw e (
          All-filter_by_keep (λ y. before y x ≡ false) p xs s.0,
          filter_by-IsSorted before p xs s.1,
        )
    | inr e ↦ rw e (filter_by-IsSorted before p xs s.1)
  ]
