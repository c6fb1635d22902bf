-- ===== src/Prelude/Lists.antt =====
-- Lists as tables: filters, first matches, counts and pointwise updates.
use Prim.Native.Nat.{ℕ, suc, ◌+◌, ◌≤◌}
use mathlib.Core.Path.{◌≡◌, refl, subst}
use mathlib.Core.Bool.{Bool, true, false, ◌||◌}
use mathlib.Core.Option.{Option, none, some}
use mathlib.Core.List.{List, [], ◌∷◌, ◌++◌}
use native.Mathlib.Omega.{arith}
use computecluster.Prelude.Tests.{if◌then◌else◌, Bool-cases}
use mathlib.Core.Logic.{inl, inr}

module _ {ℓ} {A : Type ℓ} where
  abbrev pub length : List A → ℕ
  length [] = 0
  length (x ∷ xs) = suc (length xs)

  abbrev pub All {κ} : (A → Type κ) → List A → Type κ
  All P [] = Unit
  All P (x ∷ xs) = P x × All P xs

  unfoldable pub any : (A → Bool) → List A → Bool
  any p [] = false
  any p (x ∷ xs) = p x || any p xs

  unfoldable pub filter_by : (A → Bool) → List A → List A
  filter_by p [] = []
  filter_by p (x ∷ xs) = let rest = filter_by p xs in if p x then x ∷ rest else rest

  -- The first match, as `fetchone` reads it.
  unfoldable pub find : (A → Bool) → List A → Option A
  find p [] = none
  find p (x ∷ xs) = let rest = find p xs in if p x then some x else rest

  unfoldable pub count_by : (A → Bool) → List A → ℕ
  count_by p [] = 0
  count_by p (x ∷ xs) = let rest = count_by p xs in if p x then suc rest else rest

  -- UPDATE ... SET f WHERE p
  unfoldable pub update_where : (A → Bool) → (A → A) → List A → List A
  update_where p f [] = []
  update_where p f (x ∷ xs) = (if p x then f x else x) ∷ update_where p f xs

  -- ORDER BY: a stable insertion sort by a strict comparison.
  unfoldable pub insert_by : (A → A → Bool) → A → List A → List A
  insert_by before x [] = x ∷ []
  insert_by before x (y ∷ ys) =
      let rest = insert_by before x ys in if before y x then y ∷ rest else x ∷ y ∷ ys

  unfoldable pub sort_by : (A → A → Bool) → List A → List A
  unfolding insert_by
  sort_by before [] = []
  sort_by before (x ∷ xs) = insert_by before x (sort_by before xs)

  -- Lemmas. A hypothesis on rows is asked of the rows that the list holds.
  pub All-map_where {κ μ} :
      (P : A → Type κ) (Q : A → Type μ) (xs : List A) → ((x : A) → P x → Q x) → All P xs → All Q xs
  All-map_where P Q [] h a = tt
  All-map_where P Q (x ∷ xs) h a = (h x a.0, All-map_where P Q xs h a.1)

  pub All-append {κ} : (P : A → Type κ) (xs ys : List A) → All P xs → All P ys → All P (xs ++ ys)
  All-append P [] ys hx hy = hy
  All-append P (x ∷ xs) ys hx hy = (hx.0, All-append P xs ys hx.1 hy)

  pub All-if {κ} :
      (P : A → Type κ) (b : Bool) (x y : A)
      → (b ≡ true → P x)
      → (b ≡ false → P y)
      → P (if b then x else y)
  All-if P true x y h k = h refl
  All-if P false x y h k = k refl

  pub All-update_where {κ μ} :
      (P : A → Type κ) (Q : A → Type μ) (p : A → Bool) (f : A → A) (xs : List A)
      → ((x : A) → p x ≡ true → P x → Q (f x))
      → ((x : A) → p x ≡ false → P x → Q x)
      → All P xs
      → All Q (update_where p f xs)
  unfolding update_where
  All-update_where P Q p f [] h k a = tt
  All-update_where P Q p f (x ∷ xs) h k a = (
    All-if Q (p x) (f x) x (λ e. h x e a.0) (λ e. k x e a.0),
    All-update_where P Q p f xs h k a.1,
  )

  pub find-All {κ} :
      (P : A → Type κ) (p : A → Bool) (xs : List A) {x : A} → All P xs → find p xs ≡ some x → P x
  unfolding find
  find-All P p [] a e = cc
  find-All P p (y ∷ ys) {x} a e = elim (Bool-cases (p y)) [
    | inl t ↦ let same : y ≡ x = ground arith in subst P same a.0
    | inr f ↦ find-All P p ys a.1 (rw f at e)
  ]

  pub find-holds : (p : A → Bool) (xs : List A) {x : A} → find p xs ≡ some x → p x ≡ true
  unfolding find
  find-holds p [] e = cc
  find-holds p (y ∷ ys) {x} e = elim (Bool-cases (p y)) [
    | inl t ↦ let same : y ≡ x = ground arith in subst (λ z. p z ≡ true) same t
    | inr f ↦ find-holds p ys (rw f at e)
  ]

  pub count_by-eq-zero : (p : A → Bool) (xs : List A) → find p xs ≡ none → count_by p xs ≡ 0
  unfolding find count_by
  count_by-eq-zero p [] e = refl
  count_by-eq-zero p (x ∷ xs) e = ground (arith, count_by-eq-zero p xs)

  pub count_by-append :
      (p : A → Bool) (xs ys : List A) → count_by p (xs ++ ys) ≡ count_by p xs + count_by p ys
  unfolding count_by
  count_by-append p [] ys = omega arith
  count_by-append p (x ∷ xs) ys = ground (arith, count_by-append p xs ys)

  -- Rows that `f` makes match did match before, so the update adds no match.
  pub count_by-update_where_le {κ} :
      (P : A → Type κ) (q p : A → Bool) (f : A → A) (xs : List A)
      → ((x : A) → p x ≡ true → P x → q (f x) ≡ true → q x ≡ true)
      → All P xs
      → count_by q (update_where p f xs) ≤ count_by q xs
  unfolding count_by update_where
  count_by-update_where_le P q p f [] h a = omega arith
  count_by-update_where_le P q p f (x ∷ xs) h a =
      ground (arith, λ (e : p x ≡ true). h x e a.0, count_by-update_where_le P q p f xs h a.1)

  -- An update adds at most one match for each row that it writes.
  pub count_by-update_where_add :
      (q p : A → Bool) (f : A → A) (xs : List A)
      → count_by q (update_where p f xs) ≤ count_by q xs + count_by p xs
  unfolding count_by update_where
  count_by-update_where_add q p f [] = omega arith
  count_by-update_where_add q p f (x ∷ xs) = ground (arith, count_by-update_where_add q p f xs)

  pub count_by_mono {κ} :
      (P : A → Type κ) (q r : A → Bool) (xs : List A)
      → ((x : A) → P x → q x ≡ true → r x ≡ true)
      → All P xs
      → count_by q xs ≤ count_by r xs
  unfolding count_by
  count_by_mono P q r [] h a = omega arith
  count_by_mono P q r (x ∷ xs) h a = ground (arith, h x a.0, count_by_mono P q r xs h a.1)

  pub count_by-filter_by :
      (q p : A → Bool) (xs : List A) → count_by q (filter_by p xs) ≤ count_by q xs
  unfolding count_by filter_by
  count_by-filter_by q p [] = omega arith
  count_by-filter_by q p (x ∷ xs) = ground (arith, count_by-filter_by q p xs)
