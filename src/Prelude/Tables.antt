-- ===== src/Prelude/Tables.antt =====
-- Lemmas on updates, appends, sorts and first matches of a table.
use Prim.Native.Nat.{◌≤◌}
use mathlib.Core.Path.{◌≡◌, refl, ap, ◌∙◌}
use mathlib.Core.Bool.{Bool, true, false}
use mathlib.Core.Option.{none, some}
use mathlib.Core.List.{List, [], ◌∷◌, ◌++◌, map}
use native.Mathlib.Omega.{arith}
use computecluster.Prelude.Tests.{Bool-cases, is_some}
use computecluster.Prelude.Lists.{
  All, any, find, count_by, count_by-append, update_where, insert_by, sort_by,
}
use mathlib.Core.Logic.{inl, inr}

module _ {ℓ} {A : Type ℓ} where
  pub All-map {κ μ} :
      (P : A → Type κ) (Q : A → Type μ) (f : A → A) (xs : List A)
      → ((x : A) → P x → Q (f x))
      → All P xs
      → All Q (map f xs)
  All-map P Q f [] h a = tt
  All-map P Q f (x ∷ xs) h a = (h x a.0, All-map P Q f xs h a.1)

  pub count_by-map_le :
      (q : A → Bool) (f : A → A) (xs : List A)
      → ((x : A) → q (f x) ≡ true → q x ≡ true)
      → count_by q (map f xs) ≤ count_by q xs
  unfolding count_by
  count_by-map_le q f [] h = omega arith
  count_by-map_le q f (x ∷ xs) h = ground (arith, h x, count_by-map_le q f xs h)

  pub count_by-insert_by :
      (q : A → Bool) (before : A → A → Bool) (x : A) (xs : List A)
      → count_by q (insert_by before x xs) ≡ count_by q (x ∷ xs)
  unfolding count_by insert_by
  count_by-insert_by q before x [] = refl
  count_by-insert_by q before x (y ∷ ys) = ground (arith, count_by-insert_by q before x ys)

  -- Sorting keeps every count, so it keeps the rows.
  pub count_by-sort_by :
      (q : A → Bool) (before : A → A → Bool) (xs : List A)
      → count_by q (sort_by before xs) ≡ count_by q xs
  unfolding count_by sort_by
  count_by-sort_by q before [] = refl
  count_by-sort_by q before (x ∷ xs) =
      ground
        (arith, count_by-insert_by q before x (sort_by before xs), count_by-sort_by q before xs)

  All-insert_by {κ} :
      (P : A → Type κ) (before : A → A → Bool) (x : A) (xs : List A)
      → P x
      → All P xs
      → All P (insert_by before x xs)
  unfolding insert_by
  All-insert_by P before x [] h a = (h, tt)
  All-insert_by P before x (y ∷ ys) h a = elim (Bool-cases (before y x)) [
    | inl e ↦ rw e (a.0, All-insert_by P before x ys h a.1)
    | inr e ↦ rw e (h, a)
  ]

  pub All-sort_by {κ} :
      (P : A → Type κ) (before : A → A → Bool) (xs : List A) → All P xs → All P (sort_by before xs)
  unfolding sort_by
  All-sort_by P before [] a = tt
  All-sort_by P before (x ∷ xs) a =
      All-insert_by P before x (sort_by before xs) a.0 (All-sort_by P before xs a.1)

  pub any-find : (p : A → Bool) (xs : List A) {x : A} → find p xs ≡ some x → any p xs ≡ true
  unfolding any find
  any-find p [] e = cc
  any-find p (y ∷ ys) {x} e = ground (arith, any-find p ys {x = x})

  pub count_by-any : (p : A → Bool) (xs : List A) → any p xs ≡ false → count_by p xs ≡ 0
  unfolding any count_by
  count_by-any p [] e = refl
  count_by-any p (x ∷ xs) e = ground (arith, count_by-any p xs)

  pub any_mono :
      (p q : A → Bool) (xs : List A)
      → ((x : A) → p x ≡ true → q x ≡ true)
      → any p xs ≡ true
      → any q xs ≡ true
  unfolding any
  any_mono p q [] h e = cc
  any_mono p q (x ∷ xs) h e = ground (arith, h x, any_mono p q xs h)

  -- The first match, if the update writes it, is found as it was written.
  pub find-update_where_written :
      (q p : A → Bool) (f : A → A) (xs : List A) {x : A}
      → ((y : A) → q (f y) ≡ q y)
      → p x ≡ true
      → find q xs ≡ some x
      → find q (update_where p f xs) ≡ some (f x)
  unfolding find update_where
  find-update_where_written q p f [] h t e = cc
  find-update_where_written q p f (y ∷ ys) {x} h t e = elim (Bool-cases (q y)) [
    | inl m ↦
        let same : y ≡ x = ground arith in
        let written : p y ≡ true = ap p same ∙ t in rw (written, h y, m) (ap (λ z. some (f z)) same)
    | inr n ↦
        let rest = find-update_where_written q p f ys h t (rw (n) at e) in
        elim (Bool-cases (p y)) [ inl w ↦ rw (w, h y, n) rest | inr w ↦ rw (w, n) rest ]
  ]

  -- An update that writes no match leaves the look-up as it was.
  pub find-update_where_other :
      (q p : A → Bool) (f : A → A) (xs : List A)
      → ((y : A) → q (f y) ≡ q y)
      → ((y : A) → p y ≡ true → q y ≡ false)
      → find q (update_where p f xs) ≡ find q xs
  unfolding find update_where
  find-update_where_other q p f [] h k = refl
  find-update_where_other q p f (y ∷ ys) h k =
      let rest = find-update_where_other q p f ys h k in
      elim (Bool-cases (p y)) [ inl w ↦ rw (w, h y, k y w) rest | inr w ↦ rw (w, rest) refl ]

  pub any-update_where :
      (q p : A → Bool) (f : A → A) (xs : List A)
      → ((x : A) → q x ≡ true → p x ≡ true → q (f x) ≡ true)
      → any q xs ≡ true
      → any q (update_where p f xs) ≡ true
  unfolding any update_where
  any-update_where q p f [] h e = cc
  any-update_where q p f (x ∷ xs) h e = ground (arith, h x, any-update_where q p f xs h)

  -- The rows that an update writes match what it writes.
  pub any-update_where_written :
      (q p : A → Bool) (f : A → A) (xs : List A)
      → ((x : A) → p x ≡ true → q (f x) ≡ true)
      → any p xs ≡ true
      → any q (update_where p f xs) ≡ true
  unfolding any update_where
  any-update_where_written q p f [] h e = cc
  any-update_where_written q p f (x ∷ xs) h e =
      ground (arith, h x, any-update_where_written q p f xs h)

  pub any-append : (q : A → Bool) (xs ys : List A) → any q xs ≡ true → any q (xs ++ ys) ≡ true
  unfolding any
  any-append q [] ys e = cc
  any-append q (x ∷ xs) ys e = ground (arith, any-append q xs ys)

  pub find-append :
      (p : A → Bool) (xs ys : List A) {x : A} → find p xs ≡ some x → find p (xs ++ ys) ≡ some x
  unfolding find
  find-append p [] ys e = cc
  find-append p (y ∷ xs) ys {x} e = ground (arith, find-append p xs ys {x = x})

  any-insert_by :
      (q : A → Bool) (before : A → A → Bool) (x : A) (xs : List A)
      → any q (insert_by before x xs) ≡ any q (x ∷ xs)
  unfolding any insert_by
  any-insert_by q before x [] = refl
  any-insert_by q before x (y ∷ ys) = ground (arith, any-insert_by q before x ys)

  pub any-sort_by :
      (q : A → Bool) (before : A → A → Bool) (xs : List A) → any q (sort_by before xs) ≡ any q xs
  unfolding any sort_by
  any-sort_by q before [] = refl
  any-sort_by q before (x ∷ xs) =
      ground (arith, any-insert_by q before x (sort_by before xs), any-sort_by q before xs)

  -- What `find` returns stands in the list.
  pub any-found :
      (p q : A → Bool) (xs : List A) (x : A) → find p xs ≡ some x → q x ≡ true → any q xs ≡ true
  unfolding any find
  any-found p q [] x e h = cc
  any-found p q (y ∷ ys) x e h = elim (Bool-cases (p y)) [
    | inl t ↦ let same : y ≡ x = ground arith in ground arith
    | inr f ↦ ground (arith, any-found p q ys x)
  ]

  no_match :
      (p : A → Bool) (x : A) (xs : List A) → count_by p xs ≡ 0 → All (λ y. p y ≡ true → y ≡ x) xs
  unfolding count_by
  no_match p x [] c = tt
  no_match p x (y ∷ ys) c = elim (Bool-cases (p y)) [
    | inl t ↦ absurd (ground arith)
    | inr f ↦ ((λ t. cc (f, t)), no_match p x ys (ground arith))
  ]

  -- Where one row at most matches, every match is the first.
  pub only_match :
      (p : A → Bool) (xs : List A) (x : A)
      → find p xs ≡ some x
      → count_by p xs ≤ 1
      → All (λ y. p y ≡ true → y ≡ x) xs
  unfolding find count_by
  only_match p [] x e c = tt
  only_match p (y ∷ ys) x e c = elim (Bool-cases (p y)) [
    | inl t ↦ ((λ _. ground arith), no_match p x ys (ground arith))
    | inr f ↦ ((λ t. cc (f, t)), only_match p ys x (rw f at e) (ground arith))
  ]

  uncounted :
      (p q : A → Bool) (xs : List A) (x : A)
      → find p xs ≡ some x
      → count_by q xs ≡ 0
      → ((y : A) → p y ≡ true → q y ≡ true)
      → ⊥
  unfolding find count_by
  uncounted p q [] x e c h = cc
  uncounted p q (y ∷ ys) x e c h = elim (Bool-cases (p y)) [
    | inl t ↦ let m : q y ≡ true = h y t in absurd (ground arith)
    | inr f ↦ uncounted p q ys x (rw (f) at e) (ground arith) h
  ]

  pub All-Unit : (xs : List A) → All {ℓ, 0} (λ x. Unit) xs
  All-Unit [] = tt
  All-Unit (x ∷ xs) = (tt, All-Unit xs)

  -- Where matches of `q` are unique, the first match of a narrower test is the match of `q`.
  pub find-narrower :
      (p q : A → Bool) (xs : List A) (x : A)
      → find p xs ≡ some x
      → count_by q xs ≤ 1
      → ((y : A) → p y ≡ true → q y ≡ true)
      → find q xs ≡ some x
  unfolding find count_by
  find-narrower p q [] x e c h = cc
  find-narrower p q (y ∷ ys) x e c h = elim (Bool-cases (q y)) [
    | inr n ↦
        let skipped : p y ≡ false = ground (arith, h y) in
        rw (n) (find-narrower p q ys x (rw (skipped) at e) (ground arith) h)
    | inl m ↦ elim (Bool-cases (p y)) [
      | inl t ↦ rw (m) (rw (t) at e)
      | inr f ↦ absurd (uncounted p q ys x (rw (f) at e) (ground arith) h)
    ]
  ]

  pub All-find-none : (p : A → Bool) (xs : List A) → find p xs ≡ none → All (λ y. p y ≡ false) xs
  unfolding find
  All-find-none p [] e = tt
  All-find-none p (y ∷ ys) e = elim (Bool-cases (p y)) [
    | inl t ↦ cc (rw t at e)
    | inr f ↦ (f, All-find-none p ys (rw f at e))
  ]

  pub find-none-All : (p : A → Bool) (xs : List A) → All (λ y. p y ≡ false) xs → find p xs ≡ none
  unfolding find
  find-none-All p [] a = refl
  find-none-All p (y ∷ ys) a = ground (arith, a.0, find-none-All p ys a.1)

  pub find-append_none :
      (p : A → Bool) (xs ys : List A) → find p xs ≡ none → find p (xs ++ ys) ≡ find p ys
  unfolding find
  find-append_none p [] ys e = refl
  find-append_none p (x ∷ xs) ys e = ground (arith, find-append_none p xs ys)

  pub is_some-find : (p : A → Bool) (xs : List A) → is_some (find p xs) ≡ any p xs
  unfolding find any
  is_some-find p [] = refl
  is_some-find p (x ∷ xs) = ground (arith, is_some-find p xs)

  pub any_none-All : (p : A → Bool) (xs : List A) → All (λ y. p y ≡ false) xs → any p xs ≡ false
  unfolding any
  any_none-All p [] a = refl
  any_none-All p (x ∷ xs) a = ground (arith, a.0, any_none-All p xs a.1)

  pub find_cong : (p q : A → Bool) (xs : List A) → ((x : A) → p x ≡ q x) → find p xs ≡ find q xs
  unfolding find
  find_cong p q [] h = refl
  find_cong p q (x ∷ xs) h = ground (arith, h x, find_cong p q xs h)

  pub count_by-snoc :
      (q : A → Bool) (xs : List A) (y : A)
      → count_by q xs ≤ 1
      → (q y ≡ true → any q xs ≡ false)
      → count_by q (xs ++ y ∷ []) ≤ 1
  unfolding count_by
  count_by-snoc q xs y h k = elim (Bool-cases (q y)) [
    | inl e ↦ ground (arith, count_by-append q xs (y ∷ []), count_by-any q xs (k e))
    | inr e ↦ ground (arith, count_by-append q xs (y ∷ []))
  ]

  pub any_none_mono :
      (p q : A → Bool) (xs : List A)
      → ((x : A) → p x ≡ true → q x ≡ true)
      → any q xs ≡ false
      → any p xs ≡ false
  any_none_mono p q xs h n = elim (Bool-cases (any p xs)) [
    | inl e ↦ cc (n, any_mono p q xs h e)
    | inr e ↦ e
  ]
