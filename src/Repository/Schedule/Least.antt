-- ===== src/Repository/Schedule/Least.antt =====
-- The chosen worker is the least of the eligible ones in the order of the sort keys.
use computecluster.Prelude.{
  ℕ, Bool, true, false, Option, none, some, List, [], ◌∷◌, ◌≡◌, refl, arith, All, filter_by, ◌&&◌,
  Bool-cases, inl, inr, All-map_where,
}
use mathlib.Core.Path.{subst, sym}
use mathlib.Core.List.{Memᴰ, cons≢nil}
use computecluster.Prelude.Sorted.{IsOrder, All-Memᴰ, All-filter_by, All-filter_by_inv}
use computecluster.Models.Enums.{JobType}
use computecluster.Repository.Tables.{JobRow, WorkerRow}
use computecluster.Repository.Schedule.{
  is_eligible, fits_tighter, comes_before, min_from, min_of, preferred_worker,
}

fits_tighter-asym : (x y : WorkerRow) → fits_tighter x y ≡ true → fits_tighter y x ≡ false
unfolding fits_tighter
fits_tighter-asym x y h = ground arith

fits_tighter-neg_trans :
    (x y z : WorkerRow)
    → fits_tighter x y ≡ false
    → fits_tighter y z ≡ false
    → fits_tighter x z ≡ false
unfolding fits_tighter
fits_tighter-neg_trans x y z h k = ground arith

comes_before-asym :
    (type : JobType) (x y : WorkerRow)
    → comes_before type x y ≡ true
    → comes_before type y x ≡ false
unfolding comes_before
comes_before-asym type x y h = ground (arith, fits_tighter-asym x y)

comes_before-neg_trans :
    (type : JobType) (x y z : WorkerRow)
    → comes_before type x y ≡ false
    → comes_before type y z ≡ false
    → comes_before type x z ≡ false
unfolding comes_before
comes_before-neg_trans type x y z h k = ground (arith, fits_tighter-neg_trans x y z)

comes_before-IsOrder : (type : JobType) → IsOrder (comes_before type)
comes_before-IsOrder type = record {
  asym = comes_before-asym type;
  neg_trans = comes_before-neg_trans type;
}

module _ (before : WorkerRow → WorkerRow → Bool) (o : IsOrder before) where
  irreflexive : (x : WorkerRow) → before x x ≡ false
  irreflexive x = elim (Bool-cases (before x x)) [ inl e ↦ o.asym x x e | inr e ↦ e ]

  -- Every row that was above the running minimum stays above the next one.
  min_from-least :
      (w : WorkerRow) (vs : List WorkerRow) (m : WorkerRow)
      → min_from before w vs ≡ m
      → (before w m ≡ false) × All (λ v. before v m ≡ false) vs
  unfolding min_from
  min_from-least w [] m h = (subst (λ x. before w x ≡ false) h (irreflexive w), tt)
  min_from-least w (v ∷ vs) m h = elim (Bool-cases (before v w)) [
    | inl e ↦
        let rest = min_from-least v vs m (rw e at h) in
        (o.neg_trans w v m (o.asym v w e) rest.0, (rest.0, rest.1))
    | inr e ↦
        let rest = min_from-least w vs m (rw e at h) in
        (rest.0, (o.neg_trans v w m e rest.0, rest.1))
  ]

  min_from-All :
      (P : WorkerRow → Type 0) (w : WorkerRow) (vs : List WorkerRow)
      → P w
      → All P vs
      → P (min_from before w vs)
  unfolding min_from
  min_from-All P w [] h a = h
  min_from-All P w (v ∷ vs) h a = elim (Bool-cases (before v w)) [
    | inl e ↦ rw e (min_from-All P v vs a.0 a.1)
    | inr e ↦ rw e (min_from-All P w vs h a.1)
  ]

-- An answer in the terms of the code's own tests: an eligible worker that no eligible one precedes,
-- or none where none is eligible.
abbrev pub IsLeast : JobRow → ℕ → List WorkerRow → Option WorkerRow → Type 0
IsLeast job stale_before workers none = All (λ w. is_eligible job stale_before w ≡ false) workers
IsLeast job stale_before workers (some w) =
    Memᴰ w workers
    × (is_eligible job stale_before w ≡ true)
    × All (λ v. (is_eligible job stale_before v && comes_before job.type v w) ≡ false) workers

module _ (job : JobRow) (stale_before : ℕ) (workers : List WorkerRow) where
  none_eligible :
      (ws : List WorkerRow)
      → filter_by (is_eligible job stale_before) ws ≡ []
      → All (λ w. is_eligible job stale_before w ≡ false) ws
  unfolding filter_by
  none_eligible [] e = tt
  none_eligible (w ∷ ws) e = elim (Bool-cases (is_eligible job stale_before w)) [
    | inl t ↦ absurd (cons≢nil (rw t at e))
    | inr f ↦ (f, none_eligible ws (rw f at e))
  ]

  IsLeast-of :
      (es : List WorkerRow)
      → filter_by (is_eligible job stale_before) workers ≡ es
      → IsLeast job stale_before workers (min_of (comes_before job.type) es)
  IsLeast-of [] e = none_eligible workers e
  IsLeast-of (w ∷ ws) e =
      let o = comes_before-IsOrder job.type in
      let best = min_from (comes_before job.type) w ws in
      let own : All (λ v. Memᴰ v workers × (is_eligible job stale_before v ≡ true)) (w ∷ ws) =
        subst (All (λ v. Memᴰ v workers × (is_eligible job stale_before v ≡ true))) e (
          All-filter_by (λ v. Memᴰ v workers) (is_eligible job stale_before) workers
            (All-Memᴰ (λ v. Memᴰ v workers) workers (λ v m. m))) in
      let least = min_from-least (comes_before job.type) o w ws best refl in
      let chosen =
        min_from-All (comes_before job.type) o
          (λ v. Memᴰ v workers × (is_eligible job stale_before v ≡ true)) w ws own.0 own.1 in
      (
        chosen.0,
        chosen.1,
        All-map_where
            (λ v. is_eligible job stale_before v ≡ true → comes_before job.type v best ≡ false) _
            workers (λ v h. ground (arith, h))
            (All-filter_by_inv (λ v. comes_before job.type v best ≡ false)
              (is_eligible job stale_before) workers
              (subst (All (λ v. comes_before job.type v best ≡ false)) (sym e) least)),
      )

  pub preferred_worker-IsLeast :
      IsLeast job stale_before workers (preferred_worker job workers stale_before)
  unfolding preferred_worker
  preferred_worker-IsLeast = IsLeast-of (filter_by (is_eligible job stale_before) workers) refl
