-- ===== src/Deployments/Checked.antt =====
-- What holds of the value that a chain of checks gives, where it gives one.
use computecluster.Prelude.{Bool, true, false, String, Option, none, some, ◌≡◌, refl, if◌then◌else◌}
use computecluster.Deployments.Contracts.{
  Checked, ok, contract_error, raise_if, or_raise, ◌>>=◌, ◌>>◌,
}

unfoldable pub Holds {ℓ} : {A : Type ℓ} → (A → Type 0) → Checked A → Type 0
Holds P (ok a) = P a
Holds P (contract_error m) = Unit

module _ {ℓ} {A : Type ℓ} where
  pub Holds-value : (P : A → Type 0) (a : A) → P a → Holds P (ok a)
  unfolding Holds
  Holds-value P a h = h

  pub Holds-each : (P : A → Type 0) (m : Checked A) → ((a : A) → m ≡ ok a → P a) → Holds P m
  unfolding Holds
  Holds-each P (ok a) h = h a refl
  Holds-each P (contract_error e) h = tt

  pub Holds-given : (P : A → Type 0) (m : Checked A) (a : A) → Holds P m → m ≡ ok a → P a
  unfolding Holds
  Holds-given P m a h e = rw (e, Holds) at h

  pub Holds-if :
      (P : A → Type 0) (b : Bool) (m n : Checked A)
      → (b ≡ true → Holds P m)
      → (b ≡ false → Holds P n)
      → Holds P (if b then m else n)
  Holds-if P true m n h k = h refl
  Holds-if P false m n h k = k refl

pub Holds-test :
    (P : Bool → Type 0) (b : Bool) (message : String)
    → (b ≡ false → P true)
    → Holds P (raise_if b message)
unfolding Holds raise_if
Holds-test P true message h = tt
Holds-test P false message h = h refl

module _ {ℓ κ} {A : Type ℓ} {B : Type κ} where
  pub Holds-bind :
      (P : B → Type 0) (m : Checked A) (f : A → Checked B)
      → ((a : A) → m ≡ ok a → Holds P (f a))
      → Holds P (m >>= f)
  unfolding Holds ◌>>=◌
  Holds-bind P (ok a) f h = h a refl
  Holds-bind P (contract_error e) f h = tt

  pub Holds-next :
      (P : B → Type 0) (m : Checked A) (n : Checked B)
      → ((a : A) → m ≡ ok a → Holds P n)
      → Holds P (m >> n)
  unfolding Holds ◌>>=◌ ◌>>◌
  Holds-next P (ok a) n h = h a refl
  Holds-next P (contract_error e) n h = tt

  pub Holds-then :
      (Q : A → Type 0) (P : B → Type 0) (m : Checked A) (f : A → Checked B)
      → Holds Q m
      → ((a : A) → Q a → Holds P (f a))
      → Holds P (m >>= f)
  unfolding Holds ◌>>=◌
  Holds-then Q P (ok a) f h k = k a h
  Holds-then Q P (contract_error e) f h k = tt

  pub Holds-or_raise :
      (P : B → Type 0) (o : Option A) (message : String) (f : A → Checked B)
      → ((a : A) → o ≡ some a → Holds P (f a))
      → Holds P (or_raise o message >>= f)
  unfolding Holds ◌>>=◌ or_raise
  Holds-or_raise P none message f h = tt
  Holds-or_raise P (some a) message f h = h a refl

module _ {ℓ} {B : Type ℓ} where
  pub Holds-guard :
      (P : B → Type 0) (b : Bool) (message : String) (m : Checked B)
      → (b ≡ false → Holds P m)
      → Holds P (raise_if b message >> m)
  unfolding Holds ◌>>=◌ ◌>>◌ raise_if
  Holds-guard P true message m h = tt
  Holds-guard P false message m h = h refl
