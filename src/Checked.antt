-- ===== src/Checked.antt =====
-- `std::result::Result<_, String>`, which the inner helpers of src/tools return.
use pg_ask.Prelude.{Text, ◌≡◌, refl, ◌⊎◌, inl, inr}

pub data Checked {ℓ} (A : Type ℓ) : Type ℓ where
  pass : A → Checked A
  fail : Text → Checked A

infixl 5 ◌>>=◌ ◌>>◌
abbrev pub ◌>>=◌ {ℓ κ} : {A : Type ℓ} {B : Type κ} → Checked A → (A → Checked B) → Checked B
pass a >>= f = f a
fail msg >>= f = fail msg

abbrev pub ◌>>◌ {ℓ} : {B : Type ℓ} → Checked (Unit {0}) → Checked B → Checked B
m >> k = m >>= λ _. k

pub >>-eq-pass {ℓ} :
    {B : Type ℓ} (m : Checked (Unit {0})) (k : Checked B) {b : B}
    → (m >> k) ≡ pass b
    → (m ≡ pass tt) × (k ≡ pass b)
>>-eq-pass (pass tt) k h = (refl, h)
>>-eq-pass (fail e) k h = cc

pub >>=-eq-pass {ℓ κ} :
    {A : Type ℓ} {B : Type κ} (m : Checked A) (f : A → Checked B) {b : B}
    → (m >>= f) ≡ pass b
    → (a : A) × (m ≡ pass a) × (f a ≡ pass b)
>>=-eq-pass (pass a) f h = (a, refl, h)
>>=-eq-pass (fail e) f h = cc

pub Checked-cases {ℓ} :
    {A : Type ℓ} (c : Checked A) → ((a : A) × (c ≡ pass a)) ⊎ ((e : Text) × (c ≡ fail e))
Checked-cases (pass a) = inl (a, refl)
Checked-cases (fail e) = inr (e, refl)
