-- ===== src/Base/Outcome.antt =====
-- Rust's `Result`, with `?` as bind.
use mathlib.Core.Path.{◌≡◌, refl, sym, subst, ◌∙◌}
use mathlib.Core.Bool.{Bool, true, false}
use mathlib.Core.Option.{Option, none, some}
use minisqlite.Base.Tests.{if◌then◌else◌}

pub data Result {ℓ κ} (A : Type ℓ) (E : Type κ) : Type (ℓ ⊔ κ) where
  ok : A → Result A E
  err : E → Result A E

infixl 5 ◌>>=◌ ◌>>◌
abbrev pub ◌>>=◌ {ℓ κ μ} :
    {A : Type ℓ} {B : Type κ} {E : Type μ} → Result A E → (A → Result B E) → Result B E
ok a >>= f = f a
err e >>= f = err e

abbrev pub ◌>>◌ {κ μ} : {B : Type κ} {E : Type μ} → Result (Unit {0}) E → Result B E → Result B E
m >> k = m >>= λ _. k

abbrev pub map_err {ℓ κ μ} :
    {A : Type ℓ} {E : Type κ} {F : Type μ} → (E → F) → Result A E → Result A F
map_err f (ok a) = ok a
map_err f (err e) = err (f e)

abbrev pub ok_or {ℓ κ} : {A : Type ℓ} {E : Type κ} → Option A → E → Result A E
ok_or none e = err e
ok_or (some a) e = ok a

-- `if fails { return Err(e) }`.
abbrev pub reject_if {κ} : {E : Type κ} → Bool → E → Result (Unit {0}) E
reject_if true e = err e
reject_if false e = ok tt

abbrev pub guard {κ} : {E : Type κ} → Bool → E → Result (Unit {0}) E
guard true e = ok tt
guard false e = err e

pub ok-injective {ℓ κ} :
    {A : Type ℓ} {E : Type κ} {a b : A} → ◌≡◌ {A = Result A E} (ok a) (ok b) → a ≡ b
ok-injective e = cc

-- What a `?` that succeeded went through.
pub >>=-eq-ok {ℓ κ μ} :
    {E : Type μ} {A : Type ℓ} {B : Type κ} (first : Result A E) (rest : A → Result B E) {last : B}
    → (first >>= rest) ≡ ok last
    → (value : A) × (first ≡ ok value) × (rest value ≡ ok last)
>>=-eq-ok (err why) rest e = cc
>>=-eq-ok (ok value) rest e = (value, refl, e)

-- Whenever `m` succeeds its value satisfies `P`: one rule for each way the code builds a result.
pub record Ensures {ℓ κ μ} {A : Type ℓ} {E : Type κ} (P : A → Type μ) (m : Result A E)
    : Type (ℓ ⊔ κ ⊔ μ) where
  pub at : (a : A) → m ≡ ok a → P a

module _ {ℓ κ μ ν} {A : Type ℓ} {B : Type κ} {E : Type μ} {P : B → Type ν} where
  pub Ensures-bind :
      (m : Result A E) (f : A → Result B E)
      → ((a : A) → m ≡ ok a → Ensures P (f a))
      → Ensures P (m >>= f)
  Ensures-bind (ok a) f h = h a refl
  Ensures-bind (err e) f h = record { at = λ b q. cc }

  pub Ensures-ok_or :
      (o : Option A) (e : E) (f : A → Result B E)
      → ((a : A) → o ≡ some a → Ensures P (f a))
      → Ensures P (ok_or o e >>= f)
  Ensures-ok_or none e f h = record { at = λ b q. cc }
  Ensures-ok_or (some a) e f h = h a refl

module _ {ℓ κ μ} {A : Type ℓ} {E : Type κ} {P : A → Type μ} where
  pub Ensures-guard :
      (b : Bool) (e : E) (m : Result A E) → (b ≡ true → Ensures P m) → Ensures P (guard b e >> m)
  Ensures-guard true e m h = h refl
  Ensures-guard false e m h = record { at = λ a q. cc }

  pub Ensures-reject_if :
      (b : Bool) (e : E) (m : Result A E)
      → (b ≡ false → Ensures P m)
      → Ensures P (reject_if b e >> m)
  Ensures-reject_if true e m h = record { at = λ a q. cc }
  Ensures-reject_if false e m h = h refl

  pub Ensures-if :
      (b : Bool) (m n : Result A E)
      → (b ≡ true → Ensures P m)
      → (b ≡ false → Ensures P n)
      → Ensures P (if b then m else n)
  Ensures-if true m n h k = h refl
  Ensures-if false m n h k = k refl

  pub Ensures-map_err {ν} :
      {F : Type ν} (f : E → F) (m : Result A E) → Ensures P m → Ensures P (map_err f m)
  Ensures-map_err f (ok a) h = record { at = λ b q. h.at b (cc) }
  Ensures-map_err f (err e) h = record { at = λ b q. cc }

  pub Ensures-ok : (m : Result A E) (a : A) → m ≡ ok a → P a → Ensures P m
  Ensures-ok m a e h = record { at = λ b q. subst P (ok-injective (sym e ∙ q)) h }

  pub Ensures-then {ν ξ} :
      {B : Type ν} {F : Type ξ} (g : B → A) (f : F → E) (m : Result B F)
      → Ensures (λ b. P (g b)) m
      → Ensures P (map_err f m >>= λ b. ok (g b))
  Ensures-then g f (ok b) h = record { at = λ a q. subst P (ok-injective q) (h.at b refl) }
  Ensures-then g f (err e) h = record { at = λ a q. cc }
