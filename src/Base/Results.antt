-- ===== src/Base/Results.antt =====
-- Rust's `Result`, and the helpers by which the source reads an `Option` as one.
use mathlib.Core.Path.{◌≡◌, refl, ap}
use mathlib.Core.Logic.{◌⊎◌, inl, inr}
use mathlib.Core.Bool.{Bool, true, false}
use mathlib.Core.Option.{Option, none, some}
use slope.Base.Tests.{if◌then◌else◌}

pub data Result {ℓ κ} (E : Type ℓ) (A : Type κ) : Type (ℓ ⊔ κ) where
  ok : A → Result E A
  err : E → Result E A

-- The `?` operator.
infixl 5 ◌>>=◌ ◌>>◌
abbrev pub ◌>>=◌ {α β γ} :
    {Fault : Type α} {X : Type β} {Y : Type γ}
    → Result Fault X
    → (X → Result Fault Y)
    → Result Fault Y
err fault >>= next = err fault
ok x >>= next = next x

abbrev pub ◌>>◌ {α γ} :
    {Fault : Type α} {Y : Type γ} → Result Fault (Unit {0}) → Result Fault Y → Result Fault Y
first >> second = first >>= λ _. second

abbrev pub ok_or {ℓ κ} : {E : Type ℓ} {A : Type κ} → Option A → E → Result E A
ok_or none e = err e
ok_or (some a) e = ok a

abbrev pub map_err {ℓ κ μ} :
    {E : Type ℓ} {F : Type κ} {A : Type μ} → (E → F) → Result E A → Result F A
map_err f (ok a) = ok a
map_err f (err e) = err (f e)

abbrev pub is_ok {ℓ κ} : {E : Type ℓ} {A : Type κ} → Result E A → Bool
is_ok (ok a) = true
is_ok (err e) = false

pub Result-cases {ℓ κ} :
    {E : Type ℓ} {A : Type κ} (r : Result E A) → ((a : A) × (r ≡ ok a)) ⊎ ((e : E) × (r ≡ err e))
Result-cases (ok a) = inl (a, refl)
Result-cases (err e) = inr (e, refl)

pub ok-injective {ℓ κ} :
    {E : Type ℓ} {A : Type κ} {a b : A} → ◌≡◌ {A = Result E A} (ok a) (ok b) → a ≡ b
ok-injective h = cc

-- What a chain that ended well went through.
pub bind_ok {α β γ} :
    {Fault : Type α} {X : Type β} {Y : Type γ} (r : Result Fault X) (next : X → Result Fault Y)
    (y : Y)
    → (r >>= next) ≡ ok y
    → (x : X) × (r ≡ ok x) × (next x ≡ ok y)
bind_ok (ok x) next y h = (x, refl, h)
bind_ok (err e) next y h = absurd (cc)

pub guard_ok {α β} :
    {Fault : Type α} {X : Type β} (b : Bool) (e : Fault) (r : Result Fault X) (x : X)
    → (if b then err e else r) ≡ ok x
    → (b ≡ false) × (r ≡ ok x)
guard_ok true e r x h = absurd (cc)
guard_ok false e r x h = (refl, h)

pub guard_pass {α β} :
    {Fault : Type α} {X : Type β} (b : Bool) (e : Fault) (r : Result Fault X)
    → b ≡ false
    → (if b then err e else r) ≡ r
guard_pass true e r h = absurd (cc)
guard_pass false e r h = refl

pub map_err_ok {α β γ} :
    {Fault : Type α} {Other : Type β} {X : Type γ} (f : Fault → Other) (r : Result Fault X) (x : X)
    → map_err f r ≡ ok x
    → r ≡ ok x
map_err_ok f (ok y) x h = ap ok (ok-injective h)
map_err_ok f (err e) x h = absurd (cc)
