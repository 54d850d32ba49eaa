-- ===== src/Prelude/Outcome.antt =====
-- Rust's `Result` over an error type, its `?` operator, and the conversions into it.
use mathlib.Core.Path.{◌≡◌, refl, ap, ◌∙◌}
use mathlib.Core.Logic.{◌⊎◌, inl, inr}
use mathlib.Core.Option.{Option, none, some}
use mathlib.Core.Bool.{Bool, true, false, not}

pub data Result {ℓ} (E A : Type ℓ) : Type ℓ where
  ok : A → Result E A
  err : E → Result E A

-- `option.ok_or(e)`.
abbrev pub ok_or {ℓ} : {E A : Type ℓ} → Option A → E → Result E A
ok_or none e = err e
ok_or (some a) e = ok a

-- The `?` operator: an error returns at once, the rest runs on a success.
infixl 5 ◌>>=◌
abbrev pub ◌>>=◌ {ℓ} : {E A B : Type ℓ} → Result E A → (A → Result E B) → Result E B
err why >>= rest = err why
ok done >>= rest = rest done

-- `result.map_err(|_| e)`.
abbrev pub map_err {ℓ} : {D E A : Type ℓ} → Result D A → E → Result E A
map_err (ok a) e = ok a
map_err (err d) e = err e

-- `if !test { return Err(why) }`.
abbrev pub guard : {E : Type 0} → Bool → E → Result E (Unit {0})
guard false why = err why
guard true why = ok tt

infixl 5 ◌>>◌
abbrev pub ◌>>◌ {ℓ} : {E A B : Type ℓ} → Result E A → Result E B → Result E B
first >> rest = first >>= λ done. rest

-- `result.is_ok()`.
abbrev pub is_ok {ℓ} : {E A : Type ℓ} → Result E A → Bool
is_ok (ok a) = true
is_ok (err e) = false

-- Inversion of a successful bind.
pub >>=-eq-ok {ℓ} :
    {E A B : Type ℓ} (first : Result E A) (rest : A → Result E B) {result : B}
    → (first >>= rest) ≡ ok result
    → (done : A) × (first ≡ ok done) × (rest done ≡ ok result)
>>=-eq-ok (err why) rest h = cc
>>=-eq-ok (ok done) rest h = (done, refl, h)

pub ok-injective {ℓ} : {E A : Type ℓ} {x y : A} → ◌≡◌ {A = Result E A} (ok x) (ok y) → x ≡ y
ok-injective e = cc e

pub map_err-eq-ok {ℓ} :
    {D E A : Type ℓ} (m : Result D A) (e : E) {a : A} → map_err m e ≡ ok a → m ≡ ok a
map_err-eq-ok (ok a) e h = cc
map_err-eq-ok (err d) e h = cc

pub ok_or-eq-ok {ℓ} : {E A : Type ℓ} (o : Option A) (e : E) {a : A} → ok_or o e ≡ ok a → o ≡ some a
ok_or-eq-ok (some a) e h = cc
ok_or-eq-ok none e h = cc

pub guard-eq-ok : {E : Type 0} (b : Bool) (e : E) {u : Unit {0}} → guard b e ≡ ok u → b ≡ true
guard-eq-ok true e h = refl
guard-eq-ok false e h = cc

pub Result-cases {ℓ} :
    {E A : Type ℓ} (r : Result E A) → ((a : A) × (r ≡ ok a)) ⊎ ((e : E) × (r ≡ err e))
Result-cases (ok a) = inl (a, refl)
Result-cases (err e) = inr (e, refl)

-- Inversion of three steps and a result.
pub three_steps-eq-ok {ℓ} :
    {E A B C D : Type ℓ} (a : Result E A) (b : Result E B) (d : Result E C) (f : A → B → C → D)
    {r : D}
    → (a >>= λ x. b >>= λ y. d >>= λ z. ok (f x y z)) ≡ ok r
    → (x : A) × (y : B) × (z : C) × (a ≡ ok x) × (b ≡ ok y) × (d ≡ ok z) × (f x y z ≡ r)
three_steps-eq-ok (ok x) (ok y) (ok z) f h = (x, y, z, refl, refl, refl, cc h)
three_steps-eq-ok (err e) b d f h = cc
three_steps-eq-ok (ok x) (err e) d f h = cc
three_steps-eq-ok (ok x) (ok y) (err e) f h = cc

pub not-eq-true : (b : Bool) → not b ≡ true → b ≡ false
not-eq-true true h = cc
not-eq-true false h = refl

pub none≢some {ℓ} : {A : Type ℓ} {x : A} → none ≡ some x → ⊥
none≢some e = cc

pub err≢ok : {E A : Type 0} {why : E} {x : A} → ◌≡◌ {A = Result E A} (err why) (ok x) → ⊥
err≢ok e = cc

-- A step that succeeds, before one that does.
pub >>=-total {ℓ} :
    {E A B : Type ℓ} (m : Result E A) (f : A → Result E B) {x : A}
    → m ≡ ok x
    → (r : B) × (f x ≡ ok r)
    → (r : B) × (m >>= f ≡ ok r)
>>=-total (ok x) f e (r, h) = (r, ap f (cc e) ∙ h)
>>=-total (err why) f e (r, h) = cc

-- `result.map_err(wrap)`.
abbrev pub map_err_with {ℓ} : {D E A : Type ℓ} → (D → E) → Result D A → Result E A
map_err_with wrap (ok a) = ok a
map_err_with wrap (err d) = err (wrap d)

pub map_err_with-eq-ok {ℓ} :
    {D E A : Type ℓ} (wrap : D → E) (m : Result D A) {a : A} → map_err_with wrap m ≡ ok a → m ≡ ok a
map_err_with-eq-ok wrap (ok a) h = cc h
map_err_with-eq-ok wrap (err d) h = cc

pub >>=-ok {ℓ} :
    {E A B : Type ℓ} (m : Result E A) (f : A → Result E B) {x : A} → m ≡ ok x → m >>= f ≡ f x
>>=-ok (ok x) f e = ap f (cc e)
>>=-ok (err why) f e = cc
