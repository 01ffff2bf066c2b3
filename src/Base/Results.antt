-- ===== src/Base/Results.antt =====
-- What a call of a Go function gives back.
use mathlib.Core.Path.{◌≡◌, refl}
use mathlib.Core.Logic.{◌↔◌}
use mathlib.Core.Bool.{Bool, true, false}
use libfossil.Base.Tests.{if◌then◌else◌}

-- A value, an error of type `E`, a run-time panic, or `stuck`: no Go value, the loop ran out of fuel.
pub data Outcome {ℓ} (E : Type 0) (A : Type ℓ) : Type ℓ where
  ok : A → Outcome E A
  err : E → Outcome E A
  panicked : Outcome E A
  stuck : Outcome E A

-- `v, err := m; if err != nil { return err }`
infixl 5 ◌>>=◌
abbrev pub ◌>>=◌ {ℓ κ} :
    {E : Type 0} {A : Type ℓ} {B : Type κ} → Outcome E A → (A → Outcome E B) → Outcome E B
ok a >>= f = f a
err e >>= f = err e
panicked >>= f = panicked
stuck >>= f = stuck

-- The call returns or fails, with neither a panic nor an endless loop, and a value has property `P`.
abbrev pub Returns {ℓ} : {E : Type 0} {A : Type ℓ} → (A → Type 0) → Outcome E A → Type 0
Returns P (ok a) = P a
Returns P (err e) = Unit
Returns P panicked = ⊥
Returns P stuck = ⊥

pub Returns->>= {ℓ κ} :
    {E : Type 0} {A : Type ℓ} {B : Type κ} (P : A → Type 0) (Q : B → Type 0) (m : Outcome E A)
    (f : A → Outcome E B)
    → Returns P m
    → ((a : A) → P a → Returns Q (f a))
    → Returns Q (m >>= f)
Returns->>= P Q (ok a) f r k = k a r
Returns->>= P Q (err e) f r k = tt
Returns->>= P Q panicked f r k = r
Returns->>= P Q stuck f r k = r

pub Returns-mono {ℓ} :
    {E : Type 0} {A : Type ℓ} (P Q : A → Type 0) (m : Outcome E A)
    → ((a : A) → P a → Q a)
    → Returns P m
    → Returns Q m
Returns-mono P Q (ok a) k r = k a r
Returns-mono P Q (err e) k r = tt
Returns-mono P Q panicked k r = r
Returns-mono P Q stuck k r = r

-- A branch: both sides have the property.
pub Returns-if {ℓ} :
    {E : Type 0} {A : Type ℓ} (P : A → Type 0) (b : Bool) (m m' : Outcome E A)
    → Returns P m
    → Returns P m'
    → Returns P (if b then m else m')
Returns-if P true m m' h h' = h
Returns-if P false m m' h h' = h'

-- The rule for a bind, where the rest also needs to know what the call returned.
pub Returns->>=_eq {ℓ κ} :
    {E : Type 0} {A : Type ℓ} {B : Type κ} (P : A → Type 0) (Q : B → Type 0) (m : Outcome E A)
    (f : A → Outcome E B)
    → Returns P m
    → ((a : A) → m ≡ ok a → P a → Returns Q (f a))
    → Returns Q (m >>= f)
Returns->>=_eq P Q (ok a) f r k = k a refl r
Returns->>=_eq P Q (err e) f r k = tt
Returns->>=_eq P Q panicked f r k = r
Returns->>=_eq P Q stuck f r k = r

-- The call comes to an end, by a panic perhaps, and a value has property `P`.
abbrev pub Ends {ℓ} : {E : Type 0} {A : Type ℓ} → (A → Type 0) → Outcome E A → Type 0
Ends P (ok a) = P a
Ends P (err e) = Unit
Ends P panicked = Unit
Ends P stuck = ⊥

pub Ends->>= {ℓ κ} :
    {E : Type 0} {A : Type ℓ} {B : Type κ} (P : A → Type 0) (Q : B → Type 0) (m : Outcome E A)
    (f : A → Outcome E B)
    → Ends P m
    → ((a : A) → P a → Ends Q (f a))
    → Ends Q (m >>= f)
Ends->>= P Q (ok a) f r k = k a r
Ends->>= P Q (err e) f r k = tt
Ends->>= P Q panicked f r k = tt
Ends->>= P Q stuck f r k = r

pub Returns-Ends {ℓ} :
    {E : Type 0} {A : Type ℓ} (P : A → Type 0) (m : Outcome E A) → Returns P m → Ends P m
Returns-Ends P (ok a) r = r
Returns-Ends P (err e) r = tt
Returns-Ends P panicked r = absurd r
Returns-Ends P stuck r = r

-- A bind that gives a value has a value in front of it.
pub >>=-ok {ℓ κ} :
    {E : Type 0} {A : Type ℓ} {B : Type κ} (m : Outcome E A) (f : A → Outcome E B) (b : B)
    → m >>= f ≡ ok b
    → (a : A) × (m ≡ ok a) × (f a ≡ ok b)
>>=-ok (ok a) f b h = (a, refl, h)
>>=-ok (err e) f b h = absurd (cc)
>>=-ok panicked f b h = absurd (cc)
>>=-ok stuck f b h = absurd (cc)

pub trans_iff {ℓ κ μ} : {A : Type ℓ} {B : Type κ} {C : Type μ} → (A ↔ B) → (B ↔ C) → A ↔ C
trans_iff f g = (λ a. g.0 (f.0 a), λ c. f.1 (g.1 c))
