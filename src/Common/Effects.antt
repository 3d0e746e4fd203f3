-- ===== src/Common/Effects.antt =====
-- Python code that calls out and may raise: a state is passed on, and what was done before an
-- exception stays done. `raised e` carries the exception.
use Prim.Native.String.{String}
use mathlib.Core.Path.{◌≡◌, refl, ap}
use mathlib.Core.Logic.{◌⊎◌, inl, inr}
use mathlib.Core.Bool.{Bool, true, false}

pub data ErrorKind : Type 0 where
  sql_error key_error value_error other_error : ErrorKind

-- An exception: its class, as far as the code tells classes apart, and its text.
pub record Failure : Type 0 where
  pub kind : ErrorKind
  pub text : String

pub data Outcome (A : Type 0) : Type 0 where
  ok : A → Outcome A
  raised : Failure → Outcome A

abbrev pub Act : Type 0 → Type 0 → Type 0
Act W A = W → Outcome A × W

module _ {W : Type 0} where
  abbrev pub pure : {A : Type 0} → A → Act W A
  pure a w = (ok a, w)

  -- `raise exc`
  abbrev pub throw : {A : Type 0} → Failure → Act W A
  throw exc w = (raised exc, w)

  -- A result that needs nothing of the world.
  abbrev pub lift : {A : Type 0} → Outcome A → Act W A
  lift r w = (r, w)

  infixl 5 ◌>>=◌ ◌>>◌
  abbrev pub ◌>>=◌ : {A B : Type 0} → Act W A → (A → Act W B) → Act W B
  ◌>>=◌ m f w = let (r, w') = m w in elim r [ ok a ↦ f a w' | raised e ↦ (raised e, w') ]

  abbrev pub ◌>>◌ : {A B : Type 0} → Act W A → Act W B → Act W B
  m >> k = m >>= λ _. k

  -- `try: m` / `except Exception as exc: handler(exc)`
  abbrev pub catch : {A : Type 0} → Act W A → (Failure → Act W A) → Act W A
  catch m handler w = let (r, w') = m w in elim r [ ok a ↦ (ok a, w') | raised e ↦ handler e w' ]

pub Outcome-cases :
    {A : Type 0} (r : Outcome A) → ((a : A) × (r ≡ ok a)) ⊎ ((e : Failure) × (r ≡ raised e))
Outcome-cases (ok a) = inl (a, refl)
Outcome-cases (raised e) = inr (e, refl)

-- What goes on after a value.
pub bind-ok :
    {W A B : Type 0} (m : Act W A) (f : A → Act W B) (w : W) (a : A) (w' : W)
    → m w ≡ (ok a, w')
    → (m >>= f) w ≡ f a w'
bind-ok {W} {A} {B} m f w a w' =
    ap (λ r. elim r.0 as (λ _. Outcome B × W) [ ok x ↦ f x r.1 | raised e ↦ (raised e, r.1) ])

-- A run ends with a value that has the property, in the state that it leaves; it does not raise.
abbrev pub Ensures : {W A : Type 0} → (A → W → Type 0) → Outcome A × W → Type 0
Ensures Q (ok a, w) = Q a w
Ensures Q (raised e, w) = ⊥

pub Ensures-weaken :
    {W A : Type 0} (P Q : A → W → Type 0) (r : Outcome A × W)
    → ((a : A) (w : W) → P a w → Q a w)
    → Ensures P r
    → Ensures Q r
Ensures-weaken P Q (ok a, w) step h = step a w h
Ensures-weaken P Q (raised e, w) step h = absurd h

pub Ensures-bind :
    {W A B : Type 0} (P : A → W → Type 0) (Q : B → W → Type 0) (m : Act W A) (f : A → Act W B)
    (w : W)
    → Ensures P (m w)
    → ((a : A) (w' : W) → P a w' → Ensures Q (f a w'))
    → Ensures Q ((m >>= f) w)
Ensures-bind {W} {A} P Q m f w h k = go (m w) h
  where
    go :
        (r : Outcome A × W)
        → Ensures P r
        → Ensures Q (let (x, w') = r in elim x [ ok a ↦ f a w' | raised e ↦ (raised e, w') ])
    go (ok a, w') h' = k a w' h'
    go (raised e, w') h' = absurd h'

-- The same for an exception: what holds of a value, and what holds of the exception's text.
abbrev pub After :
    {W A : Type 0} → (A → W → Type 0) → (Failure → W → Type 0) → Outcome A × W → Type 0
After P E (ok a, w) = P a w
After P E (raised e, w) = E e w

pub Ensures-catch :
    {W A : Type 0} (P Q : A → W → Type 0) (E : Failure → W → Type 0) (m : Act W A)
    (handler : Failure → Act W A) (w : W)
    → After P E (m w)
    → ((a : A) (w' : W) → P a w' → Q a w')
    → ((e : Failure) (w' : W) → E e w' → Ensures Q (handler e w'))
    → Ensures Q (catch m handler w)
Ensures-catch {W} {A} P Q E m handler w h k l = go (m w) h
  where
    go :
        (r : Outcome A × W)
        → After P E r
        → Ensures Q (let (x, w') = r in elim x [ ok a ↦ (ok a, w') | raised e ↦ handler e w' ])
    go (ok a, w') h' = k a w' h'
    go (raised e, w') h' = l e w' h'

pub After-weaken :
    {W A : Type 0} (P Q : A → W → Type 0) (D E : Failure → W → Type 0) (r : Outcome A × W)
    → ((a : A) (w : W) → P a w → Q a w)
    → ((e : Failure) (w : W) → D e w → E e w)
    → After P D r
    → After Q E r
After-weaken P Q D E (ok a, w) f g h = f a w h
After-weaken P Q D E (raised e, w) f g h = g e w h

pub After-map :
    {W A B : Type 0} (P : A → W → Type 0) (Q : B → W → Type 0) (E : Failure → W → Type 0)
    (m : Act W A) (f : A → B) (w : W)
    → After P E (m w)
    → ((a : A) (w' : W) → P a w' → Q (f a) w')
    → After Q E ((m >>= λ a. pure (f a)) w)
After-map {W} {A} P Q E m f w h k = go (m w) h
  where
    go :
        (r : Outcome A × W)
        → After P E r
        → After Q E
            (let (x, w') = r in elim x [ ok a ↦ (ok (f a), w') | raised e ↦ (raised e, w') ])
    go (ok a, w') h' = k a w' h'
    go (raised e, w') h' = h'

pub After-bind :
    {W A B : Type 0} (P : A → W → Type 0) (Q : B → W → Type 0) (E : Failure → W → Type 0)
    (m : Act W A) (f : A → Act W B) (w : W)
    → After P E (m w)
    → ((a : A) (w' : W) → P a w' → After Q E (f a w'))
    → After Q E ((m >>= f) w)
After-bind {W} {A} P Q E m f w h k = go (m w) h
  where
    go :
        (r : Outcome A × W)
        → After P E r
        → After Q E (let (x, w') = r in elim x [ ok a ↦ f a w' | raised e ↦ (raised e, w') ])
    go (ok a, w') h' = k a w' h'
    go (raised e, w') h' = h'

pub After-catch :
    {W A : Type 0} (P Q : A → W → Type 0) (D E : Failure → W → Type 0) (m : Act W A)
    (handler : Failure → Act W A) (w : W)
    → After P D (m w)
    → ((a : A) (w' : W) → P a w' → Q a w')
    → ((e : Failure) (w' : W) → D e w' → After Q E (handler e w'))
    → After Q E (catch m handler w)
After-catch {W} {A} P Q D E m handler w h k l = go (m w) h
  where
    go :
        (r : Outcome A × W)
        → After P D r
        → After Q E (let (x, w') = r in elim x [ ok a ↦ (ok a, w') | raised e ↦ handler e w' ])
    go (ok a, w') h' = k a w' h'
    go (raised e, w') h' = l e w' h'

-- The same without a state.
abbrev pub and_then : {A B : Type 0} → Outcome A → (A → Outcome B) → Outcome B
and_then (ok a) f = f a
and_then (raised e) f = raised e

abbrev pub raise_if : Bool → ErrorKind → String → Outcome (Unit {0})
raise_if true kind text = raised (record { kind = kind; text = text })
raise_if false kind text = ok tt

-- A result that one continuation gives is given by another that agrees with it.
pub and_then-agrees :
    {A B : Type 0} (r : Outcome A) (f g : A → Outcome B) (b : B)
    → ((a : A) → f a ≡ ok b → g a ≡ ok b)
    → and_then r f ≡ ok b
    → and_then r g ≡ ok b
and_then-agrees (ok a) f g b agree h = agree a h
and_then-agrees (raised e) f g b agree h = h
