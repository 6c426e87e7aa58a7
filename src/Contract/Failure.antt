-- ===== src/Contract/Failure.antt =====
-- Go errors of the decision packages, and chains of calls that may fail. A message is its text
-- without what `%q` and `%d` put in.
use mathlib.Core.Path.{subst}
use gobeyond.Common.{String, Bool, true, false, not, Option, none, some, ◌≡◌, refl, ◌⊎◌, inl, inr}

pub data Failure : Type 0 where
  invalid_state stale_event too_deep : Failure
  message : String → Failure
  wrapped : String → Failure → Failure

-- A value beside an `error`, one of which is nil.
pub data Result {ℓ} (Value : Type ℓ) : Type ℓ where
  failed : Failure → Result Value
  ok : Value → Result Value

-- An `error` alone.
abbrev pub Check : Type 0
Check = Result (Unit {0})

module _ {ℓ κ} {Value : Type ℓ} {Next : Type κ} where
  infixl 5 ◌>>=◌
  -- The code after `if err != nil { return err }`.
  unfoldable pub ◌>>=◌ : Result Value → (Value → Result Next) → Result Next
  failed why >>= continue = failed why
  ok value >>= continue = continue value

module _ {κ} {Next : Type κ} where
  infixl 5 ◌>>◌
  abbrev pub ◌>>◌ : Check → Result Next → Result Next
  check >> rest = check >>= λ _. rest

-- `if bad { return fmt.Errorf(text) }`
abbrev pub refuse_if : Bool → String → Check
refuse_if true text = failed (message text)
refuse_if false text = ok tt

-- `if err := check; err != nil { return fmt.Errorf(text + ": %w", err) }`
abbrev pub wrap {ℓ} : {A : Type ℓ} → String → Result A → Result A
wrap text (ok a) = ok a
wrap text (failed e) = failed (wrapped text e)

-- `if value == nil { return fmt.Errorf(text) }`, with the value that the pointer points to.
abbrev pub or_refuse {ℓ} : {A : Type ℓ} → Option A → String → Result A
or_refuse none text = failed (message text)
or_refuse (some a) text = ok a

module _ {ℓ κ} {A : Type ℓ} {B : Type κ} where
  pub >>=-eq-ok :
      (r : Result A) (continue : A → Result B) {value : B}
      → (r >>= continue) ≡ ok value
      → (between : A) × (r ≡ ok between) × (continue between ≡ ok value)
  unfolding ◌>>=◌
  >>=-eq-ok (failed why) continue h = cc
  >>=-eq-ok (ok between) continue h = (between, refl, h)

  pub ok->>= :
      (m : Result A) (f : A → Result B) (a : A) {b : B} → m ≡ ok a → f a ≡ ok b → (m >>= f) ≡ ok b
  unfolding ◌>>=◌
  ok->>= m f a e h = rw e h

pub refuse_if-eq-ok : (b : Bool) (text : String) → refuse_if b text ≡ ok tt → b ≡ false
refuse_if-eq-ok true text h = cc
refuse_if-eq-ok false text h = refl

pub refuse_if-not-eq-ok :
    (b : Bool) (text : String) {u : Unit {0}} → refuse_if (not b) text ≡ ok u → b ≡ true
refuse_if-not-eq-ok true text h = refl
refuse_if-not-eq-ok false text h = cc

pub wrap-eq-ok {ℓ} :
    {A : Type ℓ} {a : A} (text : String) (r : Result A) → wrap text r ≡ ok a → r ≡ ok a
wrap-eq-ok text (ok a) h = h
wrap-eq-ok text (failed e) h = cc

pub or_refuse-eq-ok {ℓ} :
    {A : Type ℓ} {a : A} (o : Option A) (text : String) → or_refuse o text ≡ ok a → o ≡ some a
or_refuse-eq-ok none text h = cc
or_refuse-eq-ok (some a) text h = cc

pub Result-cases {ℓ} :
    {A : Type ℓ} (r : Result A) → ((a : A) × (r ≡ ok a)) ⊎ ((e : Failure) × (r ≡ failed e))
Result-cases (ok a) = inl (a, refl)
Result-cases (failed e) = inr (e, refl)

-- A predicate of the value, when there is one.
abbrev pub Holds {ℓ κ} : {A : Type ℓ} → (A → Type κ) → Result A → Type κ
Holds P (ok a) = P a
Holds P (failed e) = Unit

module _ {ℓ κ μ} {A : Type ℓ} {B : Type κ} (P : B → Type μ) where
  pub Holds->>= :
      (m : Result A) (f : A → Result B) → ((a : A) → m ≡ ok a → Holds P (f a)) → Holds P (m >>= f)
  unfolding ◌>>=◌
  Holds->>= (ok a) f h = h a refl
  Holds->>= (failed e) f h = tt

-- A predicate of a match on an option, from both branches.
pub Option_intro {ℓ κ μ} :
    {A : Type ℓ} {B : Type κ} (P : B → Type μ) (o : Option A) {x : B} {f : A → B}
    → (o ≡ none → P x)
    → ((a : A) → o ≡ some a → P (f a))
    → P (elim o [ none ↦ x | some a ↦ f a ])
Option_intro P none p q = p refl
Option_intro P (some a) p q = q a refl

pub ok-Holds {ℓ κ} :
    {A : Type ℓ} (P : A → Type κ) {a : A} (r : Result A) → Holds P r → r ≡ ok a → P a
ok-Holds P r h e = subst (Holds P) e h

pub Holds-map {ℓ κ μ} :
    {A : Type ℓ} (P : A → Type κ) (Q : A → Type μ) (r : Result A)
    → ((a : A) → P a → Q a)
    → Holds P r
    → Holds Q r
Holds-map P Q (ok a) f h = f a h
Holds-map P Q (failed e) f h = tt

pub Holds-same {ℓ κ} :
    {A : Type ℓ} (P : A → Type κ) (r : Result A) → ((a : A) → r ≡ ok a → P a) → Holds P r
Holds-same P (ok a) f = f a refl
Holds-same P (failed e) f = tt
