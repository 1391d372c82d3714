-- ===== src/Exec/Run/Holds.antt =====
-- Results with a property of the value that they may have.
use ska_mpi.Prelude.{◌≡◌, ap, subst, Bool, true, false, Option, none, some}
use ska_mpi.Exec.{Fault, Result, ok, err, ◌>>=◌}

-- A result that is a value has the property.
pub data Holds {A : Type 0} (P : A → Type 0) : Result A → Type 0 where
  holds : {a : A} → P a → Holds P (ok a)
  fails : {e : Fault} → Holds P (err e)

ok_inj : {A : Type 0} {a b : A} → ok a ≡ ok b → a ≡ b
ok_inj {a = a} e = ap (λ r. elim r [ ok x ↦ x | err _ ↦ a ]) e

pub bind-Holds :
    {A B : Type 0} {P : A → Type 0} {Q : B → Type 0} {r : Result A} (k : A → Result B)
    → Holds P r
    → ((a : A) → P a → Holds Q (k a))
    → Holds Q (r >>= k)
bind-Holds k (holds p) f = f _ p
bind-Holds k fails f = fails

-- Where nothing is known of the first value.
pub any_bind :
    {A B : Type 0} {Q : B → Type 0} (r : Result A) (k : A → Result B)
    → ((a : A) → Holds Q (k a))
    → Holds Q (r >>= k)
any_bind (ok a) k f = f a
any_bind (err e) k f = fails

pub bool_case :
    {A : Type 0} {P : A → Type 0} (b : Bool) {x y : Result A}
    → Holds P x
    → Holds P y
    → Holds P (elim b [ true ↦ x | false ↦ y ])
bool_case true hx hy = hx
bool_case false hx hy = hy

pub bool_back :
    {A : Type 0} {P : A → Type 0} (b : Bool) {x y : Result A}
    → Holds P x
    → Holds P y
    → Holds P (elim b [ false ↦ x | true ↦ y ])
bool_back true hx hy = hy
bool_back false hx hy = hx

pub option_case :
    {A B : Type 0} {P : A → Type 0} (o : Option B) {x : Result A} {k : B → Result A}
    → Holds P x
    → ((b : B) → Holds P (k b))
    → Holds P (elim o [ none ↦ x | some b ↦ k b ])
option_case none hx hk = hx
option_case (some b) hx hk = hk b

pub holds_ok : {A : Type 0} {P : A → Type 0} {r : Result A} {a : A} → Holds P r → r ≡ ok a → P a
holds_ok {P = P} (holds p) e = subst P (ok_inj e) p
holds_ok fails e = cc
