-- ===== src/Nzb/Ensures.antt =====
-- What holds of a result that is no error, with a rule for each way to build one.
use bergamot.Prelude.{◌≡◌, refl, subst, Bool, true, false, if◌then◌else◌}
use bergamot.Nzb.Model.{NzbError, Parsed, ok, err}
use bergamot.Nzb.Parser.{◌>>=◌}

pub record Ensures {A : Type 0} (P : A → Type 0) (r : Parsed A) : Type 0 where
  pub at : (a : A) → r ≡ ok a → P a

module _ {A : Type 0} {P : A → Type 0} where
  pub Ensures-ok : (a : A) → P a → Ensures P (ok a)
  Ensures-ok a h = record { at = λ b e. let q : a ≡ b = cc in subst P q h }

  pub Ensures-err : (e : NzbError) → Ensures P (err e)
  Ensures-err e = record { at = λ b q. absurd (cc) }

  pub Ensures-if :
      (b : Bool) (x y : Parsed A) → Ensures P x → Ensures P y → Ensures P (if b then x else y)
  Ensures-if true x y h k = h
  Ensures-if false x y h k = k

module _ {A B : Type 0} {P : B → Type 0} where
  pub Ensures-bind :
      (r : Parsed A) (f : A → Parsed B)
      → ((a : A) → r ≡ ok a → Ensures P (f a))
      → Ensures P (r >>= f)
  Ensures-bind (ok a) f h = h a refl
  Ensures-bind (err e) f h = Ensures-err e

pub ruleset ensures = (Ensures-ok, Ensures-err, Ensures-if, Ensures-bind)
