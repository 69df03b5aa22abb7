-- ===== src/Delivery/Keeps.antt =====
-- What an action keeps, whether it returns, raises or is cut off by a crash at any effect.
use ai_agent_workflow.Prelude.{
  ℕ, zero, suc, ◌≡◌, refl, Bool, true, false, Option, none, some, if◌then◌else◌, subst,
}
use ai_agent_workflow.Delivery.Files.{
  Error, World, Exec, Outcome, done, raised, crashed, pure, raise, gets, spend, effect, ◌>>=◌,
  continue,
}

pub record Keeps {J A : Type 0} (P : World J → Type 0) (m : Exec J A) : Type 0 where
  pub at : (w : World J) → P w → P (m w).1

module _ {J A : Type 0} {P : World J → Type 0} where
  pub Keeps-if :
      (b : Bool) (m n : Exec J A)
      → (b ≡ true → Keeps P m)
      → (b ≡ false → Keeps P n)
      → Keeps P (if b then m else n)
  Keeps-if false m n km kn = kn refl
  Keeps-if true m n km kn = km refl

  pub Keeps-gets : (f : World J → A) → Keeps P (gets f)
  unfolding gets
  Keeps-gets f = record { at = λ w h. h }

  pub Keeps-pure : (a : A) → Keeps P (pure a)
  unfolding pure
  Keeps-pure a = record { at = λ w h. h }

  pub Keeps-raise : (e : Error) → Keeps P (raise {A = A} e)
  unfolding raise
  Keeps-raise e = record { at = λ w h. h }

module _ {J : Type 0} {P : World J → Type 0} where
  -- An effect that keeps P whatever steps are left.
  pub Keeps-effect :
      (f : World J → World J)
      → ((w : World J) (steps : Option ℕ) → P w → P (f (record w { steps_left = steps })))
      → Keeps P (effect f)
  unfolding spend
  Keeps-effect f keep = record { at = λ w h. unfold effect in by_steps w.steps_left w h }
    where
      by_steps : (steps : Option ℕ) (w : World J) → P w → P (spend steps f w).1
      by_steps none w h = keep w w.steps_left h
      by_steps (some zero) w h = h
      by_steps (some (suc n)) w h = keep w (some n) h

module _ {J A B : Type 0} {P : World J → Type 0} where
  pub Keeps-bind :
      (m : Exec J A) (f : A → Exec J B) → Keeps P m → ((a : A) → Keeps P (f a)) → Keeps P (m >>= f)
  Keeps-bind m f km kf = record {
    at = λ w h. unfold ◌>>=◌ in by_outcome (m w).0 (m w).1 (km.at w h);
  }
    where
      by_outcome : (o : Outcome A) (w : World J) → P w → P (continue o f w).1
      by_outcome (done a) w h = (kf a).at w h
      by_outcome (raised e) w h = h
      by_outcome crashed w h = h

  pub Keeps-pure-bind : (a : A) (f : A → Exec J B) → Keeps P (f a) → Keeps P (pure a >>= f)
  Keeps-pure-bind a f k = record { at = λ w h. unfold ◌>>=◌ pure in k.at w h }

-- What an action returns, when it returns.
pub record Gives {J A : Type 0} (Q : A → Type 0) (m : Exec J A) : Type 0 where
  pub at : (w : World J) (a : A) → (m w).0 ≡ done a → Q a

pub Gives-pure : {J A : Type 0} {Q : A → Type 0} (a : A) → Q a → Gives {J = J} Q (pure a)
unfolding pure
Gives-pure {A} {Q} a q = record { at = λ w b e. let same : a ≡ b = cc e in subst Q same q }

module _ {J A B : Type 0} where
  pub Gives-bind :
      {Q : B → Type 0} (m : Exec J A) (f : A → Exec J B)
      → ((a : A) → Gives Q (f a))
      → Gives Q (m >>= f)
  Gives-bind {Q} m f gf = record { at = λ w b e. by_outcome (m w).0 (m w).1 b (unfold ◌>>=◌ in e) }
    where
      by_outcome : (o : Outcome A) (w : World J) (b : B) → (continue o f w).0 ≡ done b → Q b
      by_outcome (done a) w b e = (gf a).at w b e
      by_outcome (raised x) w b e = cc
      by_outcome crashed w b e = cc

  pub Keeps-bind-Gives :
      {P : World J → Type 0} {Q : A → Type 0} (m : Exec J A) (f : A → Exec J B)
      → Gives Q m
      → Keeps P m
      → ((a : A) → Q a → Keeps P (f a))
      → Keeps P (m >>= f)
  Keeps-bind-Gives {P} {Q} m f g km kf = record {
    at = λ w h. unfold ◌>>=◌ in by_outcome (m w).0 (m w).1 (km.at w h) (g.at w);
  }
    where
      by_outcome :
          (o : Outcome A) (w : World J) → P w → ((a : A) → o ≡ done a → Q a) → P (continue o f w).1
      by_outcome (done a) w h q = (kf a (q a refl)).at w h
      by_outcome (raised e) w h q = h
      by_outcome crashed w h q = h
