-- ===== src/Delivery/Ends.antt =====
-- Actions that return, and what holds then of their result and of the world.
use ai_agent_workflow.Prelude.{◌≡◌, refl, Bool, true, false, none, if◌then◌else◌}
use ai_agent_workflow.Delivery.Files.{World, Exec, done, pure, gets, spend, effect, ◌>>=◌}

pub record Ends {J A : Type 0} (Q : A → World J → Type 0) (m : Exec J A) (w : World J)
    : Type 0 where
  pub value : A
  pub world : World J
  pub returns : m w ≡ (done value, world)
  pub holds : Q value world

module _ {J A : Type 0} {Q : A → World J → Type 0} (w : World J) where
  pub Ends-pure : (a : A) → Q a w → Ends Q (pure a) w
  unfolding pure
  Ends-pure a q = record { value = a; world = w; returns = refl; holds = q }

  pub Ends-gets : (f : World J → A) → Q (f w) w → Ends Q (gets f) w
  unfolding gets
  Ends-gets f q = record { value = f w; world = w; returns = refl; holds = q }

  pub Ends-if :
      (b : Bool) (m n : Exec J A)
      → (b ≡ true → Ends Q m w)
      → (b ≡ false → Ends Q n w)
      → Ends Q (if b then m else n) w
  Ends-if true m n em en = em refl
  Ends-if false m n em en = en refl

-- With no crash to come an effect takes place.
pub Ends-effect :
    {J : Type 0} {Q : Unit {0} → World J → Type 0} (w : World J) (f : World J → World J)
    → w.steps_left ≡ none
    → Q tt (f w)
    → Ends Q (effect f) w
unfolding effect spend
Ends-effect w f alive q = record { value = tt; world = f w; returns = rw alive; holds = q }

module _ {J A B : Type 0} {R : A → World J → Type 0} {Q : B → World J → Type 0} (w : World J) where
  pub Ends-bind :
      (m : Exec J A) (f : A → Exec J B)
      → Ends R m w
      → ((a : A) (w' : World J) → R a w' → Ends Q (f a) w')
      → Ends Q (m >>= f) w
  unfolding ◌>>=◌
  Ends-bind m f em ef =
      let next : Ends Q (f em.value) em.world = ef em.value em.world em.holds in
      record {
        value = next.value;
        world = next.world;
        returns = rw em.returns next.returns;
        holds = next.holds;
      }

pub Ends-weaken :
    {J A : Type 0} {R Q : A → World J → Type 0} {m : Exec J A} {w : World J}
    → Ends R m w
    → ((a : A) (w' : World J) → R a w' → Q a w')
    → Ends Q m w
Ends-weaken e f = record {
  value = e.value;
  world = e.world;
  returns = e.returns;
  holds = f e.value e.world e.holds;
}

-- A read returns what it reads, in the same world.
pub Ends-read :
    {J A B : Type 0} {Q : B → World J → Type 0} (w : World J) (g : World J → A) (f : A → Exec J B)
    → Ends Q (f (g w)) w
    → Ends Q (gets g >>= f) w
unfolding ◌>>=◌ gets
Ends-read w g f e = record {
  value = e.value;
  world = e.world;
  returns = e.returns;
  holds = e.holds;
}

pub Ends-pure-bind :
    {J A B : Type 0} {Q : B → World J → Type 0} (w : World J) (a : A) (f : A → Exec J B)
    → Ends Q (f a) w
    → Ends Q (pure a >>= f) w
unfolding ◌>>=◌ pure
Ends-pure-bind w a f e = record {
  value = e.value;
  world = e.world;
  returns = e.returns;
  holds = e.holds;
}

-- What holds at the end, with the run that led to it.
pub Ends-returns :
    {J A : Type 0} {Q : A → World J → Type 0} {m : Exec J A} {w : World J}
    → Ends Q m w
    → Ends (λ a w'. (m w ≡ (done a, w')) × Q a w') m w
Ends-returns e = record {
  value = e.value;
  world = e.world;
  returns = e.returns;
  holds = (e.returns, e.holds);
}
