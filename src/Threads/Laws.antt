-- ===== src/Threads/Laws.antt =====
-- Running one sequence of operations after another.
use pciedummy_driver.Common.{
  ◌≡◌, refl, sym, ap, ◌∙◌, Option, none, some, Bool, true, false, if◌then◌else◌,
}
use pciedummy_driver.Kernel.{Host, Sys, Run, Cmd, and_then, ok, fault}
use pciedummy_driver.Threads.{Steps, done, perform, ◌>>=◌, act, run}

module _ {M : Type 0} where
  and_then-and_then :
      {A B C : Type 0} (r : Run M A) (f : A → Cmd M B) (g : B → Cmd M C)
      → and_then (and_then r f) g ≡ and_then r (λ a s. and_then (f a s) g)
  and_then-and_then (ok a s) f g = refl
  and_then-and_then (fault e) f g = refl

  pub and_then-cong :
      {A B : Type 0} (r : Run M A) {f g : A → Cmd M B}
      → ((a : A) (s : Sys M) → f a s ≡ g a s)
      → and_then r f ≡ and_then r g
  and_then-cong (ok a s) h = h a s
  and_then-cong (fault e) h = refl

module _ {M : Type 0} ⦃host : Host M⦄ where
  pub run-bind :
      {A B : Type 0} (p : Steps M A) (f : A → Steps M B) (s : Sys M)
      → run (p >>= f) s ≡ and_then (run p s) (λ a. run (f a))
  run-bind (done a) f s = refl
  run-bind (perform o k) f s =
      and_then-cong (act o s) (λ a t. run-bind (k a) f t)
      ∙ sym (and_then-and_then (act o s) (λ a. run (k a)) (λ a. run (f a)))

  pub run-then :
      {A B : Type 0} (p : Steps M A) (c : Cmd M A) (f : A → Steps M B) (f' : A → Cmd M B)
      (s : Sys M)
      → run p s ≡ c s
      → ((a : A) (t : Sys M) → run (f a) t ≡ f' a t)
      → run (p >>= f) s ≡ and_then (c s) f'
  run-then p c f f' s e h =
      run-bind p f s ∙ ap (λ r. and_then r (λ a. run (f a))) e ∙ and_then-cong (c s) h

  pub run-if :
      {A : Type 0} (b : Bool) (p q : Steps M A) (c d : Cmd M A) (s : Sys M)
      → run p s ≡ c s
      → run q s ≡ d s
      → run (if b then p else q) s ≡ (if b then c else d) s
  run-if true p q c d s e e' = e
  run-if false p q c d s e e' = e'

  pub run-option :
      {A B : Type 0} (x : Option B) (p : Steps M A) (q : B → Steps M A) (c : Cmd M A)
      (d : B → Cmd M A) (s : Sys M)
      → run p s ≡ c s
      → ((b : B) → run (q b) s ≡ d b s)
      → run (elim x as (λ x. Steps M A) [ none ↦ p | some b ↦ q b ]) s
        ≡ (elim x as (λ x. Cmd M A) [ none ↦ c | some b ↦ d b ]) s
  run-option none p q c d s e h = e
  run-option (some b) p q c d s e h = h b
