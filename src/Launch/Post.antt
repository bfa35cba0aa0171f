-- ===== src/Launch/Post.antt =====
-- What holds of the result of a step, and of a step after another.
use docker_port_forward.Docker.{DockerError, wrap, M, Error, ◌>>=◌}
use docker_port_forward.Common.{refl, ◌≡◌, Option, none, some, Result, ok, err}

-- An error is not spoken of.
abbrev pub IfDone : {W A : Type 0} → (A → W → Type 0) → Result Error A × W → Type 0
IfDone Q (ok a, w) = Q a w
IfDone Q (err _, w) = Unit

-- There is a value, so the fuel was enough.
abbrev pub Given : {W A : Type 0} → (A → W → Type 0) → Option A → W → Type 0
Given Q none w = ⊥
Given Q (some a) w = Q a w

module _ {W A B : Type 0} (P : A → W → Type 0) (Q : B → W → Type 0) (k : A → M W B) where
  continued :
      (r : Result Error A) (w : W)
      → IfDone P (r, w)
      → ((a : A) (w' : W) → P a w' → IfDone Q (k a w'))
      → IfDone Q (elim r as (λ _. Result Error B × W) [ ok a ↦ k a w | err e ↦ (err e, w) ])
  continued (ok a) w p next = next a w p
  continued (err e) w p next = tt

  pub then-IfDone :
      (m : M W A) (w : W)
      → IfDone P (m w)
      → ((a : A) (w' : W) → P a w' → IfDone Q (k a w'))
      → IfDone Q ((m >>= k) w)
  then-IfDone m w p next = continued (m w).0 (m w).1 p next

pub any_done : {W A : Type 0} (r : Result Error A × W) → IfDone (λ (a : A) (w : W). Unit {0}) r
any_done (ok a, w) = tt
any_done (err _, w) = tt

wrapped :
    {W A : Type 0} (P : A → W → Type 0) (f : DockerError → Error) (w : W) (r : Result DockerError A)
    → ((a : A) → r ≡ ok a → P a w)
    → IfDone P (elim r as (λ _. Result Error A × W) [ ok a ↦ (ok a, w) | err e ↦ (err (f e), w) ])
wrapped P f w (ok a) p = p a refl
wrapped P f w (err e) p = tt

pub wrap-IfDone :
    {W A : Type 0} (P : A → W → Type 0) (f : DockerError → Error)
    (call : W → Result DockerError A × W) (w : W)
    → ((a : A) → (call w).0 ≡ ok a → P a (call w).1)
    → IfDone P (wrap f call w)
wrap-IfDone P f call w p = wrapped P f (call w).1 (call w).0 p

-- A step that succeeds goes on with its value.
pub then-eq :
    {W A B : Type 0} (m : M W A) (k : A → M W B) (w w' : W) (a : A)
    → m w ≡ (ok a, w')
    → (m >>= k) w ≡ k a w'
then-eq m k w w' a e = rw (◌>>=◌, e, e) refl

returned :
    {W A : Type 0} (Q : A → Type 0) (r : Result Error A × W)
    → ((a : A) → r.0 ≡ ok a → Q a)
    → IfDone (λ a w. Q a) r
returned Q (ok a, w) q = q a refl
returned Q (err _, w) q = tt

-- The value is one that the step returned in some state.
pub as_returned :
    {W A : Type 0} (m : M W A) (w : W) → IfDone (λ a w'. (v : W) × ((m v).0 ≡ ok a)) (m w)
as_returned {W} m w = returned (λ a. (v : W) × ((m v).0 ≡ ok a)) (m w) (λ a e. (w, e))
