-- ===== src/Engine/Keeps.antt =====
-- Methods that keep a property of the state, whatever they answer.
use h_openconnect.Base.{◌≡◌, refl, sym, Bool, true, false, if◌then◌else◌}
use mathlib.Core.Path.{subst}
use h_openconnect.Engine.State.{
  EngineError, guard, Inner, SessionEngine, Env, CoreResult, ok, err, EngineError, Action, continue,
  ◌>>=◌, guard,
}
use h_openconnect.Engine.Publish.{persist_platform, advance_revision}
use h_openconnect.Engine.Publish.Frames.{persist-inner}

-- The property holds of the state that a call leaves.
pub record After (P : Inner → Type 0) {A : Type 0} (r : CoreResult A × SessionEngine) : Type 0 where
  pub holds : P r.1.inner

module _ (P : Inner → Type 0) where
  abbrev pub Keeps : {A : Type 0} → Action A → Type 0
  Keeps m = (e : SessionEngine) → P e.inner → After P (m e)

  continue-Keeps :
      {A B : Type 0} (r : CoreResult A × SessionEngine) (f : A → Action B)
      → After P r
      → ((a : A) → Keeps (f a))
      → After P (continue r f)
  continue-Keeps (ok a, e) f p k = k a e p.holds
  continue-Keeps (err x, e) f p k = record { holds = p.holds }

  pub bind-Keeps :
      {A B : Type 0} (m : Action A) (f : A → Action B)
      → Keeps m
      → ((a : A) → Keeps (f a))
      → Keeps (m >>= f)
  unfolding ◌>>=◌
  bind-Keeps m f k l e p = continue-Keeps (m e) f (k e p) l

  -- A call that leaves the engine as it is.
  pub same-Keeps : {A : Type 0} (r : CoreResult A) (e : SessionEngine) → P e.inner → After P (r, e)
  same-Keeps r e p = record { holds = p }

  -- A test of the state, with what it says of it.
  pub test-Keeps :
      {A : Type 0} (b : Bool) {r s : CoreResult A × SessionEngine}
      → (b ≡ true → After P r)
      → (b ≡ false → After P s)
      → After P (if b then r else s)
  test-Keeps true k l = k refl
  test-Keeps false k l = l refl

  pub persist-Keeps :
      (env : Env) → ((i : Inner) → P i → P (advance_revision env i)) → Keeps (persist_platform env)
  persist-Keeps env h e p = record { holds = subst P (sym (persist-inner env e)) (h e.inner p) }

  pub guard-Keeps : (b : Bool) (x : EngineError) → Keeps (guard b x)
  guard-Keeps true x e p = record { holds = p }
  guard-Keeps false x e p = record { holds = p }

  pub if-Keeps :
      {A : Type 0} (b : Bool) (m n : Action A) → Keeps m → Keeps n → Keeps (if b then m else n)
  if-Keeps true m n k l = k
  if-Keeps false m n k l = l
