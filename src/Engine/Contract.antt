-- ===== src/Engine/Contract.antt =====
-- What a method that succeeds has brought about.
pub mod Begun
pub mod Adopted
pub mod Attached
use h_openconnect.Base.{◌≡◌, refl, ap}
use mathlib.Core.Path.{subst}
use h_openconnect.Owner.Record.{Result}
use h_openconnect.Owner.Storage.{Entry}
use h_openconnect.Engine.State.{SessionEngine, CoreResult, ok, err, Action, continue, ◌>>=◌}
use h_openconnect.Engine.Ownership.{lift, lift_result, on_journal}

-- The claim holds of the answer and the engine, if there is an answer.
abbrev pub Yields :
    {A : Type 0} → (A → SessionEngine → Type 0) → CoreResult A × SessionEngine → Type 0
Yields P (ok a, e) = P a e
Yields P (err x, e) = Unit {0}

continue-Yields :
    {A B : Type 0} (P : A → SessionEngine → Type 0) (Q : B → SessionEngine → Type 0)
    (r : CoreResult A × SessionEngine) (f : A → Action B)
    → Yields P r
    → ((a : A) (e : SessionEngine) → P a e → Yields Q (f a e))
    → Yields Q (continue r f)
continue-Yields P Q (ok a, e) f p k = k a e p
continue-Yields P Q (err x, e) f p k = tt

pub bind-Yields :
    {A B : Type 0} (P : A → SessionEngine → Type 0) (Q : B → SessionEngine → Type 0) (m : Action A)
    (f : A → Action B) (e : SessionEngine)
    → Yields P (m e)
    → ((a : A) (e' : SessionEngine) → P a e' → Yields Q (f a e'))
    → Yields Q ((m >>= f) e)
unfolding ◌>>=◌
bind-Yields P Q m f e p k = continue-Yields P Q (m e) f p k

-- An answer that is lifted, with the engine unchanged.
pub lift-Yields :
    {A : Type 0} (P : A → SessionEngine → Type 0) (r : Result A) (e : SessionEngine)
    → ((a : A) → r ≡ Result.ok a → P a e)
    → Yields P (lift r e)
lift-Yields P (Result.ok a) e k = k a refl
lift-Yields P (Result.err x) e k = tt

-- An access to the journal changes the journal only.
pub journal-Yields :
    {A : Type 0} (P : A → SessionEngine → Type 0) (act : Entry → Result A × Entry)
    (e : SessionEngine)
    → ((a : A) → (act e.journal).0 ≡ Result.ok a → P a (record e { journal = (act e.journal).1 }))
    → Yields P (on_journal act e)
journal-Yields {A} P act e k = go (act e.journal).0 k
  where
    go :
        (r : Result A)
        → ((a : A) → r ≡ Result.ok a → P a (record e { journal = (act e.journal).1 }))
        → Yields P (lift_result r, record e { journal = (act e.journal).1 })
    go (Result.ok a) l = l a refl
    go (Result.err x) l = tt

-- What holds of every answer holds of the one that was given.
pub Yields-answer :
    {A : Type 0} (P : A → SessionEngine → Type 0) (r : CoreResult A × SessionEngine) (a : A)
    → Yields P r
    → r.0 ≡ ok a
    → P a r.1
Yields-answer P (ok b, e) a p h = subst (λ x. P x e) (ok_injective b a h) p
  where
    ok_injective : {A : Type 0} (b a : A) → ok b ≡ ok a → b ≡ a
    ok_injective b a h = cc
Yields-answer P (err x, e) a p h = cc

-- What holds of the engine afterwards, whatever the answer.
pub state-Yields :
    {A : Type 0} (P : SessionEngine → Type 0) (r : CoreResult A × SessionEngine)
    → P r.1
    → Yields (λ a f. P f) r
state-Yields P (ok a, e) p = p
state-Yields P (err x, e) p = tt
