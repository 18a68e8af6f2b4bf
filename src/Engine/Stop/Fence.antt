-- ===== src/Engine/Stop/Fence.antt =====
-- The fence around an OS stop over sequences of calls.
use h_openconnect.Base.{
  ℕ, ◌+◌, ◌^◌, ◌≡◌, refl, ap, sym, ◌∙◌, ◌⊎◌, inl, inr, arith, Bool, true, false, ◌||◌, not, List,
  [], ◌∷◌, Text, text_eq→eq, ◌==◌, ==→eq, Bool-cases, is_empty, ltb,
}
use mathlib.Core.Path.{subst}
use h_openconnect.Owner.Storage.{Json}
use h_openconnect.Engine.State.{Inner, SessionEngine, Env}
use h_openconnect.Engine.Ownership.{Host}
use h_openconnect.Engine.Recovery.{claim_current_platform_vpn_stop}
use h_openconnect.Engine.Stop.{
  advance_platform_vpn_intent, begin_platform_vpn_os_stop, complete_platform_vpn_os_stop,
  fail_platform_vpn_os_stop, fenced_at,
}

-- The calls on the intents and on the fence: besides the three of an OS stop itself, the claim of a stop,
-- which writes the fence too.
pub data StopCall : Type 0 where
  advances : StopCall
  begins completes fails : ℕ → Text → StopCall
  claims : Env → Host → ℕ → StopCall

abbrev with : {A : Type 0} → (Inner → A × Inner) → SessionEngine → SessionEngine
with f e = record e { inner = (f e.inner).1 }

abbrev pub called : Json → StopCall → SessionEngine → SessionEngine
called json advances e = with advance_platform_vpn_intent e
called json (begins epoch attempt) e = with (begin_platform_vpn_os_stop epoch attempt) e
called json (completes epoch attempt) e = with (complete_platform_vpn_os_stop epoch attempt) e
called json (fails epoch attempt) e = with (fail_platform_vpn_os_stop epoch attempt) e
called json (claims env host epoch) e = (claim_current_platform_vpn_stop json env host epoch e).1

unfoldable pub called_all : Json → List StopCall → SessionEngine → SessionEngine
called_all json [] e = e
called_all json (c ∷ cs) e = called_all json cs (called json c e)

-- The OS stop of this intent and attempt is under way.
pub record InFlight (epoch : ℕ) (attempt : Text) (i : Inner) : Type 0 where
  pub at_epoch : i.platform_os_stop_epoch ≡ epoch
  pub of_attempt : i.platform_os_stop_attempt_id ≡ attempt
  pub flying : i.platform_os_stop_in_flight ≡ true

-- The call that ends it.
pub data Ends (epoch : ℕ) (attempt : Text) : StopCall → Type 0 where
  by_completion : Ends epoch attempt (completes epoch attempt)
  by_failure : Ends epoch attempt (fails epoch attempt)

pub data EndsIn (epoch : ℕ) (attempt : Text) : List StopCall → Type 0 where
  here : {c : StopCall} {cs : List StopCall} → Ends epoch attempt c → EndsIn epoch attempt (c ∷ cs)
  there :
      {c : StopCall} {cs : List StopCall} → EndsIn epoch attempt cs → EndsIn epoch attempt (c ∷ cs)

fenced_parts :
    (e : ℕ) (a : Text) (i : Inner)
    → fenced_at e a i ≡ true
    → (i.platform_os_stop_epoch ≡ e) × (i.platform_os_stop_attempt_id ≡ a)
unfolding fenced_at
fenced_parts e a i h = (
  ==→eq i.platform_os_stop_epoch e (ground arith),
  text_eq→eq i.platform_os_stop_attempt_id a (ground arith),
)

fenced_at-InFlight :
    (e e' : ℕ) (a a' : Text) (i : Inner)
    → InFlight e a i
    → fenced_at e' a' i ≡ true
    → (e ≡ e') × (a ≡ a')
fenced_at-InFlight e e' a a' i f h =
    let p = fenced_parts e' a' i h in (sym f.at_epoch ∙ p.0, sym f.of_attempt ∙ p.1)

advance-InFlight :
    (e : ℕ) (a : Text) (i : Inner) → InFlight e a i → InFlight e a (advance_platform_vpn_intent i).1
unfolding advance_platform_vpn_intent
advance-InFlight e a i f = elim (Bool-cases (ltb (i.platform_vpn_intent_epoch + 1) (2 ^ 64))) [
  | inl t ↦ rw t (record { at_epoch = f.at_epoch; of_attempt = f.of_attempt; flying = f.flying })
  | inr t ↦ rw t f
]

-- While a stop is under way, another one cannot begin.
begin-InFlight :
    (e e' : ℕ) (a a' : Text) (i : Inner)
    → InFlight e a i
    → begin_platform_vpn_os_stop e' a' i ≡ (false, i)
unfolding begin_platform_vpn_os_stop
begin-InFlight e e' a a' i f =
    let t : (e' == 0 || not (i.platform_vpn_intent_epoch == e') || i.platform_os_stop_in_flight)
        ≡ true =
      let g = f.flying in ground arith in
    rw t refl

ended_call :
    (e : ℕ) (a : Text) (i : Inner) (e' : ℕ) (a' : Text)
    → InFlight e a i
    → (InFlight e a (complete_platform_vpn_os_stop e' a' i).1 ⊎ ((e ≡ e') × (a ≡ a')))
      × (InFlight e a (fail_platform_vpn_os_stop e' a' i).1 ⊎ ((e ≡ e') × (a ≡ a')))
unfolding complete_platform_vpn_os_stop fail_platform_vpn_os_stop
ended_call e a i e' a' f = elim (Bool-cases (fenced_at e' a' i)) [
  | inl t ↦ (inr (fenced_at-InFlight e e' a a' i f t), inr (fenced_at-InFlight e e' a a' i f t))
  | inr t ↦ rw t (inl f, inl f)
]

-- While a stop is under way, none can be claimed.
claim-refused :
    (json : Json) (env : Env) (host : Host) (e : SessionEngine) (epoch : ℕ)
    → e.inner.platform_os_stop_in_flight ≡ true
    → (claim_current_platform_vpn_stop json env host epoch e).1 ≡ e
unfolding claim_current_platform_vpn_stop
claim-refused json env host e epoch f =
    elim (Bool-cases (epoch == 0 || not (e.inner.platform_vpn_intent_epoch == epoch))) [
      | inl t ↦ rw t refl
      | inr t ↦ rw (t, f) refl
    ]

call-InFlight :
    (json : Json) (e : ℕ) (a : Text) (c : StopCall) (x : SessionEngine)
    → InFlight e a x.inner
    → InFlight e a (called json c x).inner ⊎ Ends e a c
call-InFlight json e a advances x f = inl (advance-InFlight e a x.inner f)
call-InFlight json e a (begins e' a') x f =
    inl
      (subst (λ (y : Bool × Inner). InFlight e a y.1) (sym (begin-InFlight e e' a a' x.inner f)) f)
call-InFlight json e a (completes e' a') x f = elim (ended_call e a x.inner e' a' f).0 [
  | inl g ↦ inl g
  | inr (p, q) ↦ inr (rw (sym p, sym q) by_completion)
]
call-InFlight json e a (fails e' a') x f = elim (ended_call e a x.inner e' a' f).1 [
  | inl g ↦ inl g
  | inr (p, q) ↦ inr (rw (sym p, sym q) by_failure)
]
call-InFlight json e a (claims env host e') x f = inl (
    subst (λ (y : SessionEngine). InFlight e a y.inner)
      (sym (claim-refused json env host x e' f.flying)) f)

calls-InFlight :
    (json : Json) (e : ℕ) (a : Text) (cs : List StopCall) (x : SessionEngine)
    → InFlight e a x.inner
    → InFlight e a (called_all json cs x).inner ⊎ EndsIn e a cs
unfolding called_all
calls-InFlight json e a [] x f = inl f
calls-InFlight json e a (c ∷ cs) x f = elim (call-InFlight json e a c x f) [
  | inr d ↦ inr (here d)
  | inl g ↦ elim (calls-InFlight json e a cs (called json c x) g) [
    | inl r ↦ inl r
    | inr d ↦ inr (there d)
  ]
]

is_empty→eq : (a : Text) → is_empty a ≡ true → [] ≡ a
is_empty→eq [] h = refl
is_empty→eq (x ∷ xs) h = ground arith

begun-InFlight :
    (e : ℕ) (a : Text) (i : Inner)
    → (begin_platform_vpn_os_stop e a i).0 ≡ true
    → InFlight e a (begin_platform_vpn_os_stop e a i).1
unfolding begin_platform_vpn_os_stop
begun-InFlight e a i =
    elim (Bool-cases
      (e == 0 || not (i.platform_vpn_intent_epoch == e) || i.platform_os_stop_in_flight)) [
        | inl t ↦ rw t (λ h. cc)
        | inr t ↦ rw t (elim (Bool-cases (i.platform_os_stop_epoch == 0)) [
          | inl z ↦ rw z (elim (Bool-cases (is_empty a)) [
            | inl n ↦
                rw n (λ h. record { at_epoch = refl; of_attempt = is_empty→eq a n; flying = refl })
            | inr n ↦ rw n (λ h. cc)
          ])
          | inr z ↦ rw z (elim (Bool-cases (fenced_at e a i)) [
            | inl n ↦ rw n (λ h.
                let p = fenced_parts e a i n in
                record { at_epoch = p.0; of_attempt = p.1; flying = refl })
            | inr n ↦ rw n (λ h. cc)
          ])
        ])
      ]

-- Between two OS stops that begin, whichever intents are advanced and whichever stops are claimed, begun,
-- completed or failed, the first one has been completed or failed under its own intent and attempt.
pub stops_one_by_one :
    (json : Json) (e e' : ℕ) (a a' : Text) (cs : List StopCall) (x : SessionEngine)
    → (begin_platform_vpn_os_stop e a x.inner).0 ≡ true
    → (begin_platform_vpn_os_stop e' a' (called_all json cs (called json (begins e a) x)).inner).0
      ≡ true
    → EndsIn e a cs
stops_one_by_one json e e' a a' cs x h h' =
    elim (calls-InFlight json e a cs (called json (begins e a) x) (begun-InFlight e a x.inner h)) [
      | inr d ↦ d
      | inl f ↦
          let r =
            ap (λ (y : Bool × Inner). y.0)
              (begin-InFlight e e' a a' (called_all json cs (called json (begins e a) x)).inner
                f) in
          cc (sym r ∙ h')
    ]
