-- ===== src/Route/Exclusion/Semantics.antt =====
-- The materialised routes carry an address exactly when longest-prefix routing over the includes and
-- the exclusions does.
use mathlib.Core.Bool.{false≢true}
use h_openconnect.Base.{
  ◌<◌, ◌≡◌, refl, sym, ◌∙◌, ◌⊎◌, inl, inr, arith, ◌↔◌, true, false, Bool-cases, List, [], ◌∷◌, All,
  is_empty, lt→ltb,
}
use h_openconnect.Route.Prefix.{IpPrefix, subtract}
use h_openconnect.Route.Prefix.Covers.{Address, Covers, IsPrefix, eq→same_family}
use h_openconnect.Route.Prefix.Subtract.{
  CoversAny, CoversAny-append, All-IsPrefix-append, subtract-Covers, subtract-IsPrefix,
  contains_of_overlap, Covers-cases,
}
use h_openconnect.Route.Exclusion.{skips, subtract_all, fragments_of, materialize}

subtract_all-Covers :
    (fs : List IpPrefix) (e : IpPrefix) (a : Address)
    → All IsPrefix fs
    → IsPrefix e
    → CoversAny (subtract_all fs e) a ↔ (CoversAny fs a × ¬ Covers e a)
unfolding subtract_all
subtract_all-Covers [] e a wf we = ((λ b. absurd b), λ c. c.0)
subtract_all-Covers (f ∷ fs) e a wf we =
    let app = CoversAny-append (subtract f e) (subtract_all fs e) a in
    let here = subtract-Covers f e a wf.0 we in
    let there = subtract_all-Covers fs e a wf.1 we in
    (
      (λ c. elim (app.0 c) [
        | inl d ↦ (inl ((here.0 d).0), (here.0 d).1)
        | inr d ↦ (inr ((there.0 d).0), (there.0 d).1)
      ]),
      λ c. app.1 (elim (c.0) [ inl d ↦ inl (here.1 (d, c.1)) | inr d ↦ inr (there.1 (d, c.1)) ]),
    )

subtract_all-IsPrefix :
    (fs : List IpPrefix) (e : IpPrefix)
    → All IsPrefix fs
    → IsPrefix e
    → All IsPrefix (subtract_all fs e)
unfolding subtract_all
subtract_all-IsPrefix [] e wf we = tt
subtract_all-IsPrefix (f ∷ fs) e wf we =
    All-IsPrefix-append (subtract f e) (subtract_all fs e) (subtract-IsPrefix f e wf.0 we)
      (subtract_all-IsPrefix fs e wf.1 we)

-- No exclusion that the loop applies has the address.
abbrev Spared : IpPrefix → Address → List IpPrefix → Type 0
Spared i a es = All (λ e. (skips i e ≡ true) ⊎ ¬ Covers e a) es

is_empty-CoversAny : (fs : List IpPrefix) (a : Address) → is_empty fs ≡ true → ¬ CoversAny fs a
is_empty-CoversAny [] a z c = c
is_empty-CoversAny (f ∷ fs) a z c = false≢true z

spared_first : (P : Type 0) → ((false ≡ true) ⊎ P) → P
spared_first P (inl t) = absurd (false≢true t)
spared_first P (inr p) = p

fragments_of-Covers :
    (i : IpPrefix) (es fs : List IpPrefix) (a : Address)
    → All IsPrefix es
    → All IsPrefix fs
    → CoversAny (fragments_of i es fs) a ↔ (CoversAny fs a × Spared i a es)
unfolding fragments_of
fragments_of-Covers i [] fs a we wf = ((λ c. (c, tt)), λ c. c.0)
fragments_of-Covers i (e ∷ es) fs a we wf = elim (Bool-cases (skips i e)) [
  | inl s ↦
      let ih = fragments_of-Covers i es fs a we.1 wf in
      rw s ((λ c. ((ih.0 c).0, (inl refl, (ih.0 c).1))), λ c. ih.1 (c.0, c.1.1))
  | inr s ↦
      let cut = subtract_all fs e in
      let step = subtract_all-Covers fs e a wf we.0 in
      let ih = fragments_of-Covers i es cut a we.1 (subtract_all-IsPrefix fs e wf we.0) in
      elim (Bool-cases (is_empty cut)) [
        | inl z ↦
            rw (s, z)
              (
                (λ c. absurd (is_empty-CoversAny cut a z c)),
                λ c. step.1 (c.0, spared_first (¬ Covers e a) c.1.0),
              )
        | inr z ↦
            rw (s, z)
              (
                (λ c. ((step.0 (ih.0 c).0).0, (inr ((step.0 (ih.0 c).0).1), (ih.0 c).1))),
                λ c. ih.1 (step.1 (c.0, spared_first (¬ Covers e a) c.1.0), c.1.1),
              )
      ]
]

-- Longest-prefix routing: some include has the address, and every exclusion that has it is shorter.
abbrev pub Routed : List IpPrefix → List IpPrefix → Address → Type 0
Routed [] es a = ⊥
Routed (i ∷ rest) es a =
    (Covers i a × All (λ e. Covers e a → e.bits < i.bits) es) ⊎ Routed rest es a

-- For an address of the include, an exclusion is passed over exactly when it is shorter or elsewhere.
spared_iff :
    (i e : IpPrefix) (a : Address)
    → IsPrefix i
    → IsPrefix e
    → Covers i a
    → ((skips i e ≡ true) ⊎ ¬ Covers e a) ↔ (Covers e a → e.bits < i.bits)
unfolding skips
spared_iff i e a wi we ci = (forth, back)
  where
    forth : ((skips i e ≡ true) ⊎ ¬ Covers e a) → Covers e a → e.bits < i.bits
    forth (inl s) ce = let f = eq→same_family i.family e.family (ci.0 ∙ sym ce.0) in ground arith
    forth (inr n) ce = absurd (n ce)

    back : (Covers e a → e.bits < i.bits) → (skips i e ≡ true) ⊎ ¬ Covers e a
    back h = elim (Covers-cases e a) [
      | inr n ↦ inr n
      | inl ce ↦
          let c = contains_of_overlap e i a we wi (omega (arith, h ce)) ce ci in
          let l = lt→ltb e.bits i.bits (h ce) in inl (ground arith)
    ]

Spared-iff :
    (i : IpPrefix) (es : List IpPrefix) (a : Address)
    → IsPrefix i
    → All IsPrefix es
    → Covers i a
    → Spared i a es ↔ All (λ e. Covers e a → e.bits < i.bits) es
Spared-iff i [] a wi we ci = ((λ t. t), λ t. t)
Spared-iff i (e ∷ es) a wi we ci =
    let here = spared_iff i e a wi we.0 ci in
    let there = Spared-iff i es a wi we.1 ci in
    ((λ s. (here.0 s.0, there.0 s.1)), λ s. (here.1 s.0, there.1 s.1))

-- For well-formed includes and exclusions, an address lies in a materialised route exactly when some
-- include has it and every exclusion that has it is shorter than that include.
pub materialize-Routed :
    (is es : List IpPrefix) (a : Address)
    → All IsPrefix is
    → All IsPrefix es
    → CoversAny (materialize is es) a ↔ Routed is es a
unfolding materialize
materialize-Routed [] es a wi we = ((λ b. b), λ b. b)
materialize-Routed (i ∷ rest) es a wi we =
    let app = CoversAny-append (fragments_of i es (i ∷ [])) (materialize rest es) a in
    let here = fragments_of-Covers i es (i ∷ []) a we (wi.0, tt) in
    let there = materialize-Routed rest es a wi.1 we in
    (
      (λ c. elim (app.0 c) [
        | inl d ↦ elim ((here.0 d).0) [
          | inl ci ↦ inl (ci, (Spared-iff i es a wi.0 we ci).0 (here.0 d).1)
          | inr b ↦ absurd b
        ]
        | inr d ↦ inr (there.0 d)
      ]),
      λ c. app.1 (elim c [
        | inl d ↦ inl (here.1 (inl d.0, (Spared-iff i es a wi.0 we d.0).1 d.1))
        | inr d ↦ inr (there.1 d)
      ]),
    )
