-- ===== src/Route/Prefix/Subtract.antt =====
-- `IpPrefix::subtract` leaves exactly the addresses of a prefix that the exclusion does not have.
use native.Mathlib.Nat.{zero-mod}
use mathlib.Core.Bool.{false≢true}
use native.Mathlib.Decide.{dec_le, dec_lt}
use h_openconnect.Base.{
  ℕ, zero, suc, ◌+◌, ◌-◌, ◌^◌, ◌≤◌, ◌<◌, ◌≡◌, refl, sym, ap, ◌∙◌, ◌⊎◌, inl, inr, arith, ◌↔◌, true,
  false, ◌&&◌, leb, Bool-cases, List, [], ◌∷◌, ◌++◌, All,
}
use h_openconnect.Route.Prefix.{
  Family, v4, v6, IpPrefix, width, same_family, set_bit, contains, left_child, right_child,
  children, carve, subtract_fuel, subtract_depth, subtract,
}
use h_openconnect.Route.Prefix.Blocks.{pow-pos, prefix_nested, halves_aligned, pow-double}
use h_openconnect.Route.Prefix.Covers.{
  Address, size, Covers, IsPrefix, base, same_family→eq, eq→same_family, contains→Covers,
  Covers→contains, overlap_nested,
}

-- Some prefix of the list has the address.
abbrev pub CoversAny : List IpPrefix → Address → Type 0
CoversAny [] a = ⊥
CoversAny (p ∷ ps) a = Covers p a ⊎ CoversAny ps a

pub CoversAny-append :
    (ps qs : List IpPrefix) (a : Address)
    → CoversAny (ps ++ qs) a ↔ (CoversAny ps a ⊎ CoversAny qs a)
CoversAny-append [] qs a = (inr, elim [ inl b ↦ absurd b | inr c ↦ c ])
CoversAny-append (p ∷ ps) qs a =
    let ih = CoversAny-append ps qs a in
    (
      elim [ inl c ↦ inl (inl c) | inr r ↦ elim (ih.0 r) [ inl c ↦ inl (inr c) | inr c ↦ inr c ] ],
      elim [
        | inl c ↦ elim c [ inl d ↦ inl d | inr d ↦ inr (ih.1 (inl d)) ]
        | inr c ↦ inr (ih.1 (inr c))
      ],
    )

-- A prefix with host bits splits into two prefixes.
pub left_child-IsPrefix :
    (p : IpPrefix) → IsPrefix p → p.bits < width p.family → IsPrefix (left_child p)
unfolding left_child
left_child-IsPrefix p w h = record {
  bits_bound = omega arith;
  aligned = (halves_aligned (width p.family) p.bits p.network h w.aligned).0;
  network_bound = w.network_bound;
}

-- The last address of a prefix is in range.
pub prefix_end : (p : IpPrefix) → IsPrefix p → p.network + size p ≤ 2 ^ width p.family
prefix_end p w =
    let z : width p.family - 0 ≡ width p.family = omega arith in
    let e : 2 ^ (width p.family - 0) ≡ 2 ^ width p.family = ap (λ (t : ℕ). 2 ^ t) z in
    let r =
      prefix_nested (width p.family) 0 p.bits 0 p.network p.network (omega arith) w.bits_bound
        (zero-mod _) w.aligned (omega arith) (omega (arith, e, w.network_bound)) (omega arith)
        (omega (arith, pow-pos (width p.family - p.bits))) in
    omega (arith, r.1, e)

-- The right child with its bit added, not set.
abbrev upper_half : IpPrefix → IpPrefix
upper_half p = record p {
  network = p.network + 2 ^ (width p.family - (p.bits + 1));
  bits = p.bits + 1;
}

-- The bit that `children` sets was clear.
pub right_child_lem :
    (p : IpPrefix) → IsPrefix p → p.bits < width p.family → right_child p ≡ upper_half p
unfolding right_child set_bit
right_child_lem p w h = rw ((halves_aligned (width p.family) p.bits p.network h w.aligned).2)

pub right_child-IsPrefix :
    (p : IpPrefix) → IsPrefix p → p.bits < width p.family → IsPrefix (right_child p)
right_child-IsPrefix p w h =
    let pos = pow-pos (width p.family - (p.bits + 1)) in
    rw (right_child_lem p w h) (record {
      bits_bound = omega arith;
      aligned = (halves_aligned (width p.family) p.bits p.network h w.aligned).1;
      network_bound = omega (arith, prefix_end p w, pow-double (width p.family) p.bits h, pos);
    })

-- The two children share out the addresses of the prefix.
pub children-Covers :
    (p : IpPrefix) (a : Address)
    → IsPrefix p
    → p.bits < width p.family
    → Covers p a ↔ (Covers (left_child p) a ⊎ Covers (right_child p) a)
unfolding left_child
children-Covers p a w h =
    let d = pow-double (width p.family) p.bits h in
    rw (right_child_lem p w h) (
      (λ c. elim (dec_lt a.value (p.network + 2 ^ (width p.family - (p.bits + 1)))) [
        | yes l ↦ inl (c.0, c.1, l)
        | no g ↦ inr (c.0, omega arith, omega (arith, d))
      ]),
      elim [ inl c ↦ (c.0, c.1, omega (arith, d)) | inr c ↦ (c.0, omega arith, omega (arith, d)) ],
    )

pub Covers-cases : (p : IpPrefix) (a : Address) → Covers p a ⊎ ¬ Covers p a
Covers-cases p a = elim (Bool-cases (same_family p.family a.family)) [
  | inr f ↦ inr (λ c. false≢true (sym f ∙ eq→same_family _ _ c.0))
  | inl f ↦ elim (dec_le p.network a.value) [
    | no n ↦ inr (λ c. n c.1)
    | yes l ↦ elim (dec_lt a.value (p.network + size p)) [
      | no n ↦ inr (λ c. n c.2)
      | yes u ↦ inl (same_family→eq _ _ f, l, u)
    ]
  ]
]

-- Of two prefixes that share an address the shorter contains the longer.
pub contains_of_overlap :
    (p e : IpPrefix) (a : Address)
    → IsPrefix p
    → IsPrefix e
    → p.bits ≤ e.bits
    → Covers p a
    → Covers e a
    → contains p e ≡ true
contains_of_overlap p e a wp we h cp ce =
    let n = overlap_nested p e a wp we h cp ce in
    let pos : 0 < size e = pow-pos _ in
    Covers→contains p e wp we (cp.0 ∙ sym ce.0, n.0, omega (arith, n.1, pos))

pub Covers-of_contains :
    (p e : IpPrefix) (a : Address)
    → IsPrefix p
    → IsPrefix e
    → p.bits ≤ e.bits
    → contains p e ≡ true
    → Covers e a
    → Covers p a
Covers-of_contains p e a wp we h c ce =
    let b = contains→Covers p e we c in
    let pos : 0 < size e = pow-pos _ in
    let n = overlap_nested p e (base e) wp we h b (refl, omega arith, omega (arith, pos)) in
    (b.0 ∙ ce.0, omega (arith, n.0), omega (arith, n.1))

-- What a list of fragments must satisfy: the addresses of `p` outside `e`, and no others.
abbrev Removes : IpPrefix → IpPrefix → Address → List IpPrefix → Type 0
Removes p e a ps = CoversAny ps a ↔ (Covers p a × ¬ Covers e a)

Removes-whole :
    (p e : IpPrefix) (a : Address) → (Covers p a → ¬ Covers e a) → Removes p e a (p ∷ [])
Removes-whole p e a apart = (elim [ inl c ↦ (c, apart c) | inr b ↦ absurd b ], λ c. inl c.0)

-- One child: it is taken apart further if the exclusion starts in it, and kept whole if not.
Removes-carve :
    (rec : IpPrefix → List IpPrefix) (c e : IpPrefix) (a : Address)
    → IsPrefix c
    → IsPrefix e
    → c.bits ≤ e.bits
    → (contains c e ≡ true → Removes c e a (rec c))
    → Removes c e a (carve rec e c)
Removes-carve rec c e a wc we h deeper = elim (Bool-cases (contains c e)) [
  | inl t ↦ rw t (deeper t)
  | inr f ↦
      rw f (
        Removes-whole c e a (λ cc ce. false≢true (sym f ∙ contains_of_overlap c e a wc we h cc ce)))
]

-- The fragments of both children together.
Removes-children :
    (p e : IpPrefix) (a : Address) (ls rs : List IpPrefix)
    → IsPrefix p
    → p.bits < width p.family
    → Removes (left_child p) e a ls
    → Removes (right_child p) e a rs
    → Removes p e a (ls ++ rs)
Removes-children p e a ls rs w h l r =
    let split = children-Covers p a w h in
    let app = CoversAny-append ls rs a in
    (
      (λ c. elim (app.0 c) [
        | inl d ↦ (split.1 (inl ((l.0 d).0)), (l.0 d).1)
        | inr d ↦ (split.1 (inr ((r.0 d).0)), (r.0 d).1)
      ]),
      λ c. app.1 (elim (split.0 c.0) [ inl d ↦ inl (l.1 (d, c.1)) | inr d ↦ inr (r.1 (d, c.1)) ]),
    )

-- A prefix inside the exclusion is removed whole.
Removes-inside :
    (p e : IpPrefix) (a : Address)
    → IsPrefix p
    → IsPrefix e
    → e.bits ≤ p.bits
    → contains e p ≡ true
    → Removes p e a []
Removes-inside p e a wp we h c =
    ((λ b. absurd b), λ d. d.1 (Covers-of_contains e p a we wp h c d.0))

-- A prefix that neither lies in the exclusion nor holds its start shares no address with it.
Covers-apart :
    (p e : IpPrefix) (a : Address)
    → IsPrefix p
    → IsPrefix e
    → (leb e.bits p.bits && contains e p) ≡ false
    → contains p e ≡ false
    → Covers p a
    → ¬ Covers e a
Covers-apart p e a wp we out start cp ce = elim (dec_le e.bits p.bits) [
  | yes h ↦ let c = contains_of_overlap e p a we wp h ce cp in ground arith
  | no h ↦ let c = contains_of_overlap p e a wp we (omega arith) cp ce in false≢true (sym start ∙ c)
]

-- Past the early returns the exclusion is strictly longer, so `children` has a bit to add.
splits_bits :
    (p e : IpPrefix)
    → IsPrefix p
    → IsPrefix e
    → (leb e.bits p.bits && contains e p) ≡ false
    → contains p e ≡ true
    → p.bits < e.bits
splits_bits p e wp we out start = elim (dec_lt p.bits e.bits) [
  | yes h ↦ h
  | no g ↦
      let pos : 0 < size e = pow-pos _ in
      let b = contains→Covers p e we start in
      let c =
        contains_of_overlap e p (base e) we wp (omega arith) (refl, omega arith, omega (arith, pos))
          b in
      ground arith
]

pub splits_width :
    (p e : IpPrefix)
    → IsPrefix p
    → IsPrefix e
    → (leb e.bits p.bits && contains e p) ≡ false
    → contains p e ≡ true
    → p.bits < width p.family
splits_width p e wp we out start =
    let f = ap width (contains→Covers p e we start).0 in
    omega (arith, f, splits_bits p e wp we out start, we.bits_bound)

-- The three early returns of `subtract` and its recursive case.
pub Removes-subtract_fuel :
    (fuel : ℕ) (p e : IpPrefix) (a : Address)
    → IsPrefix p
    → IsPrefix e
    → 0 < fuel
    → e.bits < p.bits + fuel
    → Removes p e a (subtract_fuel fuel p e)
unfolding subtract_fuel children left_child right_child
Removes-subtract_fuel zero p e a wp we pos h = absurd (omega arith)
Removes-subtract_fuel (suc fuel) p e a wp we pos h =
    elim (Bool-cases (same_family p.family e.family)) [
      | inr f ↦
          rw f (
            Removes-whole p e a
              (λ cp ce. false≢true (sym f ∙ eq→same_family _ _ (cp.0 ∙ sym ce.0))))
      | inl f ↦ elim (Bool-cases (leb e.bits p.bits && contains e p)) [
        | inl i ↦ rw (f, i) (Removes-inside p e a wp we (ground arith) (ground arith))
        | inr o ↦ elim (Bool-cases (contains p e)) [
          | inr s ↦ rw (f, o, s) (Removes-whole p e a (Covers-apart p e a wp we o s))
          | inl s ↦
              rw (f, o, s)
                (let b = splits_bits p e wp we o s in
                  let hw = splits_width p e wp we o s in
                  let wl = left_child-IsPrefix p wp hw in
                  let wr = right_child-IsPrefix p wp hw in
                  let rec = λ (c : IpPrefix). subtract_fuel fuel c e in
                  Removes-children p e a (carve rec e (left_child p)) (carve rec e (right_child p))
                    wp hw
                    (Removes-carve rec (left_child p) e a wl we (omega arith) (λ _.
                      Removes-subtract_fuel fuel (left_child p) e a wl we (omega arith)
                        (omega arith)))
                    (Removes-carve rec (right_child p) e a wr we (omega arith) (λ _.
                      Removes-subtract_fuel fuel (right_child p) e a wr we (omega arith)
                        (omega arith))))
        ]
      ]
    ]

width_bound : (f : Family) → width f ≤ 128
width_bound v4 = omega arith
width_bound v6 = omega arith

-- For well-formed prefixes, an address is in one of the fragments that `subtract` returns exactly
-- when it is in the prefix and not in the exclusion; the depth allowed for the recursion is enough.
pub subtract-Covers :
    (p e : IpPrefix) (a : Address)
    → IsPrefix p
    → IsPrefix e
    → CoversAny (subtract p e) a ↔ (Covers p a × ¬ Covers e a)
unfolding subtract
subtract-Covers p e a wp we =
    Removes-subtract_fuel subtract_depth p e a wp we (omega arith)
      (omega (arith, we.bits_bound, width_bound e.family))

pub All-IsPrefix-append :
    (ps qs : List IpPrefix) → All IsPrefix ps → All IsPrefix qs → All IsPrefix (ps ++ qs)
All-IsPrefix-append [] qs hp hq = hq
All-IsPrefix-append (p ∷ ps) qs hp hq = (hp.0, All-IsPrefix-append ps qs hp.1 hq)

carve-IsPrefix :
    (rec : IpPrefix → List IpPrefix) (e c : IpPrefix)
    → IsPrefix c
    → All IsPrefix (rec c)
    → All IsPrefix (carve rec e c)
carve-IsPrefix rec e c wc deeper = elim (Bool-cases (contains c e)) [
  | inl t ↦ rw t deeper
  | inr f ↦ rw f (wc, tt)
]

subtract_fuel-IsPrefix :
    (fuel : ℕ) (p e : IpPrefix) → IsPrefix p → IsPrefix e → All IsPrefix (subtract_fuel fuel p e)
unfolding subtract_fuel children
subtract_fuel-IsPrefix zero p e wp we = (wp, tt)
subtract_fuel-IsPrefix (suc fuel) p e wp we = elim (Bool-cases (same_family p.family e.family)) [
  | inr f ↦ rw f (wp, tt)
  | inl f ↦ elim (Bool-cases (leb e.bits p.bits && contains e p)) [
    | inl i ↦ rw (f, i) tt
    | inr o ↦ elim (Bool-cases (contains p e)) [
      | inr s ↦ rw (f, o, s) (wp, tt)
      | inl s ↦
          rw (f, o, s)
            (let hw = splits_width p e wp we o s in
              let wl = left_child-IsPrefix p wp hw in
              let wr = right_child-IsPrefix p wp hw in
              let rec = λ (c : IpPrefix). subtract_fuel fuel c e in
              All-IsPrefix-append (carve rec e (left_child p)) (carve rec e (right_child p))
                (carve-IsPrefix rec e (left_child p) wl
                  (subtract_fuel-IsPrefix fuel (left_child p) e wl we))
                (carve-IsPrefix rec e (right_child p) wr
                  (subtract_fuel-IsPrefix fuel (right_child p) e wr we)))
    ]
  ]
]

-- Every fragment of a subtraction of well-formed prefixes is a well-formed prefix.
pub subtract-IsPrefix : (p e : IpPrefix) → IsPrefix p → IsPrefix e → All IsPrefix (subtract p e)
unfolding subtract
subtract-IsPrefix p e wp we = subtract_fuel-IsPrefix subtract_depth p e wp we
