-- ===== src/Route/Prefix/Covers.antt =====
-- The addresses that an `IpPrefix` stands for, and what `contains` and `children` say of them.
use native.Mathlib.Nat.{div-eq_of_lt, lt-div-mul-add, div-mul-le_self}
use h_openconnect.Base.{
  ℕ, zero, suc, ◌+◌, ◌-◌, ◌*◌, ◌/◌, ◌%◌, ◌^◌, ◌≤◌, ◌<◌, ◌≡◌, refl, sym, ap, ◌∙◌, arith, true, ==→eq,
  eq→==,
}
use h_openconnect.Route.Prefix.{Family, IpPrefix, width, same_family, prefix_mask, contains}
use h_openconnect.Route.Prefix.Blocks.{pow-pos, block_unique, prefix_nested}

pub record Address : Type 0 where
  pub family : Family
  pub value : ℕ

-- The number of addresses of a prefix.
abbrev pub size : IpPrefix → ℕ
size p = 2 ^ (width p.family - p.bits)

-- The addresses of a prefix are the `size` many from its network address on.
abbrev pub Covers : IpPrefix → Address → Type 0
Covers p a = (p.family ≡ a.family) × (p.network ≤ a.value) × (a.value < p.network + size p)

-- The network address has no host bits, and both fields are in range.
pub record IsPrefix (p : IpPrefix) : Type 0 where
  pub bits_bound : p.bits ≤ width p.family
  pub aligned : p.network % size p ≡ 0
  pub network_bound : p.network < 2 ^ width p.family

-- The network address of a prefix, as an address.
abbrev pub base : IpPrefix → Address
base p = record { family = p.family; value = p.network }

pub same_family→eq : (f g : Family) → same_family f g ≡ true → f ≡ g
same_family→eq f g h = ground arith

pub eq→same_family : (f g : Family) → f ≡ g → same_family f g ≡ true
eq→same_family f g h = ground arith

-- For an address in range the case `bits = 0` needs no test.
pub prefix_mask_lem : (w b x : ℕ) → x < 2 ^ w → prefix_mask w b x ≡ x / 2 ^ (w - b) * 2 ^ (w - b)
unfolding prefix_mask
prefix_mask_lem w zero x h =
    let e : w - zero ≡ w = omega arith in rw (e, div-eq_of_lt h) (omega arith)
prefix_mask_lem w (suc b) x h = ground arith

size_of_family : (p : IpPrefix) (f : Family) → p.family ≡ f → size p ≡ 2 ^ (width f - p.bits)
size_of_family p f e = ap (λ (g : Family). 2 ^ (width g - p.bits)) e

contains_parts :
    (p e : IpPrefix)
    → contains p e ≡ true
    → (p.family ≡ e.family) × (prefix_mask (width p.family) p.bits e.network ≡ p.network)
unfolding contains
contains_parts p e h = (same_family→eq _ _ (ground arith), ==→eq _ _ (ground arith))

pub contains→Covers : (p e : IpPrefix) → IsPrefix e → contains p e ≡ true → Covers p (base e)
contains→Covers p e we h =
    let q = contains_parts p e h in
    let x<w : e.network < 2 ^ width p.family = rw q.0 we.network_bound in
    let m = sym (prefix_mask_lem (width p.family) p.bits e.network x<w) ∙ q.1 in
    (
      q.0,
      omega (arith, m, div-mul-le_self e.network (size p)),
      omega (arith, m, lt-div-mul-add {a = e.network} (pow-pos (width p.family - p.bits))),
    )

pub Covers→contains :
    (p e : IpPrefix) → IsPrefix p → IsPrefix e → Covers p (base e) → contains p e ≡ true
unfolding contains
Covers→contains p e wp we h =
    let x<w : e.network < 2 ^ width p.family = rw h.0 we.network_bound in
    let m =
      prefix_mask_lem (width p.family) p.bits e.network x<w
      ∙ block_unique (size p) e.network p.network (pow-pos _) wp.aligned h.1 h.2 in
    rw (eq→same_family _ _ h.0, m) (eq→== _ _ refl)

-- Two prefixes that share an address are nested.
pub overlap_nested :
    (p e : IpPrefix) (a : Address)
    → IsPrefix p
    → IsPrefix e
    → p.bits ≤ e.bits
    → Covers p a
    → Covers e a
    → (p.network ≤ e.network) × (e.network + size e ≤ p.network + size p)
overlap_nested p e a wp we h cp ce =
    let f : e.family ≡ p.family = ce.0 ∙ sym cp.0 in
    let s = size_of_family e p.family f in
    let al : e.network % 2 ^ (width p.family - e.bits) ≡ 0 = rw (← s) we.aligned in
    let eb : e.bits ≤ width p.family = rw (← f) we.bits_bound in
    let r =
      prefix_nested (width p.family) p.bits e.bits p.network e.network a.value h eb wp.aligned al
        cp.1 cp.2 ce.1 (omega (arith, s)) in
    (r.0, omega (arith, s))
