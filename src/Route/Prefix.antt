-- ===== src/Route/Prefix.antt =====
-- `IpPrefix` of crates/hopenconnect_core/src/model.rs: prefixes of either address family, their
-- masks, containment, and the subtraction of one prefix from another.
pub mod Blocks
pub mod Covers
pub mod Subtract
use h_openconnect.Base.{
  ℕ, zero, suc, ◌+◌, ◌-◌, ◌*◌, ◌/◌, ◌%◌, ◌^◌, Bool, true, false, ◌&&◌, not, List, [], ◌∷◌, ◌++◌,
  leb, ◌==◌, if◌then◌else◌,
}

-- The two variants carry the same fields at the widths 32 and 128.
pub data Family : Type 0 where
  v4 v6 : Family

pub record IpPrefix : Type 0 where
  pub family : Family
  pub network : ℕ
  pub bits : ℕ

abbrev pub width : Family → ℕ
width v4 = 32
width v6 = 128

abbrev pub same_family : Family → Family → Bool
same_family v4 v4 = true
same_family v6 v6 = true
same_family _ _ = false

-- `value & (MAX << (width - bits))`: the mask has its `bits` highest bits set, so the conjunction
-- clears the `width - bits` lowest; at `bits = 0` the mask is 0.
unfoldable pub prefix_mask : ℕ → ℕ → ℕ → ℕ
prefix_mask w bits value = if bits == 0 then 0 else value / 2 ^ (w - bits) * 2 ^ (w - bits)

-- `value | 1 << k`.
unfoldable pub set_bit : ℕ → ℕ → ℕ
set_bit k value = if value / 2 ^ k % 2 == 1 then value else value + 2 ^ k

unfoldable pub contains : IpPrefix → IpPrefix → Bool
contains p other =
    same_family p.family other.family
    && prefix_mask (width p.family) p.bits other.network == p.network

unfoldable pub left_child : IpPrefix → IpPrefix
left_child p = record p { bits = p.bits + 1 }

unfoldable pub right_child : IpPrefix → IpPrefix
right_child p = record p {
  network = set_bit (width p.family - (p.bits + 1)) p.network;
  bits = p.bits + 1;
}

unfoldable pub children : IpPrefix → IpPrefix × IpPrefix
children p = (left_child p, right_child p)

-- The body of `subtract`, its recursive call passed in.
abbrev pub carve : (IpPrefix → List IpPrefix) → IpPrefix → IpPrefix → List IpPrefix
carve rec exclusion child = if contains child exclusion then rec child else child ∷ []

-- `subtract` on fuel. A call that runs out returns its prefix whole.
unfoldable pub subtract_fuel : ℕ → IpPrefix → IpPrefix → List IpPrefix
subtract_fuel zero p exclusion = p ∷ []
subtract_fuel (suc fuel) p exclusion =
    let rec = λ (child : IpPrefix). subtract_fuel fuel child exclusion in
    if not (same_family p.family exclusion.family)
    then p ∷ []
    else if leb exclusion.bits p.bits && contains exclusion p
    then []
    else if not (contains p exclusion)
    then p ∷ []
    else (let (left, right) = children p in carve rec exclusion left ++ carve rec exclusion right)

-- Each call adds a bit, and prefixes have at most 128.
abbrev pub subtract_depth : ℕ
subtract_depth = 129

unfoldable pub subtract : IpPrefix → IpPrefix → List IpPrefix
subtract p exclusion = subtract_fuel subtract_depth p exclusion
