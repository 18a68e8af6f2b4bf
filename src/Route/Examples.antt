-- ===== src/Route/Examples.antt =====
-- The route theorems at concrete prefixes: 10.0.0.0/8 without 10.1.0.0/16, and the address 10.2.0.1.
use h_openconnect.Base.{◌*◌, ◌^◌, ◌+◌, refl, arith, ◌↔◌, All, [], ◌∷◌}
use h_openconnect.Route.Prefix.{IpPrefix, v4, subtract}
use h_openconnect.Route.Prefix.Covers.{Address, Covers, IsPrefix}
use h_openconnect.Route.Prefix.Subtract.{CoversAny, subtract-Covers, subtract-IsPrefix}
use h_openconnect.Route.Exclusion.{materialize}
use h_openconnect.Route.Exclusion.Semantics.{Routed, materialize-Routed}

abbrev ten_8 : IpPrefix
ten_8 = record { family = v4; network = 10 * 2 ^ 24; bits = 8 }

abbrev ten_1_16 : IpPrefix
ten_1_16 = record { family = v4; network = 10 * 2 ^ 24 + 2 ^ 16; bits = 16 }

abbrev ten_2_0_1 : Address
ten_2_0_1 = record { family = v4; value = 10 * 2 ^ 24 + 2 * 2 ^ 16 + 1 }

ten_8-IsPrefix : IsPrefix ten_8
ten_8-IsPrefix = record { bits_bound = omega arith; aligned = refl; network_bound = omega arith }

ten_1_16-IsPrefix : IsPrefix ten_1_16
ten_1_16-IsPrefix = record { bits_bound = omega arith; aligned = refl; network_bound = omega arith }

subtract-Covers_example :
    CoversAny (subtract ten_8 ten_1_16) ten_2_0_1
    ↔ (Covers ten_8 ten_2_0_1 × ¬ Covers ten_1_16 ten_2_0_1)
subtract-Covers_example = subtract-Covers ten_8 ten_1_16 ten_2_0_1 ten_8-IsPrefix ten_1_16-IsPrefix

subtract-IsPrefix_example : All IsPrefix (subtract ten_8 ten_1_16)
subtract-IsPrefix_example = subtract-IsPrefix ten_8 ten_1_16 ten_8-IsPrefix ten_1_16-IsPrefix

materialize-Routed_example :
    CoversAny (materialize (ten_8 ∷ []) (ten_1_16 ∷ [])) ten_2_0_1
    ↔ Routed (ten_8 ∷ []) (ten_1_16 ∷ []) ten_2_0_1
materialize-Routed_example =
    materialize-Routed (ten_8 ∷ []) (ten_1_16 ∷ []) ten_2_0_1 (ten_8-IsPrefix, tt)
      (ten_1_16-IsPrefix, tt)
