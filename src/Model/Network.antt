-- ===== src/Model/Network.antt =====
-- `SessionStats` and `NetworkSnapshot` of crates/hopenconnect_core/src/model.rs.
use h_openconnect.Base.{ℕ, Text, Option, List}
use h_openconnect.Base.Int.{ℤ}

pub record SessionStats : Type 0 where
  pub bytes_sent : ℕ  -- u64
  pub bytes_received : ℕ  -- u64
  pub packets_sent : ℕ  -- u64
  pub packets_received : ℕ  -- u64
  pub connected_seconds : ℕ  -- u64
  pub assigned_ip : Text
  pub gateway : Text
  pub mtu : ℕ  -- u32

pub record NetworkSnapshot : Type 0 where
  pub address : Option Text
  pub netmask : Option Text
  pub address_v6 : Option Text
  pub netmask_v6 : Option Text
  pub gateway : Option Text
  pub dns : List Text
  pub mtu : ℤ  -- i32
  pub routes : List Text
  pub split_excludes : List Text
  pub domain : Option Text
  pub split_dns : List Text
