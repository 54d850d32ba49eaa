-- ===== src/Json.antt =====
-- JSON values and their canonical form, as an interface: `serde_json::Value` with the conversions
-- that the source calls, `aion_context::jcs::to_jcs_bytes`, and `f64`.
pub mod Toy
use aion_trust.Prelude.{ℕ, Ordering, Bool, Option, List, Bytes, Text}
use aion_trust.Prelude.Int.{ℤ}

pub record Json : Type 1 where
  pub Value : Type 0
  pub Float : Type 0
  -- what `serde_json::to_value` makes of `None`, a string, a bool, a `u8` and a vector of strings
  pub null : Value
  pub string : Text → Value
  pub boolean : Bool → Value
  pub number : ℕ → Value
  pub strings : List Text → Value
  -- `aion_context::jcs::to_jcs_bytes`
  pub to_jcs_bytes : Value → Option Bytes
  -- `Value::{as_i64, as_f64, as_str}` and `f64::partial_cmp`
  pub as_i64 : Value → Option ℤ
  pub as_f64 : Value → Option Float
  pub as_str : Value → Option Text
  pub partial_cmp : Float → Float → Option Ordering
