-- ===== src/Claims/Predicate.antt =====
-- crates/aion-trust-claims/src/predicate.rs: predicates over disclosed fields. `label` makes a text
-- for reports and is left out.
use aion_trust.Prelude.{
  ◌+◌, compare, Ordering, Bool, true, false, not, Option, some, if◌then◌else◌, Text, bytes_eq,
  Result, ok_or, ok, err, ◌>>=◌,
}
use aion_trust.Prelude.Int.{ℤ, pos_part, pos_part, neg_part, neg_part}
use aion_trust.Prelude.Map.{less}
use aion_trust.Json.{Json}
use aion_trust.Claims.Reject.{ClaimReject, malformed}

pub data PredicateOp : Type 0 where
  ge le gt lt eq : PredicateOp

unfoldable pub is_less : Ordering → Bool
is_less Ordering.lt = true
is_less _ = false

unfoldable pub is_equal : Ordering → Bool
is_equal Ordering.eq = true
is_equal _ = false

unfoldable pub is_greater : Ordering → Bool
is_greater Ordering.gt = true
is_greater _ = false

-- The `match op` of `evaluate`.
unfoldable pub holds : PredicateOp → Ordering → Bool
unfolding is_less is_equal is_greater
holds ge ord = not (is_less ord)
holds gt ord = is_greater ord
holds le ord = not (is_greater ord)
holds lt ord = is_less ord
holds eq ord = is_equal ord

-- `i64::cmp` and `str::cmp`.
unfoldable pub compare_i64 : ℤ → ℤ → Ordering
compare_i64 a b = compare (pos_part a + neg_part b) (pos_part b + neg_part a)

unfoldable pub compare_str : Text → Text → Ordering
unfolding bytes_eq less
compare_str a b =
    if bytes_eq a b then Ordering.eq else if less a b then Ordering.lt else Ordering.gt

module _ (j : Json) where
  pub record PredicateRequest : Type 0 where
    pub category : Text
    pub field : Text
    pub op : PredicateOp
    pub bound : j.Value
    pub scale_version : Option Text

  -- The three `if let (Some(x), Some(y))` of `compare`.
  unfoldable pub compare_strs : Option Text → Option Text → Result ClaimReject Ordering
  unfolding compare_str
  compare_strs (some x) (some y) = ok (compare_str x y)
  compare_strs _ _ = err malformed

  unfoldable pub compare_floats :
      Option j.Float → Option j.Float → Result ClaimReject Ordering → Result ClaimReject Ordering
  compare_floats (some x) (some y) otherwise = ok_or (j.partial_cmp x y) malformed
  compare_floats _ _ otherwise = otherwise

  unfoldable pub compare_ints :
      Option ℤ → Option ℤ → Result ClaimReject Ordering → Result ClaimReject Ordering
  unfolding compare_i64
  compare_ints (some x) (some y) otherwise = ok (compare_i64 x y)
  compare_ints _ _ otherwise = otherwise

  unfoldable pub compare_values : j.Value → j.Value → Result ClaimReject Ordering
  unfolding compare_ints compare_floats compare_strs
  compare_values a b =
      compare_ints (j.as_i64 a) (j.as_i64 b)
        (compare_floats (j.as_f64 a) (j.as_f64 b) (compare_strs (j.as_str a) (j.as_str b)))

  unfoldable pub evaluate : PredicateOp → j.Value → j.Value → Result ClaimReject Bool
  unfolding compare_values holds
  evaluate op value bound = do ord ← compare_values value bound; ok (holds op ord)
