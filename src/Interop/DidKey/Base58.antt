-- ===== src/Interop/DidKey/Base58.antt =====
-- About `base58btc_encode` and `base58btc_decode` of crates/aion-trust-interop/src/didkey.rs, together.
use mathlib.Core.List.{reverse-reverse}
use aion_trust.Prelude.{
  ℕ, zero, suc, ◌≤◌, ◌<◌, ◌≡◌, refl, sym, ap, ap₂, subst, ◌∙◌, inl, inr, Bool, true, false, not,
  ◌&&◌, ◌||◌, false≢true, Option, none, some, List, [], ◌∷◌, ◌++◌, map, reverse, append-nil,
  reverse-append, arith, ◌==◌, ==_iff, Bool-cases, &&-eq-true, get_or, replicate, All, All-append,
  Bytes, AreBytes, not-eq-true, >>=-ok, ok,
}
use aion_trust.Interop.DidKey.{
  alphabet, leading, absorb_all, base58btc_encode, index_from, base58_values, base58btc_decode,
}
use aion_trust.Interop.DidKey.Radix.{
  value, big, IsCanonical, value-absorb_all, absorb_all-IsCanonical, IsCanonical-unique,
  IsCanonical-snoc, IsCanonical-top, IsCanonical-All, big-value, big_zeros,
}

abbrev pub char_of : ℕ → ℕ
char_of d = get_or alphabet d 0

abbrev is_index : Option ℕ → ℕ → Bool
is_index none d = false
is_index (some k) d = k == d

-- What holds of all the characters, by going through them.
abbrev is_indexed : ℕ → Bool
is_indexed d = is_index (index_from 0 (char_of d) alphabet) d

abbrev is_no_hash : ℕ → Bool
is_no_hash d = not (char_of d == 35)

abbrev is_one_last : ℕ → Bool
is_one_last d = d == 0 || not (char_of d == 49)

abbrev all_below : (ℕ → Bool) → ℕ → Bool
all_below p zero = true
all_below p (suc n) = p n && all_below p n

all_below-true : (p : ℕ → Bool) (n d : ℕ) → all_below p n ≡ true → d < n → p d ≡ true
all_below-true p zero d h lt = absurd (omega (arith, lt))
all_below-true p (suc n) d h lt =
    let (last, before) = &&-eq-true (p n) (all_below p n) h in
    elim (Bool-cases (d == n)) [
      | inl same ↦ ap p ((==_iff d n).0 same) ∙ last
      | inr other ↦ all_below-true p n d before (ground (arith, other, lt))
    ]

indexed_test : all_below is_indexed 58 ≡ true
unfolding index_from
indexed_test = refl

no_hash_test : all_below is_no_hash 58 ≡ true
no_hash_test = refl

one_last_test : all_below is_one_last 58 ≡ true
one_last_test = refl

is_index-true : (o : Option ℕ) (d : ℕ) → is_index o d ≡ true → o ≡ some d
is_index-true none d h = absurd (false≢true h)
is_index-true (some k) d h = ap some ((==_iff k d).0 h)

index_from-char_of : (d : ℕ) → d < 58 → index_from 0 (char_of d) alphabet ≡ some d
index_from-char_of d h =
    is_index-true (index_from 0 (char_of d) alphabet) d
      (all_below-true is_indexed 58 d indexed_test h)

pub char_of-hash : (d : ℕ) → d < 58 → (char_of d == 35) ≡ false
char_of-hash d h = not-eq-true (char_of d == 35) (all_below-true is_no_hash 58 d no_hash_test h)

zero_or_not : (b : Bool) (d : ℕ) → 1 ≤ d → (d == 0 || not b) ≡ true → b ≡ false
zero_or_not true d positive h = ground (arith, positive, h)
zero_or_not false d positive h = refl

char_of-one : (d : ℕ) → d < 58 → 1 ≤ d → (char_of d == 49) ≡ false
char_of-one d h positive =
    zero_or_not (char_of d == 49) d positive (all_below-true is_one_last 58 d one_last_test h)

base58_values-map : (ds : List ℕ) → All (λ d. d < 58) ds → base58_values (map char_of ds) ≡ ok ds
unfolding base58_values
base58_values-map [] h = refl
base58_values-map (d ∷ ds) (hd, h) = rw (index_from-char_of d hd, base58_values-map ds h) refl

zeros-map :
    (z : ℕ) (ds : List ℕ) → replicate z 49 ++ map char_of ds ≡ map char_of (replicate z 0 ++ ds)
unfolding replicate
zeros-map zero ds = refl
zeros-map (suc z) ds = ap (λ t. 49 ∷ t) (zeros-map z ds)

All-zeros : (z : ℕ) (ds : List ℕ) → All (λ d. d < 58) ds → All (λ d. d < 58) (replicate z 0 ++ ds)
unfolding replicate
All-zeros zero ds h = h
All-zeros (suc z) ds h = (omega arith, All-zeros z ds h)

-- No digits, or a greatest one that is not zero.
abbrev IsTrimmed : List ℕ → Type 0
IsTrimmed [] = Unit
IsTrimmed (d ∷ ds) = 1 ≤ d

leading-zeros :
    (z : ℕ) (ds : List ℕ)
    → IsTrimmed ds
    → All (λ d. d < 58) ds
    → leading 49 (replicate z 49 ++ map char_of ds) ≡ z
unfolding leading replicate
leading-zeros zero [] t h = refl
leading-zeros zero (d ∷ ds) t (hd, h) = rw (char_of-one d hd t) refl
leading-zeros (suc z) ds t h = ap suc (leading-zeros z ds t h)

leading_split :
    (bs : Bytes) → (rest : Bytes) × (bs ≡ replicate (leading 0 bs) 0 ++ rest) × IsTrimmed rest
unfolding leading replicate
leading_split [] = ([], refl, tt)
leading_split (b ∷ bs) = elim (Bool-cases (b == 0)) [
  | inl is_zero ↦
      let (rest, same, t) = leading_split bs in
      (rest, rw is_zero (ap₂ (λ x xs. x ∷ xs) ((==_iff b 0).0 is_zero) same), t)
  | inr positive ↦ (b ∷ bs, rw positive refl, ground (arith, positive))
]

All-reverse : (xs : List ℕ) (n : ℕ) → All (λ d. d < n) xs → All (λ d. d < n) (reverse xs)
All-reverse [] n h = tt
All-reverse (x ∷ xs) n (hx, h) =
    subst (All (λ d. d < n)) (sym (reverse-append (x ∷ []) xs))
      (All-append (λ d. d < n) (reverse xs) (x ∷ []) (All-reverse xs n h) (hx, tt))

-- Digits read from the top, and back.
canonical_top : (base : ℕ) → 2 ≤ base → (ds : List ℕ) → IsCanonical base (reverse ds) → IsTrimmed ds
canonical_top base large [] can = tt
canonical_top base large (d ∷ ds) can =
    IsCanonical-top base large (reverse ds) d
      (subst (IsCanonical base) (reverse-append (d ∷ []) ds) can)

trimmed-IsCanonical :
    (base : ℕ)
    → 2 ≤ base
    → (ds : List ℕ) → All (λ d. d < base) ds
    → IsTrimmed ds
    → IsCanonical base (reverse ds)
trimmed-IsCanonical base large [] h t = tt
trimmed-IsCanonical base large (d ∷ ds) (hd, h) t =
    subst (IsCanonical base) (sym (reverse-append (d ∷ []) ds))
      (IsCanonical-snoc base large (reverse ds) d (All-reverse ds base h) t hd)

All-after :
    (z : ℕ) (ds : List ℕ) (n : ℕ) → All (λ d. d < n) (replicate z 0 ++ ds) → All (λ d. d < n) ds
unfolding replicate
All-after zero ds n h = h
All-after (suc z) ds n (h0, h) = All-after z ds n h

-- Decoding what was encoded gives the bytes back, for any bytes, with their leading zeros.
pub base58btc_decode-base58btc_encode :
    (input : Bytes) → AreBytes input → base58btc_decode (base58btc_encode input) ≡ ok input
unfolding base58btc_encode base58btc_decode value
base58btc_decode-base58btc_encode input bytes =
    let z = leading 0 input in
    let (rest, split, trimmed) = leading_split input in
    let digits = absorb_all 256 58 [] input in
    let tops = reverse digits in
    let again : reverse tops ≡ digits = reverse-reverse digits in
    let can = absorb_all-IsCanonical 58 (omega arith) 256 [] input (omega arith) tt in
    let can_tops = subst (IsCanonical 58) (sym again) can in
    let small = All-reverse digits 58 (IsCanonical-All 58 (omega arith) digits can) in
    let top = canonical_top 58 (omega arith) tops can_tops in
    let read =
      ap base58_values (zeros-map z tops)
      ∙ base58_values-map (replicate z 0 ++ tops) (All-zeros z tops small) in
    let out = absorb_all 58 256 [] (replicate z 0 ++ tops) in
    let can_out =
      absorb_all-IsCanonical 256 (omega arith) 58 [] (replicate z 0 ++ tops) (omega arith) tt in
    let can_rest =
      trimmed-IsCanonical 256 (omega arith) rest (All-after z rest 256 (subst AreBytes split bytes))
        trimmed in
    let number : value 256 out ≡ value 256 (reverse rest) =
      value-absorb_all 256 (omega arith) 58 [] (replicate z 0 ++ tops)
      ∙ big_zeros 58 (omega arith) z tops
      ∙ big-value 58 (omega arith) tops []
      ∙ ap (value 58) (append-nil (reverse tops) ∙ again)
      ∙ value-absorb_all 58 (omega arith) 256 [] input
      ∙ ap (big 256 0) split
      ∙ big_zeros 256 (omega arith) z rest
      ∙ big-value 256 (omega arith) rest []
      ∙ ap (value 256) (append-nil (reverse rest)) in
    let same : out ≡ reverse rest =
      IsCanonical-unique 256 (omega arith) out (reverse rest) can_out can_rest number in
    >>=-ok (base58_values (replicate z 49 ++ map char_of tops)) _ read
    ∙ ap ok (
        ap₂ (λ n bs. replicate n 0 ++ reverse bs) (leading-zeros z tops top small) same
        ∙ ap (λ bs. replicate z 0 ++ bs) (reverse-reverse rest)
        ∙ sym split)

-- The characters of a text that was encoded.
pub base58btc_encode-chars :
    (input : Bytes)
    → (ds : List ℕ) × (base58btc_encode input ≡ map char_of ds) × All (λ d. d < 58) ds
unfolding base58btc_encode
base58btc_encode-chars input =
    let z = leading 0 input in
    let digits = absorb_all 256 58 [] input in
    let can = absorb_all-IsCanonical 58 (omega arith) 256 [] input (omega arith) tt in
    let small = All-reverse digits 58 (IsCanonical-All 58 (omega arith) digits can) in
    (
      replicate z 0 ++ reverse digits,
      zeros-map z (reverse digits),
      All-zeros z (reverse digits) small,
    )
