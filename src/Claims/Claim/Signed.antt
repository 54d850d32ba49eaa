-- ===== src/Claims/Claim/Signed.antt =====
-- About `signing_bytes` of crates/aion-trust-claims/src/claim.rs.
use aion_trust.Prelude.{
  ℕ, ◌^◌, ◌<◌, ◌≡◌, refl, sym, ap, ◌∙◌, Option, none, some, List, [], ◌∷◌, arith, length, All,
  Bytes, Text, codes,
}
use aion_trust.Prelude.Int.{IsInt64, IsInt64}
use aion_trust.Encoding.Words.{
  be_bytes, i64_bits, length-be_bytes, be_bytes_4-injective, be_bytes_i64-injective,
}
use aion_trust.Encoding.Writer.{new, int, u32, into_bytes}
use aion_trust.Encoding.Writer.Injective.{Fits, write_all, into_bytes-injective}
use aion_trust.Identity.{Did, Timestamp}
use aion_trust.Claims.Claim.{claim_domain, Validity, ClaimCommit, write_until, signing_bytes}

-- What an issuer signs, before it is encoded.
pub record Statement : Type 0 where
  pub subject : Did
  pub issuer : Did
  pub category : Text
  pub schema_id : Text
  pub validity : Validity
  pub commit : ClaimCommit

abbrev pub encode : Statement → Bytes
encode s = signing_bytes s.subject s.issuer s.category s.schema_id s.validity s.commit

abbrev IsUntil : Option Timestamp → Type 0
IsUntil none = Unit
IsUntil (some t) = IsInt64 t

-- Texts and roots are shorter than 2^32 bytes, times are of an `i64`, counts of a `u32`.
pub record IsSignable (s : Statement) : Type 0 where
  pub texts : All Fits (s.subject ∷ s.issuer ∷ s.category ∷ s.schema_id ∷ [])
  pub from : IsInt64 s.validity.from
  pub until : IsUntil s.validity.until
  pub roots : All Fits (s.commit.body_root ∷ s.commit.reliance_root ∷ [])
  pub field_count : s.commit.field_count < 2 ^ 32
  pub reliance_count : s.commit.reliance_count < 2 ^ 32

abbrev time : Timestamp → Bytes
time t = be_bytes 8 (i64_bits t)

abbrev commit_parts : ClaimCommit → List Bytes
commit_parts k =
    k.body_root ∷ be_bytes 4 k.field_count ∷ k.reliance_root ∷ be_bytes 4 k.reliance_count ∷ []

abbrev until_parts : Option Timestamp → List Bytes → List Bytes
until_parts (some t) rest = codes "until" ∷ time t ∷ rest
until_parts none rest = codes "open" ∷ rest

abbrev parts : Statement → List Bytes
parts s =
    s.subject
    ∷ s.issuer
    ∷ s.category
    ∷ s.schema_id
    ∷ time s.validity.from
    ∷ until_parts s.validity.until (commit_parts s.commit)

encode_until :
    (s : Statement) (u : Option Timestamp)
    → s.validity.until ≡ u
    → encode s ≡ into_bytes (write_all (parts s) (new claim_domain))
unfolding signing_bytes int u32 write_until
encode_until s none e = rw e refl
encode_until s (some t) e = rw e refl

encode-parts : (s : Statement) → encode s ≡ into_bytes (write_all (parts s) (new claim_domain))
encode-parts s = encode_until s s.validity.until refl

be_bytes-Fits : (w n : ℕ) → w < 2 ^ 32 → Fits (be_bytes w n)
be_bytes-Fits w n h = omega (arith, h, length-be_bytes w n)

commit_parts-Fits : (s : Statement) → IsSignable s → All Fits (commit_parts s.commit)
commit_parts-Fits s h = (
  h.roots.0,
  (
    be_bytes-Fits 4 s.commit.field_count (omega arith),
    (h.roots.1.0, (be_bytes-Fits 4 s.commit.reliance_count (omega arith), tt)),
  ),
)

until_parts-Fits :
    (u : Option Timestamp) (rest : List Bytes) → All Fits rest → All Fits (until_parts u rest)
until_parts-Fits none rest h = (omega arith, h)
until_parts-Fits (some t) rest h = (omega arith, (be_bytes-Fits 8 (i64_bits t) (omega arith), h))

parts-Fits : (s : Statement) → IsSignable s → All Fits (parts s)
parts-Fits s h =
    let (a, (b, (d, (e, done)))) = h.texts in
    (
      a,
      (
        b,
        (
          d,
          (
            e,
            (
              be_bytes-Fits 8 (i64_bits s.validity.from) (omega arith),
              until_parts-Fits s.validity.until _ (commit_parts-Fits s h),
            ),
          ),
        ),
      ),
    )

until_same :
    (u v : Option Timestamp) (k l : ClaimCommit)
    → IsUntil u
    → IsUntil v
    → until_parts u (commit_parts k) ≡ until_parts v (commit_parts l)
    → (u ≡ v) × (commit_parts k ≡ commit_parts l)
until_same none none k l hu hv e = (refl, cc e)
until_same (some t) (some w) k l hu hv e = (ap some (be_bytes_i64-injective t w hu hv (cc e)), cc e)
until_same none (some w) k l hu hv e = absurd (omega (arith, ap length e))
until_same (some t) none k l hu hv e = absurd (omega (arith, ap length e))

commit_same :
    (k l : ClaimCommit)
    → k.field_count < 2 ^ 32
    → l.field_count < 2 ^ 32
    → k.reliance_count < 2 ^ 32
    → l.reliance_count < 2 ^ 32
    → commit_parts k ≡ commit_parts l
    → k ≡ l
commit_same k l a b d f e =
    let fields = be_bytes_4-injective k.field_count l.field_count a b (cc e) in
    let relied = be_bytes_4-injective k.reliance_count l.reliance_count d f (cc e) in
    cc (fields, relied, e)

-- The signature of an issuer covers everything: from the same signing bytes it follows that the
-- subject, the issuer, the category, the schema, the validity and the commitment are the same.
-- Texts and roots are shorter than 2^32 bytes, times are of an `i64` and counts of a `u32`.
pub signing_bytes-injective :
    (s t : Statement) → IsSignable s → IsSignable t → encode s ≡ encode t → s ≡ t
signing_bytes-injective s t hs ht e =
    let (tag, same) =
      into_bytes-injective claim_domain claim_domain (parts s) (parts t)
        (omega arith, parts-Fits s hs) (omega arith, parts-Fits t ht)
        (sym (encode-parts s) ∙ e ∙ encode-parts t) in
    let from = be_bytes_i64-injective s.validity.from t.validity.from hs.from ht.from (cc same) in
    let (until, commits) =
      until_same s.validity.until t.validity.until s.commit t.commit hs.until ht.until (cc same) in
    let commit =
      commit_same s.commit t.commit hs.field_count ht.field_count hs.reliance_count
        ht.reliance_count commits in
    cc (same, from, until, commit)
