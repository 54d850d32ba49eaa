-- ===== src/Registry/Accredited.antt =====
-- About `is_accredited` and `valid_endorsements` of crates/aion-trust-registry/src/lib.rs.
use aion_trust.Prelude.{
  ℕ, zero, suc, ◌≤◌, ◌≡◌, refl, sym, ap, ◌∙◌, inl, inr, Bool, true, false, not, ◌&&◌, some, List,
  [], ◌∷◌, ◌++◌, append_assoc, arith, if◌then◌else◌, Bool-cases, Option-cases, &&-eq-true, length,
  get_elem?, All, any, get_elem?-middle, Bytes, Text, bytes_eq→eq, contains, Result-cases,
  not-eq-true, ok,
}
use aion_trust.Prelude.Map.{get}
use aion_trust.Crypto.{Crypto, CryptoLaws}
use aion_trust.Encoding.Hex.{to_hex, decode_array}
use aion_trust.Encoding.Hex.RoundTrip.{decode_array-to_hex}
use aion_trust.Identity.{Did, identity_did}
use aion_trust.Registry.{
  AccreditorSig, Accreditation, signing_bytes, active_at, PolicyRule, endorse, Registry, endorses,
  distinct_endorsers, valid_endorsements, accredits, is_accredited,
}

-- No did stands twice in the list.
abbrev pub Distinct : List Did → Type 0
Distinct [] = Unit
Distinct (d ∷ ds) = (contains ds d ≡ false) × Distinct ds

pub any-get_elem? {ℓ} :
    {A : Type ℓ} (q : A → Bool) (xs : List A)
    → any q xs ≡ true
    → (i : ℕ) × (x : A) × (get_elem? xs i ≡ some x) × (q x ≡ true)
any-get_elem? q [] h = cc
any-get_elem? q (x ∷ xs) h = elim (Bool-cases (q x)) [
  | inl here ↦ (zero, x, refl, here)
  | inr other ↦ let (i, y, at, e) = any-get_elem? q xs (rw other at h) in (suc i, y, at, e)
]

module _ (c : Crypto) where
  -- One accreditor's endorsement of the message `bytes` that counts: the accreditor is in the
  -- policy, its key is known, and a signature of the record verifies under it.
  pub record Endorsed (r : Registry c) (bytes : Bytes) (rule : PolicyRule)
      (signatures : List AccreditorSig) (d : Did) : Type 0 where
    pub index : ℕ
    pub sig : AccreditorSig
    pub vk : c.VerifyingKey
    pub sig_bytes : Bytes
    pub stands_at : get_elem? signatures index ≡ some sig
    pub by : sig.accreditor ≡ d
    pub in_policy : contains rule.accreditors d ≡ true
    pub known : get d r.accreditor_keys ≡ some vk
    pub decodes : decode_array 64 sig.signature ≡ ok sig_bytes
    pub verifies : c.verify vk bytes sig_bytes ≡ true

  module _ (r : Registry c) (bytes : Bytes) (rule : PolicyRule) where
    endorses-Endorsed :
        (signatures : List AccreditorSig) (i : ℕ) (sig : AccreditorSig)
        → get_elem? signatures i ≡ some sig
        → endorses c r bytes rule sig ≡ true
        → Endorsed r bytes rule signatures sig.accreditor
    unfolding endorses
    endorses-Endorsed signatures i sig at h =
        elim (Option-cases (get sig.accreditor r.accreditor_keys)) [
          | inl unknown ↦ absurd (ground arith)
          | inr (vk, known) ↦ elim (Result-cases (decode_array 64 sig.signature)) [
            | inr (e, bad) ↦ absurd (ground arith)
            | inl (s, good) ↦ record {
              index = i;
              sig = sig;
              vk = vk;
              sig_bytes = s;
              stands_at = at;
              by = refl;
              in_policy = ground arith;
              known = known;
              decodes = good;
              verifies = ground arith;
            }
          ]
        ]

    -- Nothing leaves the set, and what enters is endorsed.
    counted_sound :
        (all_sigs done signatures : List AccreditorSig) (distinct : List Did)
        → all_sigs ≡ done ++ signatures
        → Distinct distinct
        → All (Endorsed r bytes rule all_sigs) distinct
        → Distinct (distinct_endorsers c r bytes rule signatures distinct)
          × All
              (Endorsed r bytes rule all_sigs)
              (distinct_endorsers c r bytes rule signatures distinct)
    unfolding distinct_endorsers
    counted_sound all_sigs done [] distinct e d h = (d, h)
    counted_sound all_sigs done (sig ∷ signatures) distinct e d h =
        let e' = e ∙ sym (append_assoc done (sig ∷ []) signatures) in
        elim (Bool-cases (not (contains distinct sig.accreditor) && endorses c r bytes rule sig)) [
          | inr skipped ↦
              rw skipped (counted_sound all_sigs (done ++ sig ∷ []) signatures distinct e' d h)
          | inl counted ↦
              let (new, good) = &&-eq-true _ _ counted in
              let at =
                ap (λ l. get_elem? l (length done)) e ∙ get_elem?-middle done sig signatures in
              rw counted (
                counted_sound all_sigs (done ++ sig ∷ []) signatures (sig.accreditor ∷ distinct) e'
                  (not-eq-true _ new, d) (endorses-Endorsed all_sigs (length done) sig at good, h))
        ]

  accredits_parts :
      (r : Registry c) (issuer : Did) (category : Text) (rule : PolicyRule) (a : Accreditation)
      → accredits c r issuer category rule a ≡ true
      → (a.issuer_id ≡ issuer)
        × (a.category ≡ category)
        × (active_at a r.epoch ≡ true)
        × (rule.k ≤ length (distinct_endorsers c r (signing_bytes a) rule a.signatures []))
  unfolding accredits valid_endorsements
  accredits_parts r issuer category rule a h =
      (bytes_eq→eq _ _ (ground arith), bytes_eq→eq _ _ (ground arith), ground arith, ground arith)

  -- What accreditation of an issuer for a category comes to.
  pub record IsAccredited (r : Registry c) (issuer : Did) (category : Text) : Type 0 where
    pub rule : PolicyRule
    pub index : ℕ
    pub accreditation : Accreditation
    pub endorsers : List Did
    pub required : get category r.policy ≡ some rule
    pub held : get_elem? r.accreditations index ≡ some accreditation
    pub for_issuer : accreditation.issuer_id ≡ issuer
    pub for_category : accreditation.category ≡ category
    pub active : active_at accreditation r.epoch ≡ true
    pub enough : rule.k ≤ length endorsers
    pub distinct : Distinct endorsers
    pub endorsed :
        All (Endorsed r (signing_bytes accreditation) rule accreditation.signatures) endorsers

  -- An accredited issuer has a record for the category, active at the registry's epoch, endorsed by
  -- at least K distinct accreditors of the category's policy: each has a known key, and a signature
  -- in the record over the record's content that verifies under it.
  pub is_accredited_sound :
      (r : Registry c) (issuer : Did) (category : Text)
      → is_accredited c r issuer category ≡ true
      → IsAccredited r issuer category
  unfolding is_accredited
  is_accredited_sound r issuer category h = elim (Option-cases (get category r.policy)) [
    | inl none_required ↦ absurd (ground arith)
    | inr (rule, required) ↦
        let (i, a, at, e) =
          any-get_elem? (accredits c r issuer category rule) r.accreditations
            (rw (required, is_accredited) at h) in
        let (p1, p2, p3, p4) = accredits_parts r issuer category rule a e in
        let (d, good) =
          counted_sound r (signing_bytes a) rule a.signatures [] a.signatures [] refl tt tt in
        record {
          rule = rule;
          index = i;
          accreditation = a;
          endorsers = distinct_endorsers c r (signing_bytes a) rule a.signatures [];
          required = required;
          held = at;
          for_issuer = p1;
          for_category = p2;
          active = p3;
          enough = p4;
          distinct = d;
          endorsed = good;
        }
  ]

  -- The signature that `endorse` adds.
  abbrev honest_sig : Accreditation → c.SigningKey → AccreditorSig
  honest_sig a id = record {
    accreditor = identity_did c id;
    signature = to_hex (c.sign id (signing_bytes a));
  }

  signing_bytes-endorse :
      (a : Accreditation) (id : c.SigningKey) → signing_bytes (endorse c id a) ≡ signing_bytes a
  unfolding endorse signing_bytes
  signing_bytes-endorse a id = refl

  distinct_endorsers-append :
      (r : Registry c) (bytes : Bytes) (rule : PolicyRule) (sigs : List AccreditorSig)
      (sig : AccreditorSig) (distinct : List Did)
      → distinct_endorsers c r bytes rule (sigs ++ sig ∷ []) distinct ≡ (
          if not (contains (distinct_endorsers c r bytes rule sigs distinct) sig.accreditor)
            && endorses c r bytes rule sig
          then sig.accreditor ∷ distinct_endorsers c r bytes rule sigs distinct
          else distinct_endorsers c r bytes rule sigs distinct)
  unfolding distinct_endorsers
  distinct_endorsers-append r bytes rule [] sig distinct = refl
  distinct_endorsers-append r bytes rule (s ∷ sigs) sig distinct =
      distinct_endorsers-append r bytes rule sigs sig (
        if not (contains distinct s.accreditor) && endorses c r bytes rule s
        then s.accreditor ∷ distinct
        else distinct)

  honest_endorses :
      (laws : CryptoLaws c) (r : Registry c) (a : Accreditation) (rule : PolicyRule)
      (id : c.SigningKey)
      → contains rule.accreditors (identity_did c id) ≡ true
      → get (identity_did c id) r.accreditor_keys ≡ some (c.verifying_key id)
      → endorses c r (signing_bytes a) rule (honest_sig a id) ≡ true
  unfolding endorses
  honest_endorses laws r a rule id listed known =
      let m = signing_bytes a in
      ground (
        arith,
        listed,
        known,
        decode_array-to_hex 64 (laws.sign-IsArray id m),
        laws.verify-sign id m,
      )

  counted_once :
      (laws : CryptoLaws c) (r : Registry c) (a : Accreditation) (rule : PolicyRule)
      (id : c.SigningKey)
      → contains rule.accreditors (identity_did c id) ≡ true
      → get (identity_did c id) r.accreditor_keys ≡ some (c.verifying_key id)
      → contains (distinct_endorsers c r (signing_bytes a) rule a.signatures []) (identity_did c id)
        ≡ false
      → distinct_endorsers c r (signing_bytes a) rule (a.signatures ++ honest_sig a id ∷ []) []
        ≡ identity_did c id ∷ distinct_endorsers c r (signing_bytes a) rule a.signatures []
  counted_once laws r a rule id listed known fresh =
      distinct_endorsers-append r (signing_bytes a) rule a.signatures (honest_sig a id) []
      ∙ rw (fresh, honest_endorses laws r a rule id listed known)

  -- An honest endorsement counts: an accreditor of the policy with a registered key, not counted
  -- before, adds one to the valid endorsements of a record.
  pub valid_endorsements-endorse :
      (laws : CryptoLaws c) (r : Registry c) (a : Accreditation) (rule : PolicyRule)
      (id : c.SigningKey)
      → contains rule.accreditors (identity_did c id) ≡ true
      → get (identity_did c id) r.accreditor_keys ≡ some (c.verifying_key id)
      → contains (distinct_endorsers c r (signing_bytes a) rule a.signatures []) (identity_did c id)
        ≡ false
      → valid_endorsements c r (endorse c id a) rule ≡ suc (valid_endorsements c r a rule)
  unfolding valid_endorsements endorse
  valid_endorsements-endorse laws r a rule id listed known fresh =
      let sig = honest_sig a id in
      ap (λ bytes. length (distinct_endorsers c r bytes rule (a.signatures ++ sig ∷ []) []))
        (signing_bytes-endorse a id)
      ∙ ap length (counted_once laws r a rule id listed known fresh)
