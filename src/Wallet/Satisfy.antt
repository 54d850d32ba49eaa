-- ===== src/Wallet/Satisfy.antt =====
-- About `Wallet::satisfy` of crates/aion-trust-wallet/src/lib.rs: the answer to predicates that
-- reveals one field for each.
use aion_trust.Prelude.{
  ℕ, suc, ◌≤◌, ◌≡◌, refl, sym, ap, subst, inl, inr, Bool, true, false, false≢true, Option, none,
  some, List, [], ◌∷◌, ◌++◌, append_assoc, arith, Bool-cases, &&-eq-true, length, get_elem?,
  length-append, All, All-append, All-get_elem?, get_elem?-middle, some-injective, Bytes, Text,
  bytes_eq, bytes_eq→eq, contains, Result, ok_or, >>=-eq-ok, ok-injective, ok_or-eq-ok, none≢some,
  map_err_with, map_err_with-eq-ok, >>=-ok, ok, err,
}
use aion_trust.Prelude.Int.{ℤ, ◌≤ℤ◌, ◌≤ℤ◌}
use aion_trust.Crypto.{Crypto, CryptoLaws, IsArray}
use aion_trust.Json.{Json}
use aion_trust.Identity.{Did, Timestamp, plus_seconds}
use aion_trust.Claims.Reject.{ClaimReject}
use aion_trust.Claims.Bodies.{category, field_keys_for_category}
use aion_trust.Claims.Claim.{Claim, field_value}
use aion_trust.Claims.Anchor.{TrustAnchor}
use aion_trust.Claims.Predicate.{PredicateRequest, evaluate}
use aion_trust.Claims.Report.{VerificationReport}
use aion_trust.Claims.Disclosure.{only, DisclosedClaim, disclose}
use aion_trust.Claims.DisclosureVerifier.Selected.{field_keys, disclose-selected_keys}
use aion_trust.Claims.DisclosureVerifier.Total.{disclose-total}
use aion_trust.Claims.Presentation.{Presentation, build_presentation}
use aion_trust.Claims.PresentationVerifier.{min_nonce_len, verify_presentation}
use aion_trust.Claims.PresentationVerifier.Trusted.{IsTrusted}
use aion_trust.Claims.PresentationVerifier.Honest.{verify-build_presentation}
use aion_trust.Wallet.{
  ok_or_false, build_error, unsatisfiable_predicate, fresh_nonce, Wallet, did, value_satisfies,
  satisfies, find_satisfying, satisfy_each, satisfy,
}
use aion_trust.Wallet.Present.{IsHeld, disclose-IsTrusted}

ok_or_false-eq-true : (r : Result ClaimReject Bool) → ok_or_false r ≡ true → r ≡ ok true
unfolding ok_or_false
ok_or_false-eq-true (ok b) h = ap ok h
ok_or_false-eq-true (err e) h = absurd (false≢true h)

module _ (c : Crypto) (laws : CryptoLaws c) (j : Json) where
  -- A held claim of the request's category whose field compares as it asks.
  pub record IsFound (req : PredicateRequest j) (claims : List Claim) (held : Claim) : Type 0 where
    pub index : ℕ
    pub at_index : get_elem? claims index ≡ some held
    pub category_same : category held.body ≡ req.category
    pub value : j.Value
    pub has_field : field_value c j held req.field ≡ some value
    pub compares : evaluate j req.op value req.bound ≡ ok true

  satisfied_value :
      (req : PredicateRequest j) (o : Option j.Value)
      → value_satisfies j req o ≡ true
      → (v : j.Value) × (o ≡ some v) × (evaluate j req.op v req.bound ≡ ok true)
  unfolding value_satisfies
  satisfied_value req none h = absurd (false≢true h)
  satisfied_value req (some v) h = (v, refl, ok_or_false-eq-true (evaluate j req.op v req.bound) h)

  satisfies-IsFound :
      (req : PredicateRequest j) (claims : List Claim) (held : Claim) (i : ℕ)
      → get_elem? claims i ≡ some held
      → satisfies c j req held ≡ true
      → IsFound req claims held
  unfolding satisfies
  satisfies-IsFound req claims held i at h =
      let (same, compares) = &&-eq-true (bytes_eq (category held.body) req.category) _ h in
      let (v, there, holds) = satisfied_value req (field_value c j held req.field) compares in
      record {
        index = i;
        at_index = at;
        category_same = bytes_eq→eq _ _ same;
        value = v;
        has_field = there;
        compares = holds;
      }

  find_satisfying-IsFound_from :
      (req : PredicateRequest j) (done claims : List Claim) {held : Claim}
      → find_satisfying c j req claims ≡ some held
      → IsFound req (done ++ claims) held
  unfolding find_satisfying
  find_satisfying-IsFound_from req done [] e = absurd (none≢some e)
  find_satisfying-IsFound_from req done (x ∷ claims) {held} e =
      elim (Bool-cases (satisfies c j req x)) [
        | inl found ↦
            let same = some-injective (rw found at e) in
            subst (IsFound req (done ++ (x ∷ claims))) same (
              satisfies-IsFound req (done ++ (x ∷ claims)) x (length done)
                (get_elem?-middle done x claims) found)
        | inr other ↦
            subst (λ cs. IsFound req cs held) (append_assoc done (x ∷ []) claims)
              (find_satisfying-IsFound_from req (done ++ x ∷ []) claims (rw other at e))
      ]

  -- The answer to a request: the disclosure of one field of a held claim that satisfies it.
  pub record IsAnswer (w : Wallet c j) (req : PredicateRequest j) (d : DisclosedClaim j)
      : Type 0 where
    pub held : Claim
    pub found : IsFound req w.claims held
    pub disclosed : disclose c j held (only (req.field ∷ [])) ≡ ok d
    pub one_field : field_keys c laws j d.fields ≡ req.field ∷ []

  -- The requests and their answers, one by one.
  abbrev pub AreAnswers : Wallet c j → List (PredicateRequest j) → List (DisclosedClaim j) → Type 0
  AreAnswers w [] [] = Unit
  AreAnswers w [] (d ∷ ds) = ⊥
  AreAnswers w (req ∷ requests) [] = ⊥
  AreAnswers w (req ∷ requests) (d ∷ ds) = IsAnswer w req d × AreAnswers w requests ds

  satisfy_each-AreAnswers :
      (w : Wallet c j) (requests : List (PredicateRequest j)) {ds : List (DisclosedClaim j)}
      → satisfy_each c j w requests ≡ ok ds
      → AreAnswers w requests ds
  unfolding satisfy_each
  satisfy_each-AreAnswers w [] e = subst (AreAnswers w []) (ok-injective e) tt
  satisfy_each-AreAnswers w (req ∷ requests) e =
      let found = find_satisfying c j req w.claims in
      let (held, e1, r1) = >>=-eq-ok (ok_or found (unsatisfiable_predicate req)) _ e in
      let shown = disclose c j held (only (req.field ∷ [])) in
      let (d, e2, r2) = >>=-eq-ok (map_err_with build_error shown) _ r1 in
      let (ds, e3, r3) = >>=-eq-ok (satisfy_each c j w requests) _ r2 in
      let disclosed = map_err_with-eq-ok build_error shown e2 in
      subst (AreAnswers w (req ∷ requests)) (ok-injective r3) (
        record {
          held = held;
          found =
              find_satisfying-IsFound_from req [] w.claims
                (ok_or-eq-ok found (unsatisfiable_predicate req) e1);
          disclosed = disclosed;
          one_field =
              some-injective
                (sym (disclose-selected_keys c laws j held (only (req.field ∷ [])) disclosed));
        },
        satisfy_each-AreAnswers w requests e3,
      )

  -- What `satisfy` presents answers the requests one by one: each disclosed claim comes from a held
  -- claim of the requested category whose field compares as requested, and reveals that field alone.
  pub satisfy-AreAnswers :
      (w : Wallet c j) (audience : Did) (purpose : Text) (requests : List (PredicateRequest j))
      (ttl_seconds : ℤ) (now : Timestamp) (n1 n2 : Bytes) {p : Presentation c j}
      → satisfy c j w audience purpose requests ttl_seconds now (n1, n2) ≡ ok p
      → AreAnswers w requests p.claims
  unfolding satisfy build_presentation
  satisfy-AreAnswers w audience purpose requests ttl_seconds now n1 n2 e =
      let (ds, e1, r1) = >>=-eq-ok (satisfy_each c j w requests) _ e in
      subst (AreAnswers w requests) (ap (λ (p : Presentation c j). p.claims) (ok-injective r1))
        (satisfy_each-AreAnswers w requests e1)

  -- A request that a held claim satisfies, about a field of the claim's category.
  abbrev pub IsSatisfiable : Wallet c j → PredicateRequest j → Type 0
  IsSatisfiable w req =
      (held : Claim) × (find_satisfying c j req w.claims ≡ some held)
      × ((known : List Text) × (field_keys_for_category (category held.body) ≡ some known)
          × (contains known req.field ≡ true))

  module _ (anchor : TrustAnchor c) (now : Timestamp) (subject : Did) where
    satisfy_each-IsTrusted :
        (w : Wallet c j) (requests : List (PredicateRequest j))
        → All (IsHeld c laws j anchor now subject) w.claims
        → All (IsSatisfiable w) requests
        → (ds : List (DisclosedClaim j)) × (satisfy_each c j w requests ≡ ok ds)
          × (length ds ≡ length requests)
          × All (IsTrusted c j anchor now subject) ds
    unfolding satisfy_each
    satisfy_each-IsTrusted w [] h s = ([], refl, refl, tt)
    satisfy_each-IsTrusted w (req ∷ requests) h ((held, found, (known, knows, field_known)), s) =
        let selector = only (req.field ∷ []) in
        let is_found = find_satisfying-IsFound_from req [] w.claims found in
        let held_well =
          All-get_elem? (IsHeld c laws j anchor now subject) w.claims is_found.index h
            is_found.at_index in
        let (d, discloses) =
          disclose-total c laws j held held_well.issuer_vk selector known held_well.authentic knows
            (omega arith, (field_known, tt)) in
        let (ds, rest, counted, trusted) = satisfy_each-IsTrusted w requests h s in
        (
          d ∷ ds,
          rw (found, discloses, rest) refl,
          ap suc counted,
          (
            disclose-IsTrusted c laws j anchor now subject held selector held_well discloses,
            trusted,
          ),
        )

  -- For at least one request, each satisfied by a held claim on one of its fields, `satisfy` succeeds on
  -- a wallet whose claims are the subject's own and trusted by the verifier, and that verifier
  -- accepts the presentation at any time until it expires.
  pub satisfy-accepted :
      (w : Wallet c j) (audience : Did) (purpose : Text) (requests : List (PredicateRequest j))
      (ttl_seconds : ℤ) (now later : Timestamp) (n1 n2 : Bytes) (anchor : TrustAnchor c)
      → IsArray 12 n1
      → IsArray 12 n2
      → now ≤ℤ later
      → later ≤ℤ plus_seconds now ttl_seconds
      → 1 ≤ length requests
      → All (IsHeld c laws j anchor later (did c j w)) w.claims
      → All (IsSatisfiable w) requests
      → (p : Presentation c j) × (satisfy c j w audience purpose requests ttl_seconds now (n1, n2)
          ≡ ok p)
        × ((r : VerificationReport) × (verify_presentation c j p audience later anchor false ≡ ok r)
            × (r.accepted ≡ true))
  unfolding satisfy fresh_nonce did
  satisfy-accepted w audience purpose requests ttl_seconds now later n1 n2 anchor a1 a2 started
        unexpired some_request h s =
      let (ds, discloses, counted, trusted) =
        satisfy_each-IsTrusted anchor later (did c j w) w requests h s in
      let long : min_nonce_len ≤ length (n1 ++ n2) =
        omega (arith, length-append n1 n2, a1.len, a2.len) in
      (
        _,
        >>=-ok (satisfy_each c j w requests) _ discloses,
        verify-build_presentation c laws j w.identity audience purpose (n1 ++ n2) now
            (plus_seconds now ttl_seconds) later ds anchor (All-append _ n1 n2 a1.bytes a2.bytes)
            long started unexpired (omega (arith, counted, some_request)) trusted,
      )
