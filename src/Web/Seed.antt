-- ===== src/Web/Seed.antt =====
-- crates/aion-trust-web/src/state.rs: the world that the demonstration starts with and that a reset
-- goes back to. The fresh keys, the CSPRNG draws and the order of the hash map of issuers are
-- arguments.
use aion_trust.Prelude.{
  ℕ, true, not, none, some, List, [], ◌∷◌, map, length, filter, Text, codes, bytes_eq, Result, ok,
  err,
}
use aion_trust.Prelude.Int.{pos}
use aion_trust.Prelude.Map.{Map, insert}
use aion_trust.Crypto.{Crypto}
use aion_trust.Json.{Json}
use aion_trust.Identity.{identity_did}
use aion_trust.Claims.Reject.{ClaimReject}
use aion_trust.Claims.Bodies.{ClaimBody, employment, education, background_check}
use aion_trust.Claims.Claim.{Claim, Draws, issue}
use aion_trust.Registry.{
  Accreditation, Registry, new_registry, new_accreditation, register_accreditor, register_issuer,
  require_accreditation, endorse, add_accreditation,
}
use aion_trust.Wallet as Held
use aion_trust.Wallet.{Wallet}
use aion_trust.Web.{AppState, IssuerSlot}

abbrev pub start_epoch : ℕ
start_epoch = 1

abbrev pub employment_example : ClaimBody
employment_example = employment (record {
  employer = codes "Acme Corp";
  title = codes "Senior Engineer";
  employment_type = codes "full_time";
  start = codes "2021-03-01";
  «end» = some (codes "2024-08-15");
  rehire_eligible = true;
})

abbrev pub education_example : ClaimBody
education_example = education (record {
  institution = codes "State University";
  credential = codes "M.S. Computer Science";
  conferred = codes "2020-05-20";
  aion_edu_ref = none;
  degree_rank = some 4;
})

abbrev pub background_check_example : ClaimBody
background_check_example = background_check (record {
  provider = codes "TrustScreen";
  scope = codes "criminal" ∷ codes "identity" ∷ codes "sanctions" ∷ [];
  result = codes "clear";
  performed = codes "2026-05-10";
  valid_until = some (codes "2027-05-10");
  jurisdiction = codes "US";
  fcra_compliant = true;
})

module _ (c : Crypto) (j : Json) where
  -- What is random in `seed`.
  pub record Fresh : Type 0 where
    pub accreditor_keys : c.SigningKey × c.SigningKey
    pub employer_key : c.SigningKey
    pub wallet_key : c.SigningKey
    pub acme_key : c.SigningKey
    pub screen_key : c.SigningKey
    pub uni_key : c.SigningKey
    pub acme_draws : Draws
    pub screen_draws : Draws
    pub uni_draws : Draws
    -- The order in which the hash map yields the issuers.
    pub arrange : List (IssuerSlot c j) → List (IssuerSlot c j)

  -- The loop `registry.register_accreditor(a.verifying_key())`.
  unfoldable pub register_accreditors : List c.SigningKey → Registry c → Registry c
  unfolding register_accreditor
  register_accreditors [] r = r
  register_accreditors (a ∷ accreditors) r =
      register_accreditors accreditors (register_accreditor c (c.verifying_key a) r)

  -- The loop `acc.endorse(a)`.
  unfoldable pub endorse_all : List c.SigningKey → Accreditation → Accreditation
  unfolding endorse
  endorse_all [] acc = acc
  endorse_all (a ∷ accreditors) acc = endorse_all accreditors (endorse c a acc)

  -- `accredited_issuer`, of the generated identity.
  unfoldable pub accredited_issuer :
      Registry c → List c.SigningKey → Text → Text → c.SigningKey → IssuerSlot c j × Registry c
  unfolding register_issuer require_accreditation new_accreditation endorse_all add_accreditation
      identity_did
  accredited_issuer registry accreditors label category identity =
      let registered = register_issuer c (c.verifying_key identity) registry in
      let policy = map (identity_did c) accreditors in
      let required = require_accreditation c category (length accreditors) policy registered in
      let acc = new_accreditation (identity_did c identity) category start_epoch none in
      (
        record { identity = identity; label = label; categories = category ∷ [] },
        add_accreditation c (endorse_all accreditors acc) required,
      )

  -- The `if let Ok(claim)` of `seed_claim`: a body that does not issue is skipped.
  unfoldable pub keep_claim :
      Wallet c j → Map Text → Text → Result ClaimReject Claim → Wallet c j × Map Text
  unfolding insert Held.add
  keep_claim wallet labels label (ok claim) =
      (Held.add c j claim wallet, insert claim.claim_id label labels)
  keep_claim wallet labels label (err e) = (wallet, labels)

  unfoldable pub seed_claim :
      Wallet c j → Map Text → c.SigningKey → ClaimBody → Text → Draws → Wallet c j × Map Text
  unfolding issue keep_claim Held.did
  seed_claim wallet labels issuer body label draws =
      keep_claim wallet labels label
        (issue c j draws issuer (Held.did c j wallet) (record { from = pos 0; until = none }) body)

  -- `issuers.insert(did, slot)`: a slot of the same DID goes.
  unfoldable pub insert_slot : IssuerSlot c j → List (IssuerSlot c j) → List (IssuerSlot c j)
  unfolding identity_did bytes_eq
  insert_slot slot slots =
      slot
      ∷ filter (λ s. not (bytes_eq (identity_did c s.identity) (identity_did c slot.identity)))
          slots

  -- `AppState::seed`.
  unfoldable pub seed : Fresh → AppState c j
  unfolding new_registry register_accreditors Held.generate accredited_issuer seed_claim insert_slot
  seed fresh =
      let (a1, a2) = fresh.accreditor_keys in
      let accreditors = a1 ∷ a2 ∷ [] in
      let r0 = register_accreditors accreditors (new_registry c start_epoch) in
      let (acme, r1) =
        accredited_issuer r0 accreditors (codes "Acme Corp") (codes "employment") fresh.acme_key in
      let (screen, r2) =
        accredited_issuer r1 accreditors (codes "TrustScreen") (codes "background_check")
          fresh.screen_key in
      let (uni, r3) =
        accredited_issuer r2 accreditors (codes "State University") (codes "education")
          fresh.uni_key in
      let (w1, l1) =
        seed_claim (Held.generate c j fresh.wallet_key) [] acme.identity employment_example
          (codes "Senior Engineer @ Acme") fresh.acme_draws in
      let (w2, l2) =
        seed_claim w1 l1 screen.identity background_check_example (codes "Background check (clear)")
          fresh.screen_draws in
      let (w3, l3) =
        seed_claim w2 l2 uni.identity education_example (codes "M.S. Computer Science")
          fresh.uni_draws in
      record {
        epoch = start_epoch;
        registry = r3;
        issuers = fresh.arrange (insert_slot uni (insert_slot screen (insert_slot acme [])));
        employer = fresh.employer_key;
        wallet = w3;
        nonces = [];
        last_presentation = none;
        claim_labels = l3;
      }

  -- `AppState::reset`: nothing of the state before is kept.
  unfoldable pub reset : Fresh → AppState c j → AppState c j
  unfolding seed
  reset fresh app = seed fresh
