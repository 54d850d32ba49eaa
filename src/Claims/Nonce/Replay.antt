-- ===== src/Claims/Nonce/Replay.antt =====
-- About `verify_presentation_with_store` of crates/aion-trust-claims/src/nonce.rs: presentations that
-- come again.
use aion_trust.Prelude.{
  ◌≡◌, sym, ◌∙◌, ◌⊎◌, inl, inr, Bool, true, false, false≢true, List, arith, Bool-cases, Text, ok,
}
use aion_trust.Prelude.Int.{ℤ, ◌≤ℤ◌, ◌≤ℤ◌, leb_ℤ, leb_ℤ, leb_ℤ→le}
use aion_trust.Crypto.{Crypto}
use aion_trust.Json.{Json}
use aion_trust.Encoding.Hex.{from_hex}
use aion_trust.Identity.{Did, Timestamp}
use aion_trust.Claims.Predicate.{PredicateRequest}
use aion_trust.Claims.Anchor.{TrustAnchor}
use aion_trust.Claims.Report.{VerificationReport}
use aion_trust.Claims.Presentation.{Presentation}
use aion_trust.Claims.PresentationVerifier.{
  binding_checks, verdict, verify_presentation_with_predicates,
}
use aion_trust.Claims.PresentationVerifier.Verdict.{accepted_sound}
use aion_trust.Claims.Nonce.{
  InMemoryNonceStore, seen, evict_expired, in_memory, verify_presentation_with_store,
}
use aion_trust.Claims.Nonce.Memory.{
  remembers, remembers-seen, remembers-evict, remembers-remember_self, settle-ok, ok-settle,
  settle-accepted, remembers-settle,
}

too_late : (t later x : ℤ) → leb_ℤ t x ≡ false → t ≤ℤ later → later ≤ℤ x → ⊥
too_late t later x past le in_time = ground arith

module _ (c : Crypto) (j : Json) where
  -- The verifier at work from a store and a time on: it verifies presentations and evicts, and
  -- its clock does not run backwards.
  pub data Run (store : InMemoryNonceStore) (start : Timestamp)
      : InMemoryNonceStore → Timestamp → Type 0 where
    here : Run store start store start
    verified :
        {s : InMemoryNonceStore} {t : Timestamp} (q : Presentation c j) (audience : Did)
        (now : Timestamp) (anchor : TrustAnchor c) (predicates : List (PredicateRequest j))
        → t ≤ℤ now
        → Run store start s t
        → Run store start
            (verify_presentation_with_store c j in_memory q audience now anchor s predicates).1
            now
    evicted :
        {s : InMemoryNonceStore} {t : Timestamp} (now : Timestamp)
        → t ≤ℤ now
        → Run store start s t
        → Run store start (evict_expired s now) now

  -- The nonce is remembered until its presentation expires, or that time has come.
  abbrev IsGuarded : Presentation c j → Did → InMemoryNonceStore → Timestamp → Type 0
  IsGuarded p audience store now =
      (remembers audience p.nonce p.expires_at store ≡ true) ⊎ (leb_ℤ now p.expires_at ≡ false)

  fresh_if_accepted :
      (q : Presentation c j) (audience : Did) (now : Timestamp) (anchor : TrustAnchor c)
      (store : InMemoryNonceStore) (predicates : List (PredicateRequest j)) (r : VerificationReport)
      → verify_presentation_with_predicates c j q audience now anchor
          (seen store audience q.nonce)
          predicates
        ≡ ok r
      → r.accepted ≡ true
      → (seen store audience q.nonce ≡ false) × (now ≤ℤ q.expires_at)
  fresh_if_accepted q audience now anchor store predicates r e h =
      let a =
        (accepted_sound c j q audience now anchor (seen store audience q.nonce) predicates e h).0 in
      (a.fresh, a.unexpired)

  Run-IsGuarded :
      (p : Presentation c j) (audience : Did) {store : InMemoryNonceStore} {start : Timestamp}
      {s : InMemoryNonceStore} {t : Timestamp}
      → IsGuarded p audience store start
      → Run store start s t
      → IsGuarded p audience s t
  Run-IsGuarded p audience g here = g
  Run-IsGuarded p audience g (evicted {s} {t} now le run) = elim (Run-IsGuarded p audience g run) [
    | inr past ↦ inr (ground arith)
    | inl held ↦ elim (Bool-cases (leb_ℤ now p.expires_at)) [
      | inr past ↦ inr past
      | inl before ↦ inl (
          remembers-evict audience p.nonce p.expires_at now s (leb_ℤ→le now p.expires_at before)
            held)
    ]
  ]
  Run-IsGuarded p audience g (verified {s} {t} q other now anchor predicates le run) =
      elim (Run-IsGuarded p audience g run) [
        | inr past ↦ inr (ground arith)
        | inl held ↦ inl (
            unfold verify_presentation_with_store in
            remembers-settle audience other p.nonce q.nonce p.expires_at q.expires_at s _
              (λ r e h. (fresh_if_accepted q other now anchor s predicates r e h).0) held)
      ]

  accepted_remembers :
      (p : Presentation c j) (audience : Did) (now : Timestamp) (anchor : TrustAnchor c)
      (store : InMemoryNonceStore) (predicates : List (PredicateRequest j)) (r : VerificationReport)
      → (verify_presentation_with_store c j in_memory p audience now anchor store predicates).0
        ≡ ok r
      → r.accepted ≡ true
      → remembers audience p.nonce p.expires_at
          (verify_presentation_with_store c j in_memory p audience now anchor store predicates).1
        ≡ true
  unfolding verify_presentation_with_store
  accepted_remembers p audience now anchor store predicates r e h =
      let v =
        verify_presentation_with_predicates c j p audience now anchor (seen store audience p.nonce)
          predicates in
      rw
        (settle-accepted store audience p.nonce p.expires_at v r
          (settle-ok store audience p.nonce p.expires_at v e) h)
        (remembers-remember_self audience p.nonce p.expires_at store)

  -- Single use. After a presentation was accepted for an audience, and after anything the verifier
  -- then does with the store it was left with, the same presentation is not accepted for that
  -- audience again, at any later time, under any anchor and any predicates.
  pub no_replay :
      (p : Presentation c j) (audience : Did) (now : Timestamp) (anchor : TrustAnchor c)
      (store : InMemoryNonceStore) (predicates : List (PredicateRequest j)) (r : VerificationReport)
      → (verify_presentation_with_store c j in_memory p audience now anchor store predicates).0
        ≡ ok r
      → r.accepted ≡ true
      → {s : InMemoryNonceStore} {t : Timestamp}
      → Run
          (verify_presentation_with_store c j in_memory p audience now anchor store predicates).1
          now
          s
          t
      → (later : Timestamp) (anchor' : TrustAnchor c) (predicates' : List (PredicateRequest j))
        (r' : VerificationReport)
      → t ≤ℤ later
      → (verify_presentation_with_store c j in_memory p audience later anchor' s predicates').0
        ≡ ok r'
      → r'.accepted ≡ false
  unfolding verify_presentation_with_store
  no_replay p audience now anchor store predicates r e h {s} {t} run later anchor' predicates' r' le
        e' =
      elim (Bool-cases r'.accepted) [
        | inr refused ↦ refused
        | inl again ↦
            let e'' =
              settle-ok s audience p.nonce p.expires_at
                (verify_presentation_with_predicates c j p audience later anchor'
                  (seen s audience p.nonce) predicates')
                e' in
            let (fresh, in_time) =
              fresh_if_accepted p audience later anchor' s predicates' r' e'' again in
            elim (Run-IsGuarded p audience
              (inl (accepted_remembers p audience now anchor store predicates r e h)) run) [
                | inl held ↦
                    absurd
                      (false≢true (sym fresh ∙ remembers-seen audience p.nonce p.expires_at s held))
                | inr past ↦ absurd (too_late t later p.expires_at past le in_time)
              ]
      ]

  respelled :
      (p : Presentation c j) (audience : Did) (now : Timestamp) (anchor : TrustAnchor c) (b : Bool)
      (predicates : List (PredicateRequest j)) (spelling : Text)
      → from_hex spelling ≡ from_hex p.nonce
      → verify_presentation_with_predicates c j
          (record p { nonce = spelling })
          audience
          now
          anchor
          b
          predicates
        ≡ verify_presentation_with_predicates c j p audience now anchor b predicates
  unfolding verify_presentation_with_predicates verdict binding_checks
  respelled p audience now anchor b predicates spelling same = rw same

  -- The hex text of the nonce is not what the subject signs: a presentation just accepted is
  -- accepted once more when its nonce is written in another way, with the same bytes, that the
  -- store has not seen.
  pub respelled_nonce_accepted :
      (p : Presentation c j) (audience : Did) (now : Timestamp) (anchor : TrustAnchor c)
      (store : InMemoryNonceStore) (predicates : List (PredicateRequest j)) (r : VerificationReport)
      (spelling : Text)
      → (verify_presentation_with_store c j in_memory p audience now anchor store predicates).0
        ≡ ok r
      → r.accepted ≡ true
      → from_hex spelling ≡ from_hex p.nonce
      → seen
          (verify_presentation_with_store c j in_memory p audience now anchor store predicates).1
          audience
          spelling
        ≡ false
      → (verify_presentation_with_store c j in_memory
          (record p { nonce = spelling })
          audience
          now
          anchor
          (verify_presentation_with_store c j in_memory p audience now anchor store predicates).1
          predicates).0
        ≡ ok r
  unfolding verify_presentation_with_store
  respelled_nonce_accepted p audience now anchor store predicates r spelling e h same unseen =
      let first =
        settle-ok store audience p.nonce p.expires_at
          (verify_presentation_with_predicates c j p audience now anchor
            (seen store audience p.nonce) predicates)
          e in
      let (fresh, in_time) = fresh_if_accepted p audience now anchor store predicates r first h in
      ok-settle _ audience spelling p.expires_at _ (
        rw unseen
          (respelled p audience now anchor false predicates spelling same ∙ rw fresh at first))
