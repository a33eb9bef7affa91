-- ===== src/Verifier/Balancer/Sound.antt =====
-- `Verify` of balancer_v2.go: a verdict "verified" rests on evidence, and the evidence is enough.
use flashloan_scanner.Base.{
  ℕ, String, ◌≡◌, refl, true, inl, inr, Option, some, List, [], ◌∷◌, arith, Any, All, All₂,
  Bool-cases, Option-cases, ◌≢◌, ok, >>=-eq-ok,
}
use flashloan_scanner.Types.{CandidateInteraction, InteractionLeg, VerifiedInteraction}
use flashloan_scanner.Rows.{Conversions, InteractionAssetLeg, ContractEvent, ObservedTransactionRow}
use flashloan_scanner.Verifier.Convert.{Views, tx_successful, read_evidence}
use flashloan_scanner.Verifier.Amounts.{tx_successful-some}
use flashloan_scanner.Verifier.Balancer.{
  BalancerFlashLoanEvent, VaultAbi, verify_legs, judge, match_flash_loan_events, verify,
  verify_successful, verified_interaction,
}
use flashloan_scanner.Verifier.Balancer.Emitted.{IsVaultEvent, match_flash_loan_events-IsVaultEvent}
use flashloan_scanner.Verifier.Balancer.Matching.{
  Matches, Settled, verify_legs-Settled, verify_legs-some,
}

-- The verdict with the legs `legs` follows from the provider's events: there is one, and each stored
-- leg is settled by one.
pub record Judged (conv : Conversions) (recipient : String) (events : List BalancerFlashLoanEvent)
    (stored : List InteractionAssetLeg) (legs : Option (List InteractionLeg)) : Type 0 where
  pub some_event : events ≢ []
  pub outs : List InteractionLeg
  pub its_legs : legs ≡ some outs
  pub settled : All₂ (Settled conv events recipient) stored outs

module _ (conv : Conversions) (interaction : CandidateInteraction) where
  judge-Judged :
      (events : List BalancerFlashLoanEvent) (stored : List InteractionAssetLeg)
      {r : VerifiedInteraction} {legs : Option (List InteractionLeg)}
      → judge conv interaction events stored ≡ (some r, legs)
      → r.verified ≡ true
      → Judged conv interaction.receiver_address events stored legs
  unfolding judge
  judge-Judged [] stored h v = absurd (ground arith)
  judge-Judged (event ∷ events) stored {r} {legs} h v =
      elim (Option-cases
        (verify_legs conv (event ∷ events) interaction.receiver_address [] stored)) [
          | inl miss ↦ absurd (ground (arith, miss))
          | inr (final, done) ↦
              let (outs, appended, settled) =
                verify_legs-Settled conv (event ∷ events) interaction.receiver_address stored []
                  final done in
              record {
                some_event = λ e. cc;
                outs = outs;
                its_legs = ground (arith, appended);
                settled = settled;
              }
        ]

  judge-verified :
      (events : List BalancerFlashLoanEvent) (stored : List InteractionAssetLeg)
      → events ≢ []
      → All (λ leg. Any (Matches conv interaction.receiver_address leg) events) stored
      → (r : VerifiedInteraction) × (legs : Option (List InteractionLeg)) × (judge conv interaction
            events stored
          ≡ (some r, legs))
        × (r.verified ≡ true)
  unfolding judge verified_interaction
  judge-verified [] stored ne h = absurd (ne refl)
  judge-verified (event ∷ events) stored ne h =
      let (final, done) =
        verify_legs-some conv (event ∷ events) interaction.receiver_address stored [] h in
      (verified_interaction interaction.interaction_id, some final, rw (done, judge), refl)

-- All that a verdict "verified" rests on: the transaction is stored with status 1, the reads gave
-- stored legs and logs, and the verdict follows from the vault's FlashLoan events among those logs.
pub record Evidence (conv : Conversions) (views : Views) (abi : VaultAbi) (chain_id : ℕ)
    (interaction : CandidateInteraction) (legs : Option (List InteractionLeg)) : Type 0 where
  pub tx : ObservedTransactionRow
  pub found :
      views.get_observed_transaction chain_id (conv.hex_to_hash interaction.tx_hash) ≡ ok (some tx)
  pub succeeded : tx.status ≡ 1
  pub stored : List InteractionAssetLeg
  pub logs : List ContractEvent
  pub read : read_evidence conv views chain_id interaction ≡ ok (stored, logs)
  pub events : List BalancerFlashLoanEvent
  pub picked :
      events
      ≡ match_flash_loan_events conv abi logs (conv.hex_to_address interaction.provider_address)
  pub emitted :
      All (IsVaultEvent conv abi logs (conv.hex_to_address interaction.provider_address)) events
  pub judged : Judged conv interaction.receiver_address events stored legs

module _ (conv : Conversions) (views : Views) (abi : VaultAbi) (chain_id : ℕ)
    (interaction : CandidateInteraction) where
  verify_successful-Judged :
      {r : VerifiedInteraction} {legs : Option (List InteractionLeg)}
      → verify_successful conv views abi chain_id interaction ≡ ok (some r, legs)
      → r.verified ≡ true
      → (stored : List InteractionAssetLeg) × (logs : List ContractEvent) × (read_evidence conv
            views chain_id interaction
          ≡ ok (stored, logs))
        × Judged conv interaction.receiver_address
            (match_flash_loan_events conv abi logs
              (conv.hex_to_address interaction.provider_address))
            stored
            legs
  unfolding verify_successful
  verify_successful-Judged {r} {legs} h v =
      let ((stored, logs), read, judged) =
        >>=-eq-ok (read_evidence conv views chain_id interaction) _ h in
      (stored, logs, read, judge-Judged conv interaction _ stored {r = r} (cc judged) v)

  -- If Verify of the Balancer V2 verifier returns a verified result, the transaction was stored
  -- with status 1, and the stored legs and the logs were read. Some flash-loan event was picked
  -- from the logs; every picked one is of a log of the provider's address that carries the event's
  -- id and decodes, with recipient and token from the log's topics and amount and fee from its
  -- data. Every returned leg is the stored leg settled against a picked event with its token,
  -- recipient and amount.
  pub balancer_verify-Evidence :
      {r : VerifiedInteraction} {legs : Option (List InteractionLeg)}
      → verify conv views abi chain_id interaction ≡ ok (some r, legs)
      → r.verified ≡ true
      → Evidence conv views abi chain_id interaction legs
  unfolding verify
  balancer_verify-Evidence {r} {legs} h v =
      let (tx, found, rest) =
        >>=-eq-ok (views.get_observed_transaction chain_id (conv.hex_to_hash interaction.tx_hash)) _
          h in
      elim (Bool-cases (tx_successful tx)) [
        | inl good ↦
            let (row, is_row, status) = tx_successful-some tx good in
            let (stored, logs, read, judged) =
              verify_successful-Judged {r = r} {legs = legs} (rw good at rest) v in
            record {
              tx = row;
              found = cc;
              succeeded = status;
              stored = stored;
              logs = logs;
              read = read;
              events =
                  match_flash_loan_events conv abi logs
                    (conv.hex_to_address interaction.provider_address);
              picked = refl;
              emitted =
                  match_flash_loan_events-IsVaultEvent conv abi logs
                    (conv.hex_to_address interaction.provider_address);
              judged = judged;
            }
        | inr bad ↦ absurd (ground (arith, rest))
      ]

  -- If the transaction is stored with status 1, the stored legs and the logs can be read, the
  -- vault emitted a flash-loan event, and every stored leg has an event with its token, recipient
  -- and amount, then Verify of the Balancer V2 verifier returns a verified result.
  pub balancer_verify-verified :
      {tx : ObservedTransactionRow} {stored : List InteractionAssetLeg} {logs : List ContractEvent}
      → views.get_observed_transaction chain_id (conv.hex_to_hash interaction.tx_hash)
        ≡ ok (some tx)
      → tx.status ≡ 1
      → read_evidence conv views chain_id interaction ≡ ok (stored, logs)
      → match_flash_loan_events conv abi logs (conv.hex_to_address interaction.provider_address)
        ≢ []
      → All
          (λ leg. Any (Matches conv interaction.receiver_address leg) (
            match_flash_loan_events conv abi logs
              (conv.hex_to_address interaction.provider_address)))
          stored
      → (r : VerifiedInteraction) × (legs : Option (List InteractionLeg)) × (verify conv views abi
            chain_id interaction
          ≡ ok (some r, legs))
        × (r.verified ≡ true)
  unfolding verify verify_successful
  balancer_verify-verified {tx} {stored} {logs} found status read some_event all_matched =
      let (r, legs, judged, v) = judge-verified conv interaction _ stored some_event all_matched in
      (r, legs, rw (found, status, read, judged), v)
