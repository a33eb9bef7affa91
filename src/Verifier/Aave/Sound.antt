-- ===== src/Verifier/Aave/Sound.antt =====
-- `Verify` of aave_v3.go: a verdict "verified" rests on evidence, and the evidence is enough.
use flashloan_scanner.Base.{
  ℕ, String, ◌≡◌, refl, true, false, not, inl, inr, Option, some, List, [], ◌∷◌, arith, Any, All,
  All₂, all, Bool-cases, Option-cases, ◌≢◌, ok, >>=-eq-ok,
}
use flashloan_scanner.Types.{CandidateInteraction, InteractionLeg, VerifiedInteraction}
use flashloan_scanner.Rows.{Conversions, InteractionAssetLeg, ContractEvent, ObservedTransactionRow}
use flashloan_scanner.Verifier.Convert.{Views, tx_successful, read_evidence}
use flashloan_scanner.Verifier.Amounts.{tx_successful-some}
use flashloan_scanner.Verifier.Aave.{
  AaveFlashLoanEvent, PoolAbi, LegLoop, verify_legs, judge, verified_interaction,
  match_flash_loan_events, verify, verify_successful,
}
use flashloan_scanner.Verifier.Aave.Emitted.{IsPoolEvent, match_flash_loan_events-IsPoolEvent}
use flashloan_scanner.Verifier.Aave.Matching.{Matches}
use flashloan_scanner.Verifier.Aave.Verdicts.{
  Settled, is_repaid, verify_legs-Loop, verify_legs-some,
}

-- The verdict `r` with the legs `legs` follows from the provider's events: there is one, each stored
-- leg is settled by one, and the loan is strict just when every leg was repaid.
pub record Judged (conv : Conversions) (receiver : String) (events : List AaveFlashLoanEvent)
    (stored : List InteractionAssetLeg) (r : VerifiedInteraction)
    (legs : Option (List InteractionLeg)) : Type 0 where
  pub some_event : events ≢ []
  pub outs : List InteractionLeg
  pub its_legs : legs ≡ some outs
  pub settled : All₂ (Settled conv events receiver) stored outs
  pub its_strict : r.strict ≡ all is_repaid outs
  pub its_debt : r.contains_debt_opening ≡ not (all is_repaid outs)

abbrev pub start : LegLoop
start = record { strict = true; contains_debt_opening = false; verified_legs = [] }

module _ (conv : Conversions) (interaction : CandidateInteraction) where
  judge-Judged :
      (events : List AaveFlashLoanEvent) (stored : List InteractionAssetLeg)
      {r : VerifiedInteraction} {legs : Option (List InteractionLeg)}
      → judge conv interaction events stored ≡ (some r, legs)
      → r.verified ≡ true
      → Judged conv interaction.receiver_address events stored r legs
  unfolding judge
  judge-Judged [] stored h v = absurd (ground arith)
  judge-Judged (event ∷ events) stored {r} {legs} h v =
      elim (Option-cases
        (verify_legs conv (event ∷ events) interaction.receiver_address start stored)) [
          | inl miss ↦ absurd (ground (arith, miss))
          | inr (t, done) ↦
              let loop =
                verify_legs-Loop conv (event ∷ events) interaction.receiver_address stored start t
                  done in
              record {
                some_event = λ e. cc;
                outs = loop.outs;
                its_legs = ground (arith, loop.appended);
                settled = loop.settled;
                its_strict = ground (arith, loop.its_strict);
                its_debt = ground (arith, loop.its_debt);
              }
        ]

  judge-verified :
      (events : List AaveFlashLoanEvent) (stored : List InteractionAssetLeg)
      → events ≢ []
      → All (λ leg. Any (Matches conv interaction.receiver_address leg) events) stored
      → (r : VerifiedInteraction) × (legs : Option (List InteractionLeg)) × (judge conv interaction
            events stored
          ≡ (some r, legs))
        × (r.verified ≡ true)
  unfolding judge verified_interaction
  judge-verified [] stored ne h = absurd (ne refl)
  judge-verified (event ∷ events) stored ne h =
      let (t, done) =
        verify_legs-some conv (event ∷ events) interaction.receiver_address stored start h in
      (
        verified_interaction interaction.interaction_id t,
        some t.verified_legs,
        rw (done, judge),
        refl,
      )

-- All that a verdict "verified" of `Verify` rests on: the transaction is stored with status 1, the
-- reads gave stored legs and logs, and the verdict follows from the provider's FlashLoan events
-- among those logs.
pub record Evidence (conv : Conversions) (views : Views) (abi : PoolAbi) (chain_id : ℕ)
    (interaction : CandidateInteraction) (r : VerifiedInteraction)
    (legs : Option (List InteractionLeg)) : Type 0 where
  pub tx : ObservedTransactionRow
  pub found :
      views.get_observed_transaction chain_id (conv.hex_to_hash interaction.tx_hash) ≡ ok (some tx)
  pub succeeded : tx.status ≡ 1
  pub stored : List InteractionAssetLeg
  pub logs : List ContractEvent
  pub read : read_evidence conv views chain_id interaction ≡ ok (stored, logs)
  pub events : List AaveFlashLoanEvent
  pub picked :
      events
      ≡ match_flash_loan_events conv abi logs (conv.hex_to_address interaction.provider_address)
  pub emitted :
      All (IsPoolEvent conv abi logs (conv.hex_to_address interaction.provider_address)) events
  pub judged : Judged conv interaction.receiver_address events stored r legs

module _ (conv : Conversions) (views : Views) (abi : PoolAbi) (chain_id : ℕ)
    (interaction : CandidateInteraction) where
  verify_successful-Judged :
      {r : VerifiedInteraction} {legs : Option (List InteractionLeg)}
      → verify_successful conv views abi chain_id interaction ≡ ok (some r, legs)
      → r.verified ≡ true
      → (stored : List InteractionAssetLeg) × (logs : List ContractEvent) × (read_evidence conv
            views chain_id interaction
          ≡ ok (stored, logs))
        × Judged conv interaction.receiver_address
            (match_flash_loan_events conv abi logs
              (conv.hex_to_address interaction.provider_address))
            stored
            r
            legs
  unfolding verify_successful
  verify_successful-Judged h v =
      let ((stored, logs), read, judged) =
        >>=-eq-ok (read_evidence conv views chain_id interaction) _ h in
      (stored, logs, read, judge-Judged conv interaction _ stored (cc judged) v)

  -- If Verify of the Aave V3 verifier returns a verified result, the transaction was stored with
  -- status 1, and the stored legs and the logs were read. Some flash-loan event was picked from the
  -- logs; every picked one is of a log of the provider's address that carries the event's id and
  -- decodes, with target and asset from the log's topics and amount, rate mode and premium from
  -- its data. Every returned leg is the stored leg settled against a picked event with its asset,
  -- receiver and amount; the result is strict just when every returned leg is repaid, and opens
  -- debt just when one is not.
  pub aave_verify-Evidence :
      {r : VerifiedInteraction} {legs : Option (List InteractionLeg)}
      → verify conv views abi chain_id interaction ≡ ok (some r, legs)
      → r.verified ≡ true
      → Evidence conv views abi chain_id interaction r legs
  unfolding verify
  aave_verify-Evidence {r} {legs} h v =
      let (tx, found, rest) =
        >>=-eq-ok (views.get_observed_transaction chain_id (conv.hex_to_hash interaction.tx_hash)) _
          h in
      elim (Bool-cases (tx_successful tx)) [
        | inl good ↦
            let (row, is_row, status) = tx_successful-some tx good in
            let (stored, logs, read, judged) =
              verify_successful-Judged {r = r} {legs = legs} (rw good at rest) v in
            record {
              tx = row;
              found = cc;
              succeeded = status;
              stored = stored;
              logs = logs;
              read = read;
              events =
                  match_flash_loan_events conv abi logs
                    (conv.hex_to_address interaction.provider_address);
              picked = refl;
              emitted =
                  match_flash_loan_events-IsPoolEvent conv abi logs
                    (conv.hex_to_address interaction.provider_address);
              judged = judged;
            }
        | inr bad ↦ absurd (ground (arith, rest))
      ]

  -- If the transaction is stored with status 1, the stored legs and the logs can be read, the pool
  -- emitted a flash-loan event, and every stored leg has an event with its asset, receiver and
  -- amount, then Verify of the Aave V3 verifier returns a verified result.
  pub aave_verify-verified :
      {tx : ObservedTransactionRow} {stored : List InteractionAssetLeg} {logs : List ContractEvent}
      → views.get_observed_transaction chain_id (conv.hex_to_hash interaction.tx_hash)
        ≡ ok (some tx)
      → tx.status ≡ 1
      → read_evidence conv views chain_id interaction ≡ ok (stored, logs)
      → match_flash_loan_events conv abi logs (conv.hex_to_address interaction.provider_address)
        ≢ []
      → All
          (λ leg. Any (Matches conv interaction.receiver_address leg) (
            match_flash_loan_events conv abi logs
              (conv.hex_to_address interaction.provider_address)))
          stored
      → (r : VerifiedInteraction) × (legs : Option (List InteractionLeg)) × (verify conv views abi
            chain_id interaction
          ≡ ok (some r, legs))
        × (r.verified ≡ true)
  unfolding verify verify_successful
  aave_verify-verified {tx} {stored} {logs} found status read some_event all_matched =
      let (r, legs, judged, v) = judge-verified conv interaction _ stored some_event all_matched in
      (r, legs, rw (found, status, read, judged), v)
