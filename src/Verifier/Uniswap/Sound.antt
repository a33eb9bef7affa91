-- ===== src/Verifier/Uniswap/Sound.antt =====
-- `Verify` of uniswap_v2.go: a verdict "verified" rests on evidence, and the evidence is enough.
use flashloan_scanner.Base.{
  ℕ, String, ◌≡◌, refl, ap, Bool, true, inl, inr, Option, some, List, [], ◌∷◌, map, arith, Any, All,
  Bool-cases, Option-cases, ok, >>=-eq-ok, Memᴰ,
}
use flashloan_scanner.Types.{CandidateInteraction, InteractionLeg, VerifiedInteraction}
use flashloan_scanner.Rows.{Conversions, InteractionAssetLeg, ContractEvent, ObservedTransactionRow}
use flashloan_scanner.Verifier.Convert.{Views, tx_successful, read_evidence, convert_leg}
use flashloan_scanner.Verifier.Amounts.{tx_successful-some}
use flashloan_scanner.Verifier.Uniswap.{
  UniswapV2SwapEvent, PairAbi, match_swap_event, settle_leg, judge, match_swap_events, has_data,
  verify, verify_successful, verified_interaction,
}
use flashloan_scanner.Verifier.Uniswap.Emitted.{IsPairEvent, match_swap_events-IsPairEvent}
use flashloan_scanner.Verifier.Uniswap.Matching.{Fits, match_swap_event-Fits, match_swap_event-some}

-- The verdict with the legs `legs` follows from one of the pair's events: it goes to the receiver,
-- matches the stored legs, and settles each of them.
pub record Judged (conv : Conversions) (receiver : String) (events : List UniswapV2SwapEvent)
    (stored : List InteractionAssetLeg) (legs : Option (List InteractionLeg)) : Type 0 where
  pub swap : UniswapV2SwapEvent
  pub listed : Memᴰ swap events
  pub fits : Fits conv receiver stored swap
  pub its_legs : legs ≡ some (map (λ leg. settle_leg swap (convert_leg conv leg)) stored)

module _ (conv : Conversions) (interaction : CandidateInteraction) where
  judge-Judged :
      (events : List UniswapV2SwapEvent) (stored : List InteractionAssetLeg)
      {r : VerifiedInteraction} {legs : Option (List InteractionLeg)}
      → judge conv interaction events stored ≡ (some r, legs)
      → r.verified ≡ true
      → Judged conv interaction.receiver_address events stored legs
  unfolding judge
  judge-Judged [] stored h v = absurd (ground arith)
  judge-Judged (event ∷ events) stored {r} {legs} h v =
      elim (Option-cases
        (match_swap_event conv (event ∷ events) interaction.receiver_address stored)) [
          | inl miss ↦ absurd (ground (arith, miss))
          | inr (swap, hit) ↦
              let (listed, fits) =
                match_swap_event-Fits conv interaction.receiver_address stored (event ∷ events)
                  hit in
              record { swap = swap; listed = listed; fits = fits; its_legs = ground arith }
        ]

  judge-verified :
      (events : List UniswapV2SwapEvent) (stored : List InteractionAssetLeg)
      → Any (Fits conv interaction.receiver_address stored) events
      → (r : VerifiedInteraction) × (legs : Option (List InteractionLeg)) × (judge conv interaction
            events stored
          ≡ (some r, legs))
        × (r.verified ≡ true)
  unfolding judge verified_interaction
  judge-verified [] stored h = absurd h
  judge-verified (event ∷ events) stored h =
      let (swap, hit) =
        match_swap_event-some conv interaction.receiver_address stored (event ∷ events) h in
      (
        verified_interaction interaction.interaction_id,
        some (map (λ leg. settle_leg swap (convert_leg conv leg)) stored),
        rw (hit, judge),
        refl,
      )

-- All that a verdict "verified" rests on: the transaction is stored with status 1, the swap carried
-- data, the reads gave stored legs and logs, and one of the pair's Swap events fits the legs.
pub record Evidence (conv : Conversions) (views : Views) (abi : PairAbi) (chain_id : ℕ)
    (interaction : CandidateInteraction) (legs : Option (List InteractionLeg)) : Type 0 where
  pub tx : ObservedTransactionRow
  pub found :
      views.get_observed_transaction chain_id (conv.hex_to_hash interaction.tx_hash) ≡ ok (some tx)
  pub succeeded : tx.status ≡ 1
  pub called_back : interaction.data_non_empty ≡ some true
  pub stored : List InteractionAssetLeg
  pub logs : List ContractEvent
  pub read : read_evidence conv views chain_id interaction ≡ ok (stored, logs)
  pub events : List UniswapV2SwapEvent
  pub picked :
      events ≡ match_swap_events conv abi logs (conv.hex_to_address interaction.provider_address)
  pub emitted :
      All (IsPairEvent conv abi logs (conv.hex_to_address interaction.provider_address)) events
  pub judged : Judged conv interaction.receiver_address events stored legs

has_data-some : (b : Option Bool) → has_data b ≡ true → b ≡ some true
has_data-some b h = ground arith

module _ (conv : Conversions) (views : Views) (abi : PairAbi) (chain_id : ℕ)
    (interaction : CandidateInteraction) where
  verify_successful-Judged :
      {r : VerifiedInteraction} {legs : Option (List InteractionLeg)}
      → verify_successful conv views abi chain_id interaction ≡ ok (some r, legs)
      → r.verified ≡ true
      → (stored : List InteractionAssetLeg) × (logs : List ContractEvent) × (read_evidence conv
            views chain_id interaction
          ≡ ok (stored, logs))
        × Judged conv interaction.receiver_address
            (match_swap_events conv abi logs (conv.hex_to_address interaction.provider_address))
            stored
            legs
  unfolding verify_successful
  verify_successful-Judged {r} {legs} h v =
      let ((stored, logs), read, judged) =
        >>=-eq-ok (read_evidence conv views chain_id interaction) _ h in
      (stored, logs, read, judge-Judged conv interaction _ stored {r = r} (cc judged) v)

  -- If Verify of the Uniswap V2 verifier returns a verified result, the transaction was stored
  -- with status 1, the interaction is noted to carry data, and the stored legs and the logs were
  -- read. Every swap event picked from the logs is of a log of the provider's address that carries
  -- the event's id and decodes, with the recipient from the log's topics and the amounts from its
  -- data. The returned legs are the stored ones settled against one picked swap, which went to the
  -- receiver; on each side, token0 and token1, it paid out the borrowed amount of the last stored
  -- leg there, if that leg names one, and on one side at least the last leg does.
  pub uniswap_verify-Evidence :
      {r : VerifiedInteraction} {legs : Option (List InteractionLeg)}
      → verify conv views abi chain_id interaction ≡ ok (some r, legs)
      → r.verified ≡ true
      → Evidence conv views abi chain_id interaction legs
  unfolding verify
  uniswap_verify-Evidence {r} {legs} h v =
      let (tx, found, rest) =
        >>=-eq-ok (views.get_observed_transaction chain_id (conv.hex_to_hash interaction.tx_hash)) _
          h in
      elim (Bool-cases (tx_successful tx)) [
        | inl good ↦ elim (Bool-cases (has_data interaction.data_non_empty)) [
          | inl full ↦
              let (row, is_row, status) = tx_successful-some tx good in
              let (stored, logs, read, judged) =
                verify_successful-Judged {r = r} {legs = legs} (rw full at (rw good at rest)) v in
              record {
                tx = row;
                found = cc;
                succeeded = status;
                called_back = has_data-some interaction.data_non_empty full;
                stored = stored;
                logs = logs;
                read = read;
                events =
                    match_swap_events conv abi logs
                      (conv.hex_to_address interaction.provider_address);
                picked = refl;
                emitted =
                    match_swap_events-IsPairEvent conv abi logs
                      (conv.hex_to_address interaction.provider_address);
                judged = judged;
              }
          | inr empty ↦ absurd (ground (arith, rest))
        ]
        | inr bad ↦ absurd (ground (arith, rest))
      ]

  -- If the transaction is stored with status 1, the interaction is noted to carry data, the stored
  -- legs and the logs can be read, on token0 or token1 the last stored leg names a borrowed amount,
  -- and some swap event picked from the logs went to the receiver and on each side paid out the
  -- amount that the last stored leg there names, if it names one, then Verify of the Uniswap V2
  -- verifier returns a verified result.
  pub uniswap_verify-verified :
      {tx : ObservedTransactionRow} {stored : List InteractionAssetLeg} {logs : List ContractEvent}
      → views.get_observed_transaction chain_id (conv.hex_to_hash interaction.tx_hash)
        ≡ ok (some tx)
      → tx.status ≡ 1
      → interaction.data_non_empty ≡ some true
      → read_evidence conv views chain_id interaction ≡ ok (stored, logs)
      → Any
          (Fits conv interaction.receiver_address stored)
          (match_swap_events conv abi logs (conv.hex_to_address interaction.provider_address))
      → (r : VerifiedInteraction) × (legs : Option (List InteractionLeg)) × (verify conv views abi
            chain_id interaction
          ≡ ok (some r, legs))
        × (r.verified ≡ true)
  unfolding verify verify_successful
  uniswap_verify-verified {tx} {stored} {logs} found status full read some_fits =
      let (r, legs, judged, v) = judge-verified conv interaction _ stored some_fits in
      (r, legs, rw (found, status, ap has_data full, read, judged), v)
