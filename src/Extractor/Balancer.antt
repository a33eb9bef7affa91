-- ===== src/Extractor/Balancer.antt =====
-- scanner/extractor/balancer_v2.go. hexutil.Decode, the vault's ABI, the view of the events and
-- uuid.NewSHA1 are parameters.
pub mod Numbering
pub mod Groups
use Prim.Native.String.{len}
use flashloan_scanner.Base.{
  ℕ, zero, suc, String, Bool, true, false, not, ◌||◌, Option, none, some, List, [], ◌∷◌, ◌++◌, map,
  length, ltb, ◌==◌, str_eq, if◌then◌else◌, Outcome, ok, err, ◌>>=◌, text_append, cons_some,
}
use flashloan_scanner.Base.Dict.{Dict, lookup, insert, string_eq}
use flashloan_scanner.Base.Decimal.{decimal}
use flashloan_scanner.Types.{
  ObservedTransaction, CandidateInteraction, InteractionLeg, balancer_v2, normal_level, weak_level,
}
use flashloan_scanner.Rows.{Address, Hash, Uuid, Conversions, ContractEvent}
use flashloan_scanner.Registry.{MemoryRegistry, is_official_balancer_vault}
use flashloan_scanner.Verifier.Convert.{big_int_string, string_ptr}
use flashloan_scanner.Extractor.Aave.{number_at}
use flashloan_scanner.Extractor.Shared.{Found, extract_each, new_leg, uuid_source}

pub record BalancerFlashLoanArgs : Type 0 where
  pub recipient : Address
  pub tokens : List Address
  pub amounts : List (Option ℕ)
  pub user_data : List ℕ

pub record BalancerFlashLoanEvent : Type 0 where
  pub provider : Address
  pub recipient : Address
  pub token : Address
  pub amount : Option ℕ
  pub fee_amount : Option ℕ

pub record BalancerExtractorDeps : Type 0 where
  -- hexutil.Decode
  pub decode : String → Option (List ℕ)
  -- The name of the ABI's method for the first four bytes
  pub method_by_id : List ℕ → Option String
  -- `method.Inputs.Unpack` of the bytes behind them, with the test of the number of values
  pub unpack_flash_loan : List ℕ → Outcome BalancerFlashLoanArgs
  -- The id of the event FlashLoan, and UnpackIntoInterface of its amounts
  pub event_id : Hash
  pub unpack_event : List ℕ → Option (Option ℕ × Option ℕ)
  -- ChainContractEventsByTxHash of the view, if it is not nil
  pub events_by_tx_hash : Option (String → Hash → Outcome (List ContractEvent))
  -- uuid.NewSHA1 in the name space OID
  pub new_sha1 : String → Uuid

-- A groupedInteraction
pub record GroupedInteraction : Type 0 where
  pub interaction : CandidateInteraction
  pub legs : List InteractionLeg

-- The map `grouped` in the order of `groupOrder`.
abbrev pub Groups : Type 0
Groups = Dict String GroupedInteraction

module _ (conv : Conversions) (deps : BalancerExtractorDeps) where
  abbrev loan_interaction :
      ObservedTransaction → ℕ → String → String → String → ℕ → Option Bool → CandidateInteraction
  loan_interaction tx ordinal entrypoint provider receiver level non_empty = record {
    interaction_id = conv.uuid_string (deps.new_sha1 (uuid_source tx.chain_id tx.tx_hash ordinal));
    interaction_ordinal = ordinal;
    chain_id = tx.chain_id;
    tx_hash = tx.tx_hash;
    block_number = tx.block_number;
    protocol = balancer_v2;
    entrypoint = entrypoint;
    provider_address = provider;
    factory_address = "";
    pair_address = "";
    receiver_address = receiver;
    callback_target = receiver;
    initiator = "";
    on_behalf_of = "";
    candidate_level = level;
    raw_method_selector = tx.method_selector;
    data_non_empty = non_empty;
  }

  -- The loop over the tokens, from index `i` on.
  unfoldable pub loan_legs : String → List (Option ℕ) → ℕ → List Address → List InteractionLeg
  unfolding big_int_string string_ptr
  loan_legs id amounts i [] = []
  loan_legs id amounts i (token ∷ tokens) =
      new_leg id i (conv.address_hex token) none none
        (string_ptr (big_int_string (number_at i amounts))) none
      ∷ loan_legs id amounts (suc i) tokens

  abbrev non_empty : List ℕ → Bool
  non_empty [] = false
  non_empty (byte ∷ bytes) = true

  unfoldable pub extract_vault_loan :
      ObservedTransaction → List ℕ → Outcome (CandidateInteraction × List InteractionLeg)
  unfolding loan_legs decimal
  extract_vault_loan tx input = deps.unpack_flash_loan input >>= λ args.
      let interaction =
        loan_interaction tx 0 "flashLoan" tx.to_address (conv.address_hex args.recipient)
          normal_level (some (non_empty args.user_data)) in
      ok (interaction, loan_legs interaction.interaction_id args.amounts 0 args.tokens)

  unfoldable pub vault_payload :
      ObservedTransaction → List ℕ → Option (Outcome (CandidateInteraction × List InteractionLeg))
  unfolding extract_vault_loan
  vault_payload tx (a ∷ b ∷ c ∷ d ∷ input) = elim (deps.method_by_id (a ∷ b ∷ c ∷ d ∷ [])) [
    | none ↦ none
    | some name ↦ if str_eq name "flashLoan" then some (extract_vault_loan tx input) else none
  ]
  vault_payload tx _ = none

  -- The group of a new key.
  unfoldable pub new_group : ObservedTransaction → ℕ → BalancerFlashLoanEvent → GroupedInteraction
  unfolding decimal
  new_group tx ordinal event = record {
    interaction =
        loan_interaction tx ordinal "flashLoan:event" (conv.address_hex event.provider)
          (conv.address_hex event.recipient) weak_level none;
    legs = [];
  }

  unfoldable pub add_event_leg : BalancerFlashLoanEvent → GroupedInteraction → GroupedInteraction
  unfolding big_int_string string_ptr
  add_event_leg event group = record group {
    legs =
        group.legs
        ++ new_leg group.interaction.interaction_id (length group.legs)
            (conv.address_hex event.token) none none (string_ptr (big_int_string event.amount))
            (string_ptr (big_int_string event.fee_amount))
          ∷ [];
  }

  abbrev pub group_key : BalancerFlashLoanEvent → String
  group_key event =
      text_append (conv.address_hex event.provider)
        (text_append "|" (conv.address_hex event.recipient))

  -- The loop over the events.
  unfoldable pub group_events : ObservedTransaction → Groups → List BalancerFlashLoanEvent → Groups
  unfolding new_group add_event_leg lookup insert
  group_events tx groups [] = groups
  group_events tx groups (event ∷ events) =
      let key = group_key event in
      let group : GroupedInteraction = elim (lookup ⦃e = string_eq⦄ key groups) [
        | none ↦ new_group tx (length groups) event
        | some old ↦ old
      ] in
      group_events tx (insert ⦃e = string_eq⦄ key (add_event_leg event group) groups) events

  unfoldable pub all_legs : Groups → List InteractionLeg
  all_legs [] = []
  all_legs ((key, group) ∷ groups) = group.legs ++ all_legs groups

  module _ (registry : MemoryRegistry) where
    -- tryExtractFromTopLevel; `none` is `extracted == false`.
    unfoldable pub try_extract_from_top_level :
        ObservedTransaction → Option (Outcome (CandidateInteraction × List InteractionLeg))
    unfolding vault_payload is_official_balancer_vault
    try_extract_from_top_level tx =
        if str_eq tx.to_address ""
          || not (is_official_balancer_vault registry tx.chain_id tx.to_address)
        then none
        else (if ltb (len tx.input_data) 10 then none else elim (deps.decode tx.input_data) [
          | none ↦ none
          | some payload ↦ vault_payload tx payload
        ])

    module _ (chain_id : ℕ) where
      -- A round of the loop of matchFlashLoanEvents.
      unfoldable pub match_vault_event : ContractEvent → Option BalancerFlashLoanEvent
      unfolding is_official_balancer_vault
      match_vault_event event =
          if not
            (is_official_balancer_vault registry chain_id (conv.address_hex event.contract_address))
          then none
          else elim event.topics [
            | [] ↦ none
            | topic ∷ rest ↦
                if not (topic == deps.event_id)
                then none
                else elim (deps.unpack_event event.payload) [
                  | none ↦ none
                  | some (amount, fee) ↦ elim rest [
                    | [] ↦ none
                    | recipient ∷ more ↦ elim more [
                      | [] ↦ none
                      | token ∷ others ↦ some (record {
                        provider = event.contract_address;
                        recipient = conv.topic_address recipient;
                        token = conv.topic_address token;
                        amount = amount;
                        fee_amount = fee;
                      })
                    ]
                  ]
                ]
          ]

      unfoldable pub match_vault_events : List ContractEvent → List BalancerFlashLoanEvent
      unfolding match_vault_event
      match_vault_events [] = []
      match_vault_events (event ∷ events) =
          cons_some (match_vault_event event) (match_vault_events events)

      unfoldable pub extract_from_flash_loan_events : ObservedTransaction → Found
      unfolding match_vault_events group_events all_legs decimal
      extract_from_flash_loan_events tx = elim deps.events_by_tx_hash [
        | none ↦ ok ([], [])
        | some view ↦ view (decimal chain_id) (conv.hex_to_hash tx.tx_hash) >>= λ events.
            let groups = group_events tx [] (match_vault_events events) in
            ok (map (λ g. g.1.interaction) groups, all_legs groups)
      ]

      -- A round of the loop over the transactions.
      unfoldable pub extract_loan_tx : ObservedTransaction → Found
      unfolding try_extract_from_top_level extract_from_flash_loan_events
      extract_loan_tx tx = elim (try_extract_from_top_level tx) [
        | none ↦ extract_from_flash_loan_events tx
        | some (err e) ↦ err e
        | some (ok (interaction, legs)) ↦ ok (interaction ∷ [], legs)
      ]

      unfoldable pub extract_loans : List ObservedTransaction → Found
      unfolding extract_each extract_loan_tx
      extract_loans txs = extract_each extract_loan_tx [] [] txs
