-- ===== src/Extractor/Aave.antt =====
-- scanner/extractor/aave_v3.go. hexutil.Decode, the pool's ABI and uuid.NewSHA1 are parameters.
pub mod Calls
pub mod Origins
pub mod Complete
use Prim.Native.String.{len}
use flashloan_scanner.Base.{
  ℕ, zero, suc, ◌+◌, ◌%◌, ◌^◌, String, Bool, true, false, not, ◌||◌, Option, none, some, List, [],
  ◌∷◌, ◌++◌, length, ltb, str_eq, if◌then◌else◌, cond, Outcome, ok, err, ◌>>=◌, text_append,
}
use flashloan_scanner.Base.Decimal.{decimal}
use flashloan_scanner.Types.{
  ObservedTransaction, CandidateInteraction, InteractionLeg, aave_v3, normal_level,
}
use flashloan_scanner.Rows.{Address, Uuid, Conversions}
use flashloan_scanner.Registry.{MemoryRegistry, is_official_aave_pool}
use flashloan_scanner.Verifier.Convert.{big_int_string, string_ptr}

-- The fields that the extractor reads; a nil number of a slice is `none`.
pub record FlashLoanArgs : Type 0 where
  pub receiver_address : Address
  pub assets : List Address
  pub amounts : List (Option ℕ)
  pub interest_rate_modes : List (Option ℕ)
  pub on_behalf_of : Address

pub record FlashLoanSimpleArgs : Type 0 where
  pub receiver_address : Address
  pub asset : Address
  pub amount : ℕ

pub record ExtractorDeps : Type 0 where
  -- hexutil.Decode
  pub decode : String → Option (List ℕ)
  -- The name of the ABI's method for the first four bytes
  pub method_by_id : List ℕ → Option String
  -- `method.Inputs.Unpack` of the bytes behind them, with the test of the number of values
  pub unpack_flash_loan : List ℕ → Outcome FlashLoanArgs
  pub unpack_flash_loan_simple : List ℕ → Outcome FlashLoanSimpleArgs
  -- uuid.NewSHA1 in the name space OID
  pub new_sha1 : String → Uuid

-- The element of a slice at an index, `none` if the index is out of range or the element is nil.
abbrev pub number_at : ℕ → List (Option ℕ) → Option ℕ
number_at i [] = none
number_at zero (x ∷ xs) = x
number_at (suc i) (x ∷ xs) = number_at i xs

-- `int(v.Int64())`: the low 64 bits; a Go `int` is written as its word.
abbrev pub mode_of : Option ℕ → ℕ
mode_of none = 0
mode_of (some v) = v % 2 ^ 64

-- The leg before verification, with the fields that the extractor leaves at their zero values.
abbrev pub borrowed_leg : String → ℕ → String → Option String → ℕ → InteractionLeg
borrowed_leg id i asset amount mode = record {
  interaction_id = id;
  leg_index = i;
  asset_address = asset;
  asset_role = "borrowed";
  token_side = none;
  amount_out = none;
  amount_in = none;
  amount_borrowed = amount;
  amount_repaid = none;
  premium_amount = none;
  fee_amount = none;
  interest_rate_mode = some mode;
  repaid_to_address = none;
  opened_debt = false;
  strict_leg = false;
  event_seen = false;
  settlement_mode = none;
}

module _ (conv : Conversions) (deps : ExtractorDeps) where
  unfoldable pub interaction_uuid : ℕ → String → ℕ → Uuid
  interaction_uuid chain_id tx_hash ordinal = deps.new_sha1 (
      text_append (decimal chain_id)
        (text_append ":" (text_append tx_hash (text_append ":" (decimal ordinal)))))

  -- The interaction of a call; the two methods differ in the entrypoint, the receiver and the
  -- account on whose behalf debt is opened.
  unfoldable pub interaction_of :
      ObservedTransaction → String → String → String → CandidateInteraction
  unfolding interaction_uuid
  interaction_of tx entrypoint receiver on_behalf_of = record {
    interaction_id = conv.uuid_string (interaction_uuid tx.chain_id tx.tx_hash 0);
    interaction_ordinal = 0;
    chain_id = tx.chain_id;
    tx_hash = tx.tx_hash;
    block_number = tx.block_number;
    protocol = aave_v3;
    entrypoint = entrypoint;
    provider_address = tx.to_address;
    factory_address = "";
    pair_address = "";
    receiver_address = receiver;
    callback_target = "";
    initiator = "";
    on_behalf_of = on_behalf_of;
    candidate_level = normal_level;
    raw_method_selector = tx.method_selector;
    data_non_empty = none;
  }

  -- The loop over the assets, from index `i` on.
  unfoldable pub flash_loan_legs : String → FlashLoanArgs → ℕ → List Address → List InteractionLeg
  flash_loan_legs id args i [] = []
  flash_loan_legs id args i (asset ∷ assets) =
      borrowed_leg id i (conv.address_hex asset)
        (string_ptr (big_int_string (number_at i args.amounts)))
        (mode_of (number_at i args.interest_rate_modes))
      ∷ flash_loan_legs id args (suc i) assets

  unfoldable pub extract_flash_loan :
      ObservedTransaction → List ℕ → Outcome (CandidateInteraction × List InteractionLeg)
  unfolding interaction_of flash_loan_legs
  extract_flash_loan tx input = do
    args ← deps.unpack_flash_loan input
    let interaction =
        interaction_of tx "flashLoan" (conv.address_hex args.receiver_address)
          (conv.address_hex args.on_behalf_of)
    ok (interaction, flash_loan_legs interaction.interaction_id args 0 args.assets)

  unfoldable pub extract_flash_loan_simple :
      ObservedTransaction → List ℕ → Outcome (CandidateInteraction × List InteractionLeg)
  unfolding interaction_of
  extract_flash_loan_simple tx input = do
    args ← deps.unpack_flash_loan_simple input
    let interaction =
        interaction_of tx "flashLoanSimple" (conv.address_hex args.receiver_address) ""
    ok (
      interaction,
      borrowed_leg interaction.interaction_id 0 (conv.address_hex args.asset)
            (string_ptr (decimal args.amount)) 0
          ∷ [],
    )

  -- The switch over the method's name; `none` is `continue`.
  unfoldable pub extract_method :
      ObservedTransaction
      → String
      → List ℕ
      → Option (Outcome (CandidateInteraction × List InteractionLeg))
  unfolding extract_flash_loan extract_flash_loan_simple
  extract_method tx name input =
      if str_eq name "flashLoan"
      then some (extract_flash_loan tx input)
      else (if str_eq name "flashLoanSimple"
          then some (extract_flash_loan_simple tx input)
          else none)

  unfoldable pub extract_payload :
      ObservedTransaction → List ℕ → Option (Outcome (CandidateInteraction × List InteractionLeg))
  unfolding extract_method
  extract_payload tx (a ∷ b ∷ c ∷ d ∷ input) = elim (deps.method_by_id (a ∷ b ∷ c ∷ d ∷ [])) [
    | none ↦ none
    | some name ↦ extract_method tx name input
  ]
  extract_payload tx _ = none

  module _ (registry : MemoryRegistry) (chain_id : ℕ) where
    -- A round of the loop over the transactions.
    unfoldable pub extract_tx :
        ObservedTransaction → Option (Outcome (CandidateInteraction × List InteractionLeg))
    unfolding extract_payload is_official_aave_pool
    extract_tx tx =
        if str_eq tx.to_address "" || not (is_official_aave_pool registry chain_id tx.to_address)
        then none
        else (if ltb (len tx.input_data) 10 then none else elim (deps.decode tx.input_data) [
          | none ↦ none
          | some payload ↦ extract_payload tx payload
        ])

    -- `Extract`, with the interactions and legs that are appended so far.
    unfoldable pub extract_all :
        List CandidateInteraction
        → List InteractionLeg
        → List ObservedTransaction
        → Outcome (List CandidateInteraction × List InteractionLeg)
    unfolding extract_tx
    extract_all interactions legs [] = ok (interactions, legs)
    extract_all interactions legs (tx ∷ txs) = elim (extract_tx tx) [
      | none ↦ extract_all interactions legs txs
      | some (err e) ↦ err e
      | some (ok (interaction, new_legs)) ↦
          extract_all (interactions ++ interaction ∷ []) (legs ++ new_legs) txs
    ]

    unfoldable pub extract :
        List ObservedTransaction → Outcome (List CandidateInteraction × List InteractionLeg)
    unfolding extract_all
    extract txs = extract_all [] [] txs
