-- ===== src/Extractor/Aave/Calls.antt =====
-- What one transaction gives an extraction.
use flashloan_scanner.Base.{
  ℕ, suc, String, ◌≡◌, ◌≢◌, refl, true, false, not, ◌||◌, Option, none, some, List, [], ◌∷◌, arith,
  All, str_eq, eq_iff, Bool-cases, Option-cases, Outcome-cases, inl, inr, Outcome, ok, err, ltb,
}
use Prim.Native.String.{len}
use flashloan_scanner.Types.{
  ObservedTransaction, CandidateInteraction, InteractionLeg, aave_v3, normal_level,
}
use flashloan_scanner.Rows.{Address, Conversions}
use flashloan_scanner.Registry.{MemoryRegistry, is_official_aave_pool}
use flashloan_scanner.Extractor.Aave.{
  ExtractorDeps, FlashLoanArgs, interaction_uuid, interaction_of, flash_loan_legs,
  extract_flash_loan, extract_flash_loan_simple, extract_method, extract_payload, extract_tx,
}

-- The leg of an interaction that no verifier has seen: it tells of no event, no repayment and no
-- debt.
pub record IsNewLeg (id : String) (leg : InteractionLeg) : Type 0 where
  pub its_id : leg.interaction_id ≡ id
  pub not_opened : leg.opened_debt ≡ false
  pub not_strict : leg.strict_leg ≡ false
  pub not_seen : leg.event_seen ≡ false
  pub not_repaid : leg.amount_repaid ≡ none
  pub no_repaid_to : leg.repaid_to_address ≡ none
  pub no_premium : leg.premium_amount ≡ none
  pub no_settlement : leg.settlement_mode ≡ none

module _ (conv : Conversions) (deps : ExtractorDeps) where
  -- The interaction is the call that the transaction makes.
  pub record IsCallOf (tx : ObservedTransaction) (i : CandidateInteraction) : Type 0 where
    pub its_id :
        i.interaction_id ≡ conv.uuid_string (interaction_uuid conv deps tx.chain_id tx.tx_hash 0)
    pub its_hash : i.tx_hash ≡ tx.tx_hash
    pub its_block : i.block_number ≡ tx.block_number
    pub its_provider : i.provider_address ≡ tx.to_address
    pub its_protocol : i.protocol ≡ aave_v3
    pub its_level : i.candidate_level ≡ normal_level

  abbrev pub Extracted : ObservedTransaction → CandidateInteraction → List InteractionLeg → Type 0
  Extracted tx i legs = IsCallOf tx i × All (IsNewLeg i.interaction_id) legs

  interaction_of-IsCallOf :
      (tx : ObservedTransaction) (entrypoint receiver on_behalf_of : String)
      → IsCallOf tx (interaction_of conv deps tx entrypoint receiver on_behalf_of)
  unfolding interaction_of
  interaction_of-IsCallOf tx entrypoint receiver on_behalf_of = record {
    its_id = refl;
    its_hash = refl;
    its_block = refl;
    its_provider = refl;
    its_protocol = refl;
    its_level = refl;
  }

  flash_loan_legs-IsNewLeg :
      (id : String) (args : FlashLoanArgs) (i : ℕ) (assets : List Address)
      → All (IsNewLeg id) (flash_loan_legs conv deps id args i assets)
  unfolding flash_loan_legs
  flash_loan_legs-IsNewLeg id args i [] = tt
  flash_loan_legs-IsNewLeg id args i (asset ∷ assets) = (
    record {
      its_id = refl;
      not_opened = refl;
      not_strict = refl;
      not_seen = refl;
      not_repaid = refl;
      no_repaid_to = refl;
      no_premium = refl;
      no_settlement = refl;
    },
    flash_loan_legs-IsNewLeg id args (suc i) assets,
  )

  -- What an extraction gives, if it gives anything.
  abbrev pub Made :
      ObservedTransaction → Outcome (CandidateInteraction × List InteractionLeg) → Type 0
  Made tx (err e) = Unit
  Made tx (ok (i, legs)) = Extracted tx i legs

  abbrev pub MadeIfAny :
      ObservedTransaction → Option (Outcome (CandidateInteraction × List InteractionLeg)) → Type 0
  MadeIfAny tx none = Unit
  MadeIfAny tx (some result) = Made tx result

  extract_flash_loan-Made :
      (tx : ObservedTransaction) (input : List ℕ) → Made tx (extract_flash_loan conv deps tx input)
  unfolding extract_flash_loan
  extract_flash_loan-Made tx input = elim (Outcome-cases (deps.unpack_flash_loan input)) [
    | inl (args, good) ↦
        rw (good, extract_flash_loan)
          (
            interaction_of-IsCallOf tx "flashLoan" (conv.address_hex args.receiver_address)
                (conv.address_hex args.on_behalf_of),
            flash_loan_legs-IsNewLeg _ args 0 args.assets,
          )
    | inr (e, bad) ↦ rw (bad, extract_flash_loan) tt
  ]

  extract_flash_loan_simple-Made :
      (tx : ObservedTransaction) (input : List ℕ)
      → Made tx (extract_flash_loan_simple conv deps tx input)
  unfolding extract_flash_loan_simple
  extract_flash_loan_simple-Made tx input =
      elim (Outcome-cases (deps.unpack_flash_loan_simple input)) [
        | inl (args, good) ↦
            rw (good, extract_flash_loan_simple)
              (
                interaction_of-IsCallOf tx "flashLoanSimple"
                    (conv.address_hex args.receiver_address) "",
                (
                  record {
                    its_id = refl;
                    not_opened = refl;
                    not_strict = refl;
                    not_seen = refl;
                    not_repaid = refl;
                    no_repaid_to = refl;
                    no_premium = refl;
                    no_settlement = refl;
                  },
                  tt,
                ),
              )
        | inr (e, bad) ↦ rw (bad, extract_flash_loan_simple) tt
      ]

  extract_method-Made :
      (tx : ObservedTransaction) (name : String) (input : List ℕ)
      → MadeIfAny tx (extract_method conv deps tx name input)
  unfolding extract_method
  extract_method-Made tx name input = elim (Bool-cases (str_eq name "flashLoan")) [
    | inl several ↦ rw (several, extract_method) (extract_flash_loan-Made tx input)
    | inr other ↦ elim (Bool-cases (str_eq name "flashLoanSimple")) [
      | inl simple ↦ rw (other, simple, extract_method) (extract_flash_loan_simple-Made tx input)
      | inr unknown ↦ rw (other, unknown, extract_method) tt
    ]
  ]

  extract_payload-Made :
      (tx : ObservedTransaction) (payload : List ℕ)
      → MadeIfAny tx (extract_payload conv deps tx payload)
  unfolding extract_payload
  extract_payload-Made tx [] = tt
  extract_payload-Made tx (a ∷ []) = tt
  extract_payload-Made tx (a ∷ b ∷ []) = tt
  extract_payload-Made tx (a ∷ b ∷ c ∷ []) = tt
  extract_payload-Made tx (a ∷ b ∷ c ∷ d ∷ input) =
      elim (Option-cases (deps.method_by_id (a ∷ b ∷ c ∷ d ∷ []))) [
        | inl missing ↦ rw (missing, extract_payload) tt
        | inr (name, there) ↦ rw (there, extract_payload) (extract_method-Made tx name input)
      ]

  module _ (registry : MemoryRegistry) (chain_id : ℕ) where
    -- The transaction calls an official pool of the chain.
    pub record CallsPool (tx : ObservedTransaction) : Type 0 where
      pub has_target : tx.to_address ≢ ""
      pub is_official : is_official_aave_pool registry chain_id tx.to_address ≡ true

    pub extract_tx-CallsPool :
        (tx : ObservedTransaction) {result : Outcome (CandidateInteraction × List InteractionLeg)}
        → extract_tx conv deps registry chain_id tx ≡ some result
        → CallsPool tx
    unfolding extract_tx
    extract_tx-CallsPool tx h = record {
      has_target = λ e. ground (arith, eq_iff tx.to_address "");
      is_official = ground arith;
    }

    pub extract_tx-Made :
        (tx : ObservedTransaction) → MadeIfAny tx (extract_tx conv deps registry chain_id tx)
    unfolding extract_tx
    extract_tx-Made tx =
        elim (Bool-cases (
          str_eq tx.to_address "" || not (is_official_aave_pool registry chain_id tx.to_address))) [
            | inl foreign ↦ rw (foreign, extract_tx) tt
            | inr pool ↦ elim (Bool-cases (ltb (len tx.input_data) 10)) [
              | inl short ↦ rw (pool, short, extract_tx) tt
              | inr long ↦ elim (Option-cases (deps.decode tx.input_data)) [
                | inl bad ↦ rw (pool, long, bad, extract_tx) tt
                | inr (payload, good) ↦
                    rw (pool, long, good, extract_tx) (extract_payload-Made tx payload)
              ]
            ]
          ]
