-- ===== src/Extractor/Uniswap.antt =====
-- scanner/extractor/uniswap_v2.go. hexutil.Decode, the pair's ABI and uuid.NewSHA1 are parameters.
pub mod Swaps
use Prim.Native.String.{len}
use flashloan_scanner.Base.{
  ℕ, zero, suc, String, Bool, true, false, not, ◌||◌, Option, none, some, List, [], ◌∷◌, ◌++◌,
  length, ltb, str_eq, if◌then◌else◌, Outcome, ok, err, ◌>>=◌,
}
use flashloan_scanner.Base.Decimal.{decimal}
use flashloan_scanner.Types.{
  ObservedTransaction, CandidateInteraction, InteractionLeg, UniswapV2Pair, uniswap_v2,
  normal_level,
}
use flashloan_scanner.Rows.{Address, Uuid, Conversions}
use flashloan_scanner.Registry.{MemoryRegistry, is_official_uniswap_v2_pair, get_uniswap_v2_pair}
use flashloan_scanner.Extractor.Shared.{Found, extract_each, new_leg, uuid_source}

pub record UniswapV2SwapArgs : Type 0 where
  pub amount0_out : Option ℕ
  pub amount1_out : Option ℕ
  pub to : Address
  pub payload : List ℕ

pub record UniswapExtractorDeps : Type 0 where
  -- hexutil.Decode
  pub decode : String → Option (List ℕ)
  -- The name of the ABI's method for the first four bytes
  pub method_by_id : List ℕ → Option String
  -- `method.Inputs.Unpack` of the bytes behind them, with the test of the number of values
  pub unpack_swap : List ℕ → Outcome UniswapV2SwapArgs
  -- uuid.NewSHA1 in the name space OID
  pub new_sha1 : String → Uuid

-- The legs with one more for a positive amount.
unfoldable pub add_swap_leg :
    String → String → String → Option ℕ → List InteractionLeg → List InteractionLeg
unfolding decimal
add_swap_leg id token side none legs = legs
add_swap_leg id token side (some amount) legs =
    if ltb 0 amount
    then legs
      ++ new_leg id (length legs) token (some side) (some (decimal amount)) (some (decimal amount))
          none
        ∷ []
    else legs

module _ (conv : Conversions) (deps : UniswapExtractorDeps) where
  unfoldable pub swap_interaction :
      ObservedTransaction → UniswapV2Pair → UniswapV2SwapArgs → CandidateInteraction
  unfolding decimal
  swap_interaction tx pair args = record {
    interaction_id = conv.uuid_string (deps.new_sha1 (uuid_source tx.chain_id tx.tx_hash 0));
    interaction_ordinal = 0;
    chain_id = tx.chain_id;
    tx_hash = tx.tx_hash;
    block_number = tx.block_number;
    protocol = uniswap_v2;
    entrypoint = "swap";
    provider_address = tx.to_address;
    factory_address = pair.factory_address;
    pair_address = pair.pair_address;
    receiver_address = conv.address_hex args.to;
    callback_target = conv.address_hex args.to;
    initiator = "";
    on_behalf_of = "";
    candidate_level = normal_level;
    raw_method_selector = tx.method_selector;
    data_non_empty = some true;
  }

  unfoldable pub swap_legs : String → UniswapV2Pair → UniswapV2SwapArgs → List InteractionLeg
  unfolding add_swap_leg
  swap_legs id pair args =
      add_swap_leg id pair.token1 "token1" args.amount1_out
        (add_swap_leg id pair.token0 "token0" args.amount0_out [])

  module _ (registry : MemoryRegistry) (chain_id : ℕ) where
    -- The swap with its legs, unless there is nothing to take for a flash swap.
    unfoldable pub swap_of : ObservedTransaction → UniswapV2SwapArgs → Found
    unfolding swap_interaction swap_legs get_uniswap_v2_pair
    swap_of tx args = elim args.payload [
      | [] ↦ ok ([], [])
      | byte ∷ bytes ↦ elim (get_uniswap_v2_pair registry chain_id tx.to_address) [
        | none ↦ ok ([], [])
        | some pair ↦
            let interaction = swap_interaction tx pair args in
            elim (swap_legs interaction.interaction_id pair args) [
              | [] ↦ ok ([], [])
              | leg ∷ legs ↦ ok (interaction ∷ [], leg ∷ legs)
            ]
      ]
    ]

    unfoldable pub extract_swap : ObservedTransaction → List ℕ → Found
    unfolding swap_of
    extract_swap tx input = deps.unpack_swap input >>= λ args. swap_of tx args

    unfoldable pub extract_swap_payload : ObservedTransaction → List ℕ → Found
    unfolding extract_swap
    extract_swap_payload tx (a ∷ b ∷ c ∷ d ∷ input) =
        elim (deps.method_by_id (a ∷ b ∷ c ∷ d ∷ [])) [
          | none ↦ ok ([], [])
          | some name ↦ if str_eq name "swap" then extract_swap tx input else ok ([], [])
        ]
    extract_swap_payload tx _ = ok ([], [])

    -- A round of the loop over the transactions; `continue` adds nothing.
    unfoldable pub extract_swap_tx : ObservedTransaction → Found
    unfolding extract_swap_payload is_official_uniswap_v2_pair
    extract_swap_tx tx =
        if str_eq tx.to_address ""
          || not (is_official_uniswap_v2_pair registry chain_id tx.to_address)
        then ok ([], [])
        else (if ltb (len tx.input_data) 10 then ok ([], []) else elim (deps.decode tx.input_data) [
          | none ↦ ok ([], [])
          | some payload ↦ extract_swap_payload tx payload
        ])

    unfoldable pub extract_swaps : List ObservedTransaction → Found
    unfolding extract_each extract_swap_tx
    extract_swaps txs = extract_each extract_swap_tx [] [] txs
