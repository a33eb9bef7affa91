-- ===== src/Extractor/Uniswap/Swaps.antt =====
-- Where the candidates and legs of the Uniswap V2 extractor come from.
use mathlib.Core.Path.{subst}
use Prim.Native.String.{len}
use flashloan_scanner.Base.{
  ℕ, ◌≡◌, ◌<◌, ◌⊎◌, ◌≢◌, ◌++◌, length, str_eq→eq, refl, String, true, not, ◌||◌, Option, none, some,
  List, [], ◌∷◌, arith, All, All-mono, All-append, All-self, Memᴰ, List-cases, Option-cases,
  Outcome-cases, Bool-cases, inl, inr, ok, ltb, str_eq,
}
use flashloan_scanner.Base.Decimal.{decimal}
use flashloan_scanner.Types.{
  ObservedTransaction, CandidateInteraction, InteractionLeg, UniswapV2Pair,
}
use flashloan_scanner.Rows.{Conversions}
use flashloan_scanner.Registry.{MemoryRegistry, is_official_uniswap_v2_pair, get_uniswap_v2_pair}
use flashloan_scanner.Extractor.Shared.{Found, AllFound, extract_each-AllFound, uuid_source}
use flashloan_scanner.Extractor.Uniswap.{
  UniswapExtractorDeps, UniswapV2SwapArgs, add_swap_leg, swap_interaction, swap_legs, swap_of,
  extract_swap, extract_swap_payload, extract_swap_tx, extract_swaps,
}

module _ (conv : Conversions) (deps : UniswapExtractorDeps) (registry : MemoryRegistry)
    (chain_id : ℕ) (txs : List ObservedTransaction) where
  -- A listed transaction that calls `swap` of an official pair, with a payload for the callback;
  -- the registry knows the pair.
  pub record SwapCall : Type 0 where
    pub tx : ObservedTransaction
    pub listed : Memᴰ tx txs
    pub official : is_official_uniswap_v2_pair registry chain_id tx.to_address ≡ true
    pub selector : List ℕ
    pub input : List ℕ
    pub its_input : deps.decode tx.input_data ≡ some (selector ++ input)
    pub four_bytes : length selector ≡ 4
    pub its_method : deps.method_by_id selector ≡ some "swap"
    pub args : UniswapV2SwapArgs
    pub unpacked : deps.unpack_swap input ≡ ok args
    pub called_back : args.payload ≢ []
    pub pair : UniswapV2Pair
    pub known : get_uniswap_v2_pair registry chain_id tx.to_address ≡ some pair

  abbrev pub id_of : SwapCall → String
  id_of c = conv.uuid_string (deps.new_sha1 (uuid_source c.tx.chain_id c.tx.tx_hash 0))

  pub record IsFlashSwap (i : CandidateInteraction) : Type 0 where
    pub call : SwapCall
    pub its_id : i.interaction_id ≡ id_of call
    pub its_hash : i.tx_hash ≡ call.tx.tx_hash
    pub its_provider : i.provider_address ≡ call.tx.to_address
    pub its_pair : i.pair_address ≡ call.pair.pair_address
    pub its_factory : i.factory_address ≡ call.pair.factory_address
    pub its_receiver : i.receiver_address ≡ conv.address_hex call.args.to
    pub with_data : i.data_non_empty ≡ some true

  -- The token is one of the pair's, and the amount is the one that the call takes of it.
  abbrev pub Takes : SwapCall → String → ℕ → Type 0
  Takes c token amount =
      (token ≡ c.pair.token0) × (c.args.amount0_out ≡ some amount)
      ⊎ (token ≡ c.pair.token1) × (c.args.amount1_out ≡ some amount)

  pub record IsSwapLeg (leg : InteractionLeg) : Type 0 where
    pub call : SwapCall
    pub its_id : leg.interaction_id ≡ id_of call
    pub amount : ℕ
    pub takes : Takes call leg.asset_address amount
    pub positive : 0 < amount
    pub borrowed : leg.amount_borrowed ≡ some (decimal amount)
    pub paid_out : leg.amount_out ≡ some (decimal amount)

  add_swap_leg-IsSwapLeg :
      (c : SwapCall) (token side : String) (amount : Option ℕ) (legs : List InteractionLeg)
      → ((n : ℕ) → amount ≡ some n → Takes c token n)
      → All IsSwapLeg legs
      → All IsSwapLeg (add_swap_leg (id_of c) token side amount legs)
  unfolding add_swap_leg
  add_swap_leg-IsSwapLeg c token side none legs its hs = hs
  add_swap_leg-IsSwapLeg c token side (some amount) legs its hs = elim (Bool-cases (ltb 0 amount)) [
    | inr zero_out ↦ rw (zero_out, add_swap_leg) hs
    | inl some_out ↦
        rw (some_out, add_swap_leg)
          (All-append IsSwapLeg legs _ hs (
            record {
              call = c;
              its_id = refl;
              amount = amount;
              takes = its amount refl;
              positive = ground arith;
              borrowed = refl;
              paid_out = refl;
            },
            tt,
          ))
  ]

  swap_legs-IsSwapLeg : (c : SwapCall) → All IsSwapLeg (swap_legs conv deps (id_of c) c.pair c.args)
  unfolding swap_legs
  swap_legs-IsSwapLeg c =
      add_swap_leg-IsSwapLeg c c.pair.token1 "token1" c.args.amount1_out _ (λ n e. inr (refl, e))
        (add_swap_leg-IsSwapLeg c c.pair.token0 "token0" c.args.amount0_out []
          (λ n e. inl (refl, e)) tt)

  abbrev Good : Found → Type 0
  Good = AllFound IsFlashSwap IsSwapLeg

  call_of-Good : (c : SwapCall) → Good (swap_of conv deps registry chain_id c.tx c.args)
  unfolding swap_of swap_interaction
  call_of-Good c = elim (List-cases c.args.payload) [
    | inl plain ↦ absurd (c.called_back plain)
    | inr (byte, bytes, filled) ↦
        let new = swap_legs-IsSwapLeg c in
        elim (List-cases (swap_legs conv deps (id_of c) c.pair c.args)) [
          | inl nothing ↦ rw (filled, c.known, nothing, swap_of) (tt, tt)
          | inr (leg, legs, some_legs) ↦
              rw (filled, c.known, some_legs, swap_of)
                (
                  (
                    record {
                      call = c;
                      its_id = refl;
                      its_hash = refl;
                      its_provider = refl;
                      its_pair = refl;
                      its_factory = refl;
                      its_receiver = refl;
                      with_data = refl;
                    },
                    tt,
                  ),
                  rw some_legs at new,
                )
        ]
  ]

  swap_of-Good :
      (tx : ObservedTransaction) (selector input : List ℕ) (args : UniswapV2SwapArgs)
      → Memᴰ tx txs
      → is_official_uniswap_v2_pair registry chain_id tx.to_address ≡ true
      → deps.decode tx.input_data ≡ some (selector ++ input)
      → length selector ≡ 4
      → deps.method_by_id selector ≡ some "swap"
      → deps.unpack_swap input ≡ ok args
      → Good (swap_of conv deps registry chain_id tx args)
  unfolding swap_of
  swap_of-Good tx selector input args listed official decoded four method unpacked =
      elim (List-cases args.payload) [
        | inl plain ↦ rw (plain, swap_of) (tt, tt)
        | inr (byte, bytes, filled) ↦
            elim (Option-cases (get_uniswap_v2_pair registry chain_id tx.to_address)) [
              | inl unknown ↦ rw (filled, unknown, swap_of) (tt, tt)
              | inr (pair, known) ↦ call_of-Good (record {
                tx = tx;
                listed = listed;
                official = official;
                selector = selector;
                input = input;
                its_input = decoded;
                four_bytes = four;
                its_method = method;
                args = args;
                unpacked = unpacked;
                called_back = λ e. cc (filled, e);
                pair = pair;
                known = known;
              })
            ]
      ]

  payload-Good :
      (tx : ObservedTransaction) (payload : List ℕ)
      → Memᴰ tx txs
      → is_official_uniswap_v2_pair registry chain_id tx.to_address ≡ true
      → deps.decode tx.input_data ≡ some payload
      → Good (extract_swap_payload conv deps registry chain_id tx payload)
  unfolding extract_swap_payload extract_swap
  payload-Good tx [] listed official decoded = (tt, tt)
  payload-Good tx (a ∷ []) listed official decoded = (tt, tt)
  payload-Good tx (a ∷ b ∷ []) listed official decoded = (tt, tt)
  payload-Good tx (a ∷ b ∷ c ∷ []) listed official decoded = (tt, tt)
  payload-Good tx (a ∷ b ∷ c ∷ d ∷ input) listed official decoded =
      elim (Option-cases (deps.method_by_id (a ∷ b ∷ c ∷ d ∷ []))) [
        | inl missing ↦ rw (missing, extract_swap_payload) (tt, tt)
        | inr (name, there) ↦ elim (Bool-cases (str_eq name "swap")) [
          | inr other ↦ rw (there, other, extract_swap_payload) (tt, tt)
          | inl swap ↦ elim (Outcome-cases (deps.unpack_swap input)) [
            | inr (e, bad) ↦ rw (there, swap, bad, extract_swap_payload) tt
            | inl (args, good) ↦
                rw (there, swap, good, extract_swap_payload)
                  (swap_of-Good tx (a ∷ b ∷ c ∷ d ∷ []) input args listed official decoded
                    (omega arith) (rw (str_eq→eq name "swap" swap) at there) good)
          ]
        ]
      ]

  extract_swap_tx-Good :
      (tx : ObservedTransaction)
      → Memᴰ tx txs
      → Good (extract_swap_tx conv deps registry chain_id tx)
  unfolding extract_swap_tx
  extract_swap_tx-Good tx listed =
      elim (Bool-cases (
        str_eq tx.to_address ""
        || not (is_official_uniswap_v2_pair registry chain_id tx.to_address))) [
          | inl foreign ↦ rw (foreign, extract_swap_tx) (tt, tt)
          | inr to_pair ↦ elim (Bool-cases (ltb (len tx.input_data) 10)) [
            | inl short ↦ rw (to_pair, short, extract_swap_tx) (tt, tt)
            | inr long ↦ elim (Option-cases (deps.decode tx.input_data)) [
              | inl bad ↦ rw (to_pair, long, bad, extract_swap_tx) (tt, tt)
              | inr (payload, good) ↦
                  rw (to_pair, long, good, extract_swap_tx)
                    (payload-Good tx payload listed (ground (arith, to_pair)) good)
            ]
          ]
        ]

  -- If Extract of the Uniswap V2 extractor returns candidates and legs, every candidate is the
  -- call of `swap` on an official pair, which the registry knows, by a listed transaction, whose
  -- input decodes to arguments with a payload that is not empty; its receiver is theirs. Every leg
  -- is one of such a call, of one of the pair's tokens, with the positive amount that the arguments
  -- take of it, both paid out and borrowed.
  pub extract_swaps-IsFlashSwap :
      {interactions : List CandidateInteraction} {legs : List InteractionLeg}
      → extract_swaps conv deps registry chain_id txs ≡ ok (interactions, legs)
      → All IsFlashSwap interactions × All IsSwapLeg legs
  unfolding extract_swaps
  extract_swaps-IsFlashSwap h = subst Good h (
      extract_each-AllFound IsFlashSwap IsSwapLeg _ txs [] []
        (All-mono (λ tx m. extract_swap_tx-Good tx m) txs (All-self txs)) tt tt)
