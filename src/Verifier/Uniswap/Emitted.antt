-- ===== src/Verifier/Uniswap/Emitted.antt =====
-- What the events that uniswap_v2.go picks say of the logs.
use flashloan_scanner.Base.{◌≡◌, some, List, [], ◌∷◌, arith, All, All-mono, Memᴰ}
use flashloan_scanner.Rows.{Address, Hash, Conversions, ContractEvent}
use flashloan_scanner.Verifier.Logs.{Emitted, match_events-Emitted}
use flashloan_scanner.Verifier.Uniswap.{
  UniswapV2SwapEvent, SwapData, PairAbi, with_topics, match_swap_events,
}

module _ (conv : Conversions) (abi : PairAbi) (logs : List ContractEvent) (provider : Address) where
  -- One of the logs is of the pair, carries the event's id and decodes, and the event has the
  -- log's further topics and its data.
  pub record IsPairEvent (event : UniswapV2SwapEvent) : Type 0 where
    pub log : ContractEvent
    pub listed : Memᴰ log logs
    pub by_pair : log.contract_address ≡ provider
    pub sender : Hash
    pub to : Hash
    pub others : List Hash
    pub its_topics : log.topics ≡ abi.swap_id ∷ sender ∷ to ∷ others
    pub decoded : SwapData
    pub decodes : abi.unpack_swap log.payload ≡ some decoded
    pub its_to : event.to ≡ conv.topic_address to
    pub its_amounts : event.amounts ≡ decoded

  from_topics :
      (log : ContractEvent) (topics : List Hash) (decoded : SwapData) (event : UniswapV2SwapEvent)
      → Memᴰ log logs
      → log.contract_address ≡ provider
      → log.topics ≡ abi.swap_id ∷ topics
      → abi.unpack_swap log.payload ≡ some decoded
      → with_topics conv topics decoded ≡ some event
      → IsPairEvent event
  unfolding with_topics
  from_topics log [] decoded event listed by t d h = cc
  from_topics log (sender ∷ []) decoded event listed by t d h = cc
  from_topics log (sender ∷ to ∷ others) decoded event listed by_pair t d h = record {
    log = log;
    listed = listed;
    by_pair = by_pair;
    sender = sender;
    to = to;
    others = others;
    its_topics = t;
    decoded = decoded;
    decodes = d;
    its_to = ground (arith, h);
    its_amounts = ground (arith, h);
  }

  pub match_swap_events-IsPairEvent : All IsPairEvent (match_swap_events conv abi logs provider)
  unfolding match_swap_events
  match_swap_events-IsPairEvent =
      All-mono
        (λ event (m : Emitted abi.swap_id abi.unpack_swap (with_topics conv) provider logs event).
          from_topics m.log m.topics m.decoded event m.listed m.by_provider m.its_topics m.decodes
            m.reads)
        _ (match_events-Emitted abi.swap_id abi.unpack_swap (with_topics conv) provider logs)
