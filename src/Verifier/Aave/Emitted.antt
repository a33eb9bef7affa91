-- ===== src/Verifier/Aave/Emitted.antt =====
-- What the events that aave_v3.go picks say of the logs.
use flashloan_scanner.Base.{◌≡◌, some, List, [], ◌∷◌, arith, All, All-mono, Memᴰ}
use flashloan_scanner.Rows.{Address, Hash, Conversions, ContractEvent}
use flashloan_scanner.Verifier.Logs.{Emitted, match_events-Emitted}
use flashloan_scanner.Verifier.Aave.{
  AaveFlashLoanEvent, FlashLoanData, PoolAbi, with_topics, match_flash_loan_events,
}

module _ (conv : Conversions) (abi : PoolAbi) (logs : List ContractEvent) (provider : Address) where
  -- One of the logs is of the pool, carries the event's id and decodes, and the event has the
  -- log's further topics and its data.
  pub record IsPoolEvent (event : AaveFlashLoanEvent) : Type 0 where
    pub log : ContractEvent
    pub listed : Memᴰ log logs
    pub by_pool : log.contract_address ≡ provider
    pub target : Hash
    pub asset : Hash
    pub referral : Hash
    pub others : List Hash
    pub its_topics : log.topics ≡ abi.flash_loan_id ∷ target ∷ asset ∷ referral ∷ others
    pub decoded : FlashLoanData
    pub decodes : abi.unpack_flash_loan log.payload ≡ some decoded
    pub its_target : event.target ≡ conv.topic_address target
    pub its_asset : event.asset ≡ conv.topic_address asset
    pub its_amount : event.amount ≡ decoded.amount
    pub its_mode : event.interest_rate_mode ≡ decoded.interest_rate_mode
    pub its_premium : event.premium ≡ decoded.premium

  from_topics :
      (log : ContractEvent) (topics : List Hash) (decoded : FlashLoanData)
      (event : AaveFlashLoanEvent)
      → Memᴰ log logs
      → log.contract_address ≡ provider
      → log.topics ≡ abi.flash_loan_id ∷ topics
      → abi.unpack_flash_loan log.payload ≡ some decoded
      → with_topics conv topics decoded ≡ some event
      → IsPoolEvent event
  unfolding with_topics
  from_topics log [] decoded event listed by t d h = cc
  from_topics log (target ∷ []) decoded event listed by t d h = cc
  from_topics log (target ∷ asset ∷ []) decoded event listed by t d h = cc
  from_topics log (target ∷ asset ∷ referral ∷ others) decoded event listed by_pool t d h = record {
    log = log;
    listed = listed;
    by_pool = by_pool;
    target = target;
    asset = asset;
    referral = referral;
    others = others;
    its_topics = t;
    decoded = decoded;
    decodes = d;
    its_target = ground (arith, h);
    its_asset = ground (arith, h);
    its_amount = ground (arith, h);
    its_mode = ground (arith, h);
    its_premium = ground (arith, h);
  }

  pub match_flash_loan_events-IsPoolEvent :
      All IsPoolEvent (match_flash_loan_events conv abi logs provider)
  unfolding match_flash_loan_events
  match_flash_loan_events-IsPoolEvent =
      All-mono
        (λ event
            (m : Emitted abi.flash_loan_id abi.unpack_flash_loan (with_topics conv) provider logs
              event).
          from_topics m.log m.topics m.decoded event m.listed m.by_provider m.its_topics m.decodes
            m.reads)
        _
        (match_events-Emitted abi.flash_loan_id abi.unpack_flash_loan (with_topics conv) provider
          logs)
