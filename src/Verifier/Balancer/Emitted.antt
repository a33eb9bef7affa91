-- ===== src/Verifier/Balancer/Emitted.antt =====
-- What the events that balancer_v2.go picks say of the logs.
use flashloan_scanner.Base.{◌≡◌, some, List, [], ◌∷◌, arith, All, All-mono, Memᴰ}
use flashloan_scanner.Rows.{Address, Hash, Conversions, ContractEvent}
use flashloan_scanner.Verifier.Logs.{Emitted, match_events-Emitted}
use flashloan_scanner.Verifier.Balancer.{
  BalancerFlashLoanEvent, FlashLoanData, VaultAbi, with_topics, match_flash_loan_events,
}

module _ (conv : Conversions) (abi : VaultAbi) (logs : List ContractEvent)
    (provider : Address) where
  -- One of the logs is of the vault, carries the event's id and decodes, and the event has the
  -- log's further topics and its data.
  pub record IsVaultEvent (event : BalancerFlashLoanEvent) : Type 0 where
    pub log : ContractEvent
    pub listed : Memᴰ log logs
    pub by_vault : log.contract_address ≡ provider
    pub recipient : Hash
    pub token : Hash
    pub others : List Hash
    pub its_topics : log.topics ≡ abi.flash_loan_id ∷ recipient ∷ token ∷ others
    pub decoded : FlashLoanData
    pub decodes : abi.unpack_flash_loan log.payload ≡ some decoded
    pub its_recipient : event.recipient ≡ conv.topic_address recipient
    pub its_token : event.token ≡ conv.topic_address token
    pub its_amount : event.amount ≡ decoded.amount
    pub its_fee : event.fee_amount ≡ decoded.fee_amount

  from_topics :
      (log : ContractEvent) (topics : List Hash) (decoded : FlashLoanData)
      (event : BalancerFlashLoanEvent)
      → Memᴰ log logs
      → log.contract_address ≡ provider
      → log.topics ≡ abi.flash_loan_id ∷ topics
      → abi.unpack_flash_loan log.payload ≡ some decoded
      → with_topics conv topics decoded ≡ some event
      → IsVaultEvent event
  unfolding with_topics
  from_topics log [] decoded event listed by t d h = cc
  from_topics log (recipient ∷ []) decoded event listed by t d h = cc
  from_topics log (recipient ∷ token ∷ others) decoded event listed by_vault t d h = record {
    log = log;
    listed = listed;
    by_vault = by_vault;
    recipient = recipient;
    token = token;
    others = others;
    its_topics = t;
    decoded = decoded;
    decodes = d;
    its_recipient = ground (arith, h);
    its_token = ground (arith, h);
    its_amount = ground (arith, h);
    its_fee = ground (arith, h);
  }

  pub match_flash_loan_events-IsVaultEvent :
      All IsVaultEvent (match_flash_loan_events conv abi logs provider)
  unfolding match_flash_loan_events
  match_flash_loan_events-IsVaultEvent =
      All-mono
        (λ event
            (m : Emitted abi.flash_loan_id abi.unpack_flash_loan (with_topics conv) provider logs
              event).
          from_topics m.log m.topics m.decoded event m.listed m.by_provider m.its_topics m.decodes
            m.reads)
        _
        (match_events-Emitted abi.flash_loan_id abi.unpack_flash_loan (with_topics conv) provider
          logs)
