-- ===== src/Verifier/Logs.antt =====
-- The loop by which each verifier picks the events of its kind from the logs of a transaction
-- (`matchFlashLoanEvents` of aave_v3.go and balancer_v2.go, `matchSwapEvents` of uniswap_v2.go). The
-- three differ in the event's id, in the ABI decoder and in what the further topics say.
use flashloan_scanner.Base.{
  ℕ, ◌≡◌, refl, not, Option, none, some, List, [], ◌∷◌, arith, ◌==◌, if◌then◌else◌, Memᴰ, All,
  cons_some, All-cons_some, cons_some, All-cons_some, Option-cases, inl, inr, All-mono,
}
use flashloan_scanner.Rows.{Address, Hash, ContractEvent}

module _ {D E : Type 0} (id : Hash) (unpack : List ℕ → Option D)
    (with_topics : List Hash → D → Option E) where
  -- One round of the loop; `none` is `continue`. The topics are given behind their first one.
  match_log : Address → Address → List Hash → List ℕ → Option E
  match_log provider contract [] payload = none
  match_log provider contract (topic ∷ topics) payload =
      if not (contract == provider)
      then none
      else (if not (topic == id)
          then none
          else elim (unpack payload) [ none ↦ none | some decoded ↦ with_topics topics decoded ])

  unfoldable pub match_events : List ContractEvent → Address → List E
  unfolding match_log
  match_events [] provider = []
  match_events (event ∷ events) provider =
      cons_some (match_log provider event.contract_address event.topics event.payload)
        (match_events events provider)

  -- The picked event `e` stands for a log of the provider that carries the id and decodes.
  pub record Emitted (provider : Address) (logs : List ContractEvent) (e : E) : Type 0 where
    pub log : ContractEvent
    pub listed : Memᴰ log logs
    pub by_provider : log.contract_address ≡ provider
    pub topics : List Hash
    pub its_topics : log.topics ≡ id ∷ topics
    pub decoded : D
    pub decodes : unpack log.payload ≡ some decoded
    pub reads : with_topics topics decoded ≡ some e

  match_log-Emitted :
      (provider : Address) (log : ContractEvent) (logs : List ContractEvent) (topics : List Hash)
      {e : E}
      → log.topics ≡ topics
      → match_log provider log.contract_address topics log.payload ≡ some e
      → Emitted provider (log ∷ logs) e
  unfolding match_log
  match_log-Emitted provider log logs [] t h = cc
  match_log-Emitted provider log logs (topic ∷ topics) {e} t h =
      elim (Option-cases (unpack log.payload)) [
        | inl bad ↦ absurd (ground (arith, bad))
        | inr (d, good) ↦ record {
          log = log;
          listed = Memᴰ.head refl;
          by_provider = ground arith;
          topics = topics;
          its_topics = ground arith;
          decoded = d;
          decodes = good;
          reads = ground arith;
        }
      ]

  Emitted-cons :
      (provider : Address) (log : ContractEvent) (logs : List ContractEvent) (e : E)
      → Emitted provider logs e
      → Emitted provider (log ∷ logs) e
  Emitted-cons provider log logs e m = record {
    log = m.log;
    listed = Memᴰ.tail m.listed;
    by_provider = m.by_provider;
    topics = m.topics;
    its_topics = m.its_topics;
    decoded = m.decoded;
    decodes = m.decodes;
    reads = m.reads;
  }

  pub match_events-Emitted :
      (provider : Address) (logs : List ContractEvent)
      → All (Emitted provider logs) (match_events logs provider)
  unfolding match_events
  match_events-Emitted provider [] = tt
  match_events-Emitted provider (log ∷ logs) =
      All-cons_some _ (match_log provider log.contract_address log.topics log.payload) _
        (λ e pick. match_log-Emitted provider log logs log.topics refl pick)
        (All-mono (Emitted-cons provider log logs) _ (match_events-Emitted provider logs))
