-- ===== src/Extractor/Aave/Origins.antt =====
-- Where the candidates and legs of an extraction come from.
use mathlib.Core.Path.{subst}
use flashloan_scanner.Base.{
  ℕ, ◌≡◌, List, [], ◌∷◌, ◌++◌, All, All-mono, All-append, All-self, mem-left, mem-last, Memᴰ,
  Option-cases, inl, inr, Outcome, ok, err,
}
use flashloan_scanner.Types.{ObservedTransaction, CandidateInteraction, InteractionLeg}
use flashloan_scanner.Rows.{Conversions}
use flashloan_scanner.Registry.{MemoryRegistry}
use flashloan_scanner.Extractor.Aave.Calls.{
  IsNewLeg, IsCallOf, Extracted, CallsPool, extract_tx-CallsPool, extract_tx-Made,
}
use flashloan_scanner.Extractor.Aave.{ExtractorDeps, extract_tx, extract_all, extract}

-- The leg is a new one of an interaction in the list.
pub record Belongs (interactions : List CandidateInteraction) (leg : InteractionLeg) : Type 0 where
  pub owner : CandidateInteraction
  pub listed : Memᴰ owner interactions
  pub is_new : IsNewLeg owner.interaction_id leg

Belongs-append :
    (is js : List CandidateInteraction) (leg : InteractionLeg)
    → Belongs is leg
    → Belongs (is ++ js) leg
Belongs-append is js leg b = record {
  owner = b.owner;
  listed = mem-left b.owner is js b.listed;
  is_new = b.is_new;
}

module _ (conv : Conversions) (deps : ExtractorDeps) (registry : MemoryRegistry)
    (chain_id : ℕ) where
  -- The interaction is the call of an official pool that a transaction of the list makes.
  pub record IsCandidate (txs : List ObservedTransaction) (i : CandidateInteraction) : Type 0 where
    pub tx : ObservedTransaction
    pub tx_listed : Memᴰ tx txs
    pub calls_pool : CallsPool conv deps registry chain_id tx
    pub is_call : IsCallOf conv deps tx i

  -- The result of a run over the rest of the transactions is sound.
  abbrev Sound :
      List ObservedTransaction → Outcome (List CandidateInteraction × List InteractionLeg) → Type 0
  Sound txs (err e) = Unit
  Sound txs (ok (interactions, legs)) =
      All (IsCandidate txs) interactions × All (Belongs interactions) legs

  extract_all-Sound :
      (txs rest : List ObservedTransaction) (interactions : List CandidateInteraction)
      (legs : List InteractionLeg)
      → All (λ tx. Memᴰ tx txs) rest
      → All (IsCandidate txs) interactions
      → All (Belongs interactions) legs
      → Sound txs (extract_all conv deps registry chain_id interactions legs rest)
  unfolding extract_all
  extract_all-Sound txs [] interactions legs inside candidates belong = (candidates, belong)
  extract_all-Sound txs (tx ∷ rest) interactions legs inside candidates belong =
      elim (Option-cases (extract_tx conv deps registry chain_id tx)) [
        | inl skip ↦
            rw (skip, extract_all)
              (extract_all-Sound txs rest interactions legs inside.1 candidates belong)
        | inr (err e, bad) ↦ rw (bad, extract_all) tt
        | inr (ok (i, new), good) ↦
            let made : Extracted conv deps tx i new =
              rw good at (extract_tx-Made conv deps registry chain_id tx) in
            rw (good, extract_all)
              (extract_all-Sound txs rest (interactions ++ i ∷ []) (legs ++ new) inside.1
                (All-append _ interactions (i ∷ []) candidates (
                  record {
                    tx = tx;
                    tx_listed = inside.0;
                    calls_pool = extract_tx-CallsPool conv deps registry chain_id tx good;
                    is_call = made.0;
                  },
                  tt,
                ))
                (All-append _ legs new (All-mono (Belongs-append interactions (i ∷ [])) legs belong)
                  (All-mono
                    (λ leg n. record { owner = i; listed = mem-last i interactions; is_new = n })
                    new made.1)))
      ]

  -- If Extract returns candidates and legs, every candidate is the call of an official pool by one
  -- of the transactions, under the id of the transaction's first call. Every leg belongs to one of
  -- the candidates and claims nothing that a verifier finds: no event seen, no strictness, no debt
  -- opened, no amount or address of a repayment, no premium and no settlement mode.
  pub extract-IsCandidate :
      (txs : List ObservedTransaction) {interactions : List CandidateInteraction}
      {legs : List InteractionLeg}
      → extract conv deps registry chain_id txs ≡ ok (interactions, legs)
      → All (IsCandidate txs) interactions × All (Belongs interactions) legs
  unfolding extract
  extract-IsCandidate txs h =
      subst (Sound txs) h (extract_all-Sound txs txs [] [] (All-self txs) tt tt)
