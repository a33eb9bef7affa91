-- ===== src/Extractor/Aave/Complete.antt =====
-- No call that can be extracted is left out.
use mathlib.Core.Path.{subst}
use flashloan_scanner.Base.{
  ℕ, ◌≡◌, some, List, [], ◌∷◌, ◌++◌, All, All-mono, All-self, Memᴰ, mem-left, mem-last,
  Option-cases, inl, inr, Outcome, ok, err,
}
use flashloan_scanner.Types.{ObservedTransaction, CandidateInteraction, InteractionLeg}
use flashloan_scanner.Rows.{Conversions}
use flashloan_scanner.Registry.{MemoryRegistry}
use flashloan_scanner.Extractor.Aave.{ExtractorDeps, extract_tx, extract_all, extract}

mem-right : {A : Type 0} (x : A) (xs ys : List A) → Memᴰ x ys → Memᴰ x (xs ++ ys)
mem-right x [] ys m = m
mem-right x (y ∷ xs) ys m = Memᴰ.tail (mem-right x xs ys m)

module _ (conv : Conversions) (deps : ExtractorDeps) (registry : MemoryRegistry)
    (chain_id : ℕ) where
  -- The candidate and its legs are in the result, if there is one.
  abbrev Holds :
      CandidateInteraction
      → List InteractionLeg
      → Outcome (List CandidateInteraction × List InteractionLeg)
      → Type 0
  Holds i new (err e) = Unit
  Holds i new (ok (interactions, legs)) = Memᴰ i interactions × All (λ leg. Memᴰ leg legs) new

  extract_all-keeps :
      (i : CandidateInteraction) (new : List InteractionLeg) (rest : List ObservedTransaction)
      (interactions : List CandidateInteraction) (legs : List InteractionLeg)
      → Memᴰ i interactions
      → All (λ leg. Memᴰ leg legs) new
      → Holds i new (extract_all conv deps registry chain_id interactions legs rest)
  unfolding extract_all
  extract_all-keeps i new [] interactions legs m n = (m, n)
  extract_all-keeps i new (tx ∷ rest) interactions legs m n =
      elim (Option-cases (extract_tx conv deps registry chain_id tx)) [
        | inl skip ↦ rw (skip, extract_all) (extract_all-keeps i new rest interactions legs m n)
        | inr (err e, bad) ↦ rw (bad, extract_all) tt
        | inr (ok (j, more), good) ↦
            rw (good, extract_all)
              (extract_all-keeps i new rest (interactions ++ j ∷ []) (legs ++ more)
                (mem-left i interactions (j ∷ []) m)
                (All-mono (λ leg l. mem-left leg legs more l) new n))
      ]

  extract_all-Holds :
      (tx : ObservedTransaction) (i : CandidateInteraction) (new : List InteractionLeg)
      (rest : List ObservedTransaction) (interactions : List CandidateInteraction)
      (legs : List InteractionLeg)
      → Memᴰ tx rest
      → extract_tx conv deps registry chain_id tx ≡ some (ok (i, new))
      → Holds i new (extract_all conv deps registry chain_id interactions legs rest)
  unfolding extract_all
  extract_all-Holds tx i new [] interactions legs m given = elim m [ ]
  extract_all-Holds tx i new (first ∷ rest) interactions legs (Memᴰ.head same) given =
      let here : extract_tx conv deps registry chain_id first ≡ some (ok (i, new)) =
        subst (λ t. extract_tx conv deps registry chain_id t ≡ some (ok (i, new))) same given in
      rw (here, extract_all)
        (extract_all-keeps i new rest (interactions ++ i ∷ []) (legs ++ new)
          (mem-last i interactions)
          (All-mono (λ leg l. mem-right leg legs new l) new (All-self new)))
  extract_all-Holds tx i new (first ∷ rest) interactions legs (Memᴰ.tail m) given =
      elim (Option-cases (extract_tx conv deps registry chain_id first)) [
        | inl skip ↦
            rw (skip, extract_all) (extract_all-Holds tx i new rest interactions legs m given)
        | inr (err e, bad) ↦ rw (bad, extract_all) tt
        | inr (ok (j, more), good) ↦
            rw (good, extract_all)
              (extract_all-Holds tx i new rest (interactions ++ j ∷ []) (legs ++ more) m given)
      ]

  -- If Extract returns candidates and legs, they contain the candidate and the legs of every
  -- transaction of the list whose call can be extracted.
  pub extract_complete :
      (txs : List ObservedTransaction) (tx : ObservedTransaction) (i : CandidateInteraction)
      (new : List InteractionLeg) {interactions : List CandidateInteraction}
      {legs : List InteractionLeg}
      → Memᴰ tx txs
      → extract_tx conv deps registry chain_id tx ≡ some (ok (i, new))
      → extract conv deps registry chain_id txs ≡ ok (interactions, legs)
      → Memᴰ i interactions × All (λ leg. Memᴰ leg legs) new
  unfolding extract
  extract_complete txs tx i new m given h =
      subst (Holds i new) h (extract_all-Holds tx i new txs [] [] m given)
