-- ===== src/Extractor/Shared.antt =====
-- What the extractors of Balancer V2 and Uniswap V2 share: the loop of Extract over the
-- transactions, which stops at an error, and the values that both write.
use flashloan_scanner.Base.{
  ℕ, String, false, Option, none, List, [], ◌∷◌, ◌++◌, text_append, Outcome, ok, err, All,
  All-append, Outcome-cases, inl, inr,
}
use flashloan_scanner.Base.Decimal.{decimal}
use flashloan_scanner.Types.{ObservedTransaction, CandidateInteraction, InteractionLeg}

-- The bytes of `fmt.Sprintf("%d:%s:%d", …)` under a uuid.
abbrev pub uuid_source : ℕ → String → ℕ → String
uuid_source chain_id tx_hash ordinal =
    text_append (decimal chain_id)
      (text_append ":" (text_append tx_hash (text_append ":" (decimal ordinal))))

-- A leg before verification.
abbrev pub new_leg :
    String
    → ℕ
    → String
    → Option String
    → Option String
    → Option String
    → Option String
    → InteractionLeg
new_leg id i asset side out borrowed fee = record {
  interaction_id = id;
  leg_index = i;
  asset_address = asset;
  asset_role = "borrowed";
  token_side = side;
  amount_out = out;
  amount_in = none;
  amount_borrowed = borrowed;
  amount_repaid = none;
  premium_amount = none;
  fee_amount = fee;
  interest_rate_mode = none;
  repaid_to_address = none;
  opened_debt = false;
  strict_leg = false;
  event_seen = false;
  settlement_mode = none;
}

abbrev pub Found : Type 0
Found = Outcome (List CandidateInteraction × List InteractionLeg)

-- The loop, with the interactions and legs that are appended so far.
unfoldable pub extract_each :
    (ObservedTransaction → Found)
    → List CandidateInteraction
    → List InteractionLeg
    → List ObservedTransaction
    → Found
extract_each extract_tx interactions legs [] = ok (interactions, legs)
extract_each extract_tx interactions legs (tx ∷ txs) = elim (extract_tx tx) [
  | err e ↦ err e
  | ok (more, new_legs) ↦ extract_each extract_tx (interactions ++ more) (legs ++ new_legs) txs
]

-- Every interaction and every leg has a property that those of one listed transaction have.
abbrev pub AllFound : (CandidateInteraction → Type 0) → (InteractionLeg → Type 0) → Found → Type 0
AllFound P Q (err e) = Unit
AllFound P Q (ok (interactions, legs)) = All P interactions × All Q legs

pub extract_each-AllFound :
    (P : CandidateInteraction → Type 0) (Q : InteractionLeg → Type 0)
    (extract_tx : ObservedTransaction → Found) (txs : List ObservedTransaction)
    (interactions : List CandidateInteraction) (legs : List InteractionLeg)
    → All (λ tx. AllFound P Q (extract_tx tx)) txs
    → All P interactions
    → All Q legs
    → AllFound P Q (extract_each extract_tx interactions legs txs)
unfolding extract_each
extract_each-AllFound P Q extract_tx [] interactions legs each p q = (p, q)
extract_each-AllFound P Q extract_tx (tx ∷ txs) interactions legs each p q =
    elim (Outcome-cases (extract_tx tx)) [
      | inr (e, failed) ↦ rw (failed, extract_each) tt
      | inl ((more, new), found) ↦
          let here : AllFound P Q (ok (more, new)) = rw found at each.0 in
          rw (found, extract_each)
            (extract_each-AllFound P Q extract_tx txs (interactions ++ more) (legs ++ new) each.1
              (All-append P interactions more p here.0) (All-append Q legs new q here.1))
    ]
