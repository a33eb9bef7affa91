-- ===== src/Aggregator/Summary.antt =====
-- What a summary says of the interactions it was made of.
use flashloan_scanner.Base.{
  ℕ, ◌+◌, String, ◌≡◌, refl, ◌∙◌, Bool, ◌&&◌, ◌||◌, List, [], ◌∷◌, arith, any, count_if, length,
  str_eq,
}
use flashloan_scanner.Base.Distinct.{Once}
use flashloan_scanner.Types.{Protocol, TxSummary}
use flashloan_scanner.Rows.{ProtocolInteraction}
use flashloan_scanner.Aggregator.{Tally, tally_one, tally, empty_tally, summarize}
use flashloan_scanner.Aggregator.Ordering.{
  Ascending, any-sort_protocols, sort_protocols-Ascending, add_protocol-Once, any-add_protocol,
}

abbrev pub is_verified : ProtocolInteraction → Bool
is_verified i = i.verified

abbrev pub is_strict : ProtocolInteraction → Bool
is_strict i = i.verified && i.strict

abbrev pub has_protocol : Protocol → ProtocolInteraction → Bool
has_protocol p i = str_eq p i.protocol

-- The loop's variables, told from what they were before and the interactions.
record Tallied (s t : Tally) (items : List ProtocolInteraction) : Type 0 where
  pub its_verified : t.contains_verified ≡ (s.contains_verified || any is_verified items)
  pub its_strict : t.contains_strict ≡ (s.contains_strict || any is_strict items)
  pub its_count : t.strict_count ≡ s.strict_count + count_if is_strict items
  pub its_protocols :
      (p : Protocol)
      → any (str_eq p) t.protocol_set
        ≡ (any (str_eq p) s.protocol_set || any (has_protocol p) items)
  pub its_set : Once s.protocol_set → Once t.protocol_set

tally_one-Tallied : (s : Tally) (i : ProtocolInteraction) → Tallied s (tally_one s i) (i ∷ [])
unfolding tally_one
tally_one-Tallied s i = record {
  its_verified = ground arith;
  its_strict = ground arith;
  its_count = ground arith;
  its_protocols = λ p. ground (arith, any-add_protocol p i.protocol s.protocol_set);
  its_set = add_protocol-Once i.protocol s.protocol_set;
}

tally-Tallied : (items : List ProtocolInteraction) (s : Tally) → Tallied s (tally s items) items
unfolding tally
tally-Tallied [] s = record {
  its_verified = ground arith;
  its_strict = ground arith;
  its_count = omega arith;
  its_protocols = λ p. ground arith;
  its_set = λ o. o;
}
tally-Tallied (i ∷ items) s =
    let one = tally_one-Tallied s i in
    let more = tally-Tallied items (tally_one s i) in
    record {
      its_verified = ground (arith, one.its_verified, more.its_verified);
      its_strict = ground (arith, one.its_strict, more.its_strict);
      its_count = ground (arith, one.its_count, more.its_count);
      its_protocols = λ p. ground (arith, one.its_protocols p, more.its_protocols p);
      its_set = λ o. more.its_set (one.its_set o);
    }

-- The summary of the interactions, described without the loop.
pub record Summarizes (summary : TxSummary) (items : List ProtocolInteraction) : Type 0 where
  pub some_verified : summary.contains_verified_interaction ≡ any is_verified items
  pub some_strict : summary.contains_verified_strict_interaction ≡ any is_strict items
  pub all_counted : summary.interaction_count ≡ length items
  pub strict_counted : summary.strict_interaction_count ≡ count_if is_strict items
  pub protocols_counted : summary.protocol_count ≡ length summary.protocols
  pub its_protocols : (p : Protocol) → any (str_eq p) summary.protocols ≡ any (has_protocol p) items
  pub in_order : Ascending summary.protocols

-- The summary that AggregateByTx computes tells whether an interaction is verified and whether one
-- is verified and strict, counts the interactions and the strict ones, and lists just the protocols
-- of the interactions, each once and in ascending order, with their number.
pub summarize-Summarizes :
    (chain_id : ℕ) (tx_hash : String) (first : ProtocolInteraction)
    (rest : List ProtocolInteraction)
    → Summarizes (summarize chain_id tx_hash first rest) (first ∷ rest)
unfolding summarize
summarize-Summarizes chain_id tx_hash first rest =
    let whole = tally-Tallied (first ∷ rest) empty_tally in
    record {
      some_verified = whole.its_verified;
      some_strict = whole.its_strict;
      all_counted = refl;
      strict_counted = ground (arith, whole.its_count);
      protocols_counted = refl;
      its_protocols = λ p. any-sort_protocols (str_eq p) _ ∙ whole.its_protocols p;
      in_order = sort_protocols-Ascending _ (whole.its_set tt);
    }
