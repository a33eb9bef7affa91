-- ===== src/Aggregator.antt =====
-- scanner/aggregator/simple.go: the summary of a transaction's interactions. The views and the store
-- of the database are functions on a `World`.
pub mod Ordering
pub mod Summary
pub mod Range
mod Examples
use flashloan_scanner.Base.{
  ℕ, zero, suc, ◌+◌, String, Bool, true, false, ◌&&◌, ◌||◌, Option, none, some, List, [], ◌∷◌, map,
  length, str_eq, if◌then◌else◌, Outcome, ok, err, any, text_append,
}
use flashloan_scanner.Base.Order.{text_ltb}
use flashloan_scanner.Base.Dict.{Dict, insert, string_eq}
use flashloan_scanner.Base.Decimal.{decimal, parse_decimal}
use flashloan_scanner.Types.{Protocol, TxSummary}
use flashloan_scanner.Rows.{Hash, Conversions, ProtocolInteraction, FlashloanTransaction}

-- sort.Slice with `<` on the protocols, by insertion: the protocols are distinct, so that there is
-- one sorted order.
unfoldable pub insert_sorted : Protocol → List Protocol → List Protocol
unfolding text_ltb
insert_sorted p [] = p ∷ []
insert_sorted p (q ∷ qs) = if text_ltb p q then p ∷ q ∷ qs else q ∷ insert_sorted p qs

unfoldable pub sort_protocols : List Protocol → List Protocol
unfolding insert_sorted
sort_protocols [] = []
sort_protocols (p ∷ ps) = insert_sorted p (sort_protocols ps)

-- The keys of the map `protocolSet`, once each.
unfoldable pub add_protocol : Protocol → List Protocol → List Protocol
add_protocol p set = if any (str_eq p) set then set else p ∷ set

-- The variables of the loop over the interactions.
pub record Tally : Type 0 where
  pub protocol_set : List Protocol
  pub contains_verified : Bool
  pub contains_strict : Bool
  pub strict_count : ℕ

unfoldable pub tally_one : Tally → ProtocolInteraction → Tally
unfolding add_protocol
tally_one t interaction = record {
  protocol_set = add_protocol interaction.protocol t.protocol_set;
  contains_verified = if interaction.verified then true else t.contains_verified;
  contains_strict = if interaction.verified && interaction.strict then true else t.contains_strict;
  strict_count =
      if interaction.verified && interaction.strict then suc t.strict_count else t.strict_count;
}

unfoldable pub tally : Tally → List ProtocolInteraction → Tally
unfolding tally_one
tally t [] = t
tally t (interaction ∷ rest) = tally (tally_one t interaction) rest

abbrev pub empty_tally : Tally
empty_tally = record {
  protocol_set = [];
  contains_verified = false;
  contains_strict = false;
  strict_count = 0;
}

-- The summary of the interactions `first ∷ rest`.
unfoldable pub summarize : ℕ → String → ProtocolInteraction → List ProtocolInteraction → TxSummary
unfolding tally sort_protocols decimal
summarize chain_id tx_hash first rest =
    let t = tally empty_tally (first ∷ rest) in
    let protocols = sort_protocols t.protocol_set in
    record {
      chain_id = chain_id;
      tx_hash = tx_hash;
      block_number = decimal first.block_number;
      contains_candidate_interaction = true;
      contains_verified_interaction = t.contains_verified;
      contains_verified_strict_interaction = t.contains_strict;
      interaction_count = length (first ∷ rest);
      strict_interaction_count = t.strict_count;
      protocol_count = length protocols;
      protocols = protocols;
    }

-- strings.Join
unfoldable pub join : String → List String → String
join sep [] = ""
join sep (s ∷ []) = s
join sep (s ∷ t ∷ rest) = text_append s (text_append sep (join sep (t ∷ rest)))

unfoldable pub uint_to_big_from_string : String → ℕ
unfolding parse_decimal
uint_to_big_from_string raw =
    if str_eq raw "" then 0 else elim (parse_decimal raw) [ none ↦ 0 | some n ↦ n ]

unfoldable pub tx_summary_to_db : Conversions → TxSummary → FlashloanTransaction
unfolding join uint_to_big_from_string
tx_summary_to_db conv summary = record {
  chain_id = summary.chain_id;
  tx_hash = conv.hex_to_hash summary.tx_hash;
  block_number = uint_to_big_from_string summary.block_number;
  timestamp = 0;
  contains_candidate_interaction = summary.contains_candidate_interaction;
  contains_verified_interaction = summary.contains_verified_interaction;
  contains_verified_strict_interaction = summary.contains_verified_strict_interaction;
  interaction_count = summary.interaction_count;
  strict_interaction_count = summary.strict_interaction_count;
  protocol_count = summary.protocol_count;
  protocols = join "," summary.protocols;
}

module _ (World : Type 0) where
  -- dbscanner.ProtocolInteractionView and dbscanner.FlashloanTransactionDB.
  pub record Stores : Type 0 where
    pub list_protocol_interactions_by_tx : ℕ → Hash → World → Outcome (List ProtocolInteraction)
    pub list_candidate_interactions :
        ℕ → String → ℕ → ℕ → World → Outcome (List ProtocolInteraction)
    pub upsert_flashloan_transactions :
        List FlashloanTransaction → World → Outcome (Unit {0}) × World

module _ {World : Type 0} (conv : Conversions) (stores : Stores World) (chain_id : ℕ) where
  -- `AggregateByTx` behind the read of the view.
  unfoldable pub store_summary :
      String → List ProtocolInteraction → World → Outcome (Option TxSummary) × World
  unfolding summarize tx_summary_to_db
  store_summary tx_hash [] w = (ok none, w)
  store_summary tx_hash (first ∷ rest) w =
      let summary = summarize chain_id tx_hash first rest in
      let (answer, w') =
        stores.upsert_flashloan_transactions (tx_summary_to_db conv summary ∷ []) w in
      elim answer [ ok _ ↦ (ok (some summary), w') | err e ↦ (err e, w') ]

  unfoldable pub aggregate_by_tx : String → World → Outcome (Option TxSummary) × World
  unfolding store_summary
  aggregate_by_tx tx_hash w =
      elim (stores.list_protocol_interactions_by_tx chain_id (conv.hex_to_hash tx_hash) w) [
        | err e ↦ (err e, w)
        | ok interactions ↦ store_summary tx_hash interactions w
      ]

  -- The loop of `AggregateRange`, with the keys of the map `seen`.
  unfoldable pub aggregate_items :
      List String → List ProtocolInteraction → World → Outcome (Unit {0}) × World
  unfolding aggregate_by_tx
  aggregate_items seen [] w = (ok tt, w)
  aggregate_items seen (item ∷ items) w =
      let tx_hash = conv.hash_hex item.tx_hash in
      elim (any (str_eq tx_hash) seen) [
        | true ↦ aggregate_items seen items w
        | false ↦
            let (answer, w') = aggregate_by_tx tx_hash w in
            elim answer [ err e ↦ (err e, w') | ok _ ↦ aggregate_items (tx_hash ∷ seen) items w' ]
      ]

  unfoldable pub aggregate_range : ℕ → ℕ → World → Outcome (Unit {0}) × World
  unfolding aggregate_items
  aggregate_range from_block to_block w =
      elim (stores.list_candidate_interactions chain_id "" from_block to_block w) [
        | err e ↦ (err e, w)
        | ok items ↦ aggregate_items [] items w
      ]
