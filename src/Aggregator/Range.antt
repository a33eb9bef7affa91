-- ===== src/Aggregator/Range.antt =====
-- AggregateRange as one aggregation for each transaction.
use flashloan_scanner.Base.{
  ℕ, String, ◌≡◌, refl, List, [], ◌∷◌, map, any, str_eq, Bool-cases, inl, inr, Outcome, ok, err,
  Outcome-cases,
}
use flashloan_scanner.Base.Distinct.{Once, unseen, any-unseen, unseen-Once}
use flashloan_scanner.Rows.{Conversions, ProtocolInteraction}
use flashloan_scanner.Aggregator.{Stores, aggregate_by_tx, aggregate_items, aggregate_range}

module _ {World : Type 0} (conv : Conversions) (stores : Stores World) (chain_id : ℕ) where
  -- One aggregation after the other, up to the first error.
  unfoldable pub aggregate_each : List String → World → Outcome (Unit {0}) × World
  aggregate_each [] w = (ok tt, w)
  aggregate_each (tx_hash ∷ rest) w =
      let (answer, w') = aggregate_by_tx conv stores chain_id tx_hash w in
      elim answer [ err e ↦ (err e, w') | ok _ ↦ aggregate_each rest w' ]

  abbrev hash_of : ProtocolInteraction → String
  hash_of item = conv.hash_hex item.tx_hash

  aggregate_items-each :
      (seen : List String) (items : List ProtocolInteraction) (w : World)
      → aggregate_items conv stores chain_id seen items w
        ≡ aggregate_each (unseen seen (map hash_of items)) w
  unfolding aggregate_items aggregate_each unseen
  aggregate_items-each seen [] w = refl
  aggregate_items-each seen (item ∷ items) w =
      elim (Bool-cases (any (str_eq (hash_of item)) seen)) [
        | inl old ↦ rw (old, aggregate_items, unseen) (aggregate_items-each seen items w)
        | inr new ↦
            rw (new, aggregate_items, unseen, aggregate_each)
              (let answer = aggregate_by_tx conv stores chain_id (hash_of item) w in
                elim (Outcome-cases answer.0) [
                  | inl (summary, good) ↦
                      rw (good, aggregate_each)
                        (aggregate_items-each (hash_of item ∷ seen) items answer.1)
                  | inr (e, bad) ↦ rw (bad, aggregate_each) refl
                ])
      ]

  -- If the view lists the items of a block range, AggregateRange aggregates the transactions of the
  -- items one after the other up to the first error, each of them once and no other.
  pub aggregate_range-each :
      (from_block to_block : ℕ) (items : List ProtocolInteraction) (w : World)
      → stores.list_candidate_interactions chain_id "" from_block to_block w ≡ ok items
      → (hashes : List String) × (aggregate_range conv stores chain_id from_block to_block w
          ≡ aggregate_each hashes w)
        × Once hashes
        × ((h : String) → any (str_eq h) hashes ≡ any (str_eq h) (map hash_of items))
  unfolding aggregate_range
  aggregate_range-each from_block to_block items w listed = (
    unseen [] (map hash_of items),
    rw (listed, aggregate_range) (aggregate_items-each [] items w),
    unseen-Once [] (map hash_of items),
    λ h. any-unseen h [] (map hash_of items),
  )
