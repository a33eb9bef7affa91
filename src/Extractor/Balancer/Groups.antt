-- ===== src/Extractor/Balancer/Groups.antt =====
-- The grouping of the flash-loan events of a transaction.
use mathlib.Core.List.{map-append, append-nil, append_assoc}
use flashloan_scanner.Base.{
  ℕ, ◌≡◌, refl, sym, ap, ◌∙◌, String, Bool, Option, none, some, List, [], ◌∷◌, ◌++◌, length, map,
  text_append, filter_if, str_eq, str_eq→eq, Option-cases, Bool-cases, inl, inr, arith, Outcome, ok,
}
use flashloan_scanner.Base.Dict.{lookup, insert, lookup-insert, string_eq}
use flashloan_scanner.Types.{ObservedTransaction, InteractionLeg}
use flashloan_scanner.Rows.{Conversions, Hash, ContractEvent}
use flashloan_scanner.Registry.{MemoryRegistry}
use flashloan_scanner.Base.Decimal.{decimal}
use flashloan_scanner.Verifier.Convert.{big_int_string, string_ptr}
use flashloan_scanner.Extractor.Shared.{uuid_source}
use flashloan_scanner.Extractor.Balancer.{
  BalancerExtractorDeps, BalancerFlashLoanEvent, GroupedInteraction, Groups, new_group,
  add_event_leg, group_key, group_events, all_legs, match_vault_events,
  extract_from_flash_loan_events,
}
use flashloan_scanner.Extractor.Balancer.Numbering.{
  Counted, Counted-snoc, Numbered, Numbered-insert_found, Numbered-insert_new,
}

abbrev Facts : Type 0
Facts = String × Option String × Option String

-- What a leg says of the loan, and what it should say of an event.
abbrev pub leg_facts : InteractionLeg → Facts
leg_facts leg = (leg.asset_address, leg.amount_borrowed, leg.fee_amount)

module _ (conv : Conversions) (deps : BalancerExtractorDeps) (tx : ObservedTransaction) where
  abbrev pub event_facts : BalancerFlashLoanEvent → Facts
  event_facts event = (
    conv.address_hex event.token,
    string_ptr (big_int_string event.amount),
    string_ptr (big_int_string event.fee_amount),
  )

  abbrev pub held_legs : Option GroupedInteraction → List InteractionLeg
  held_legs none = []
  held_legs (some group) = group.legs

  -- The legs under a key.
  abbrev pub legs_at : String → Groups → List InteractionLeg
  legs_at key groups = held_legs (lookup ⦃e = string_eq⦄ key groups)

  -- The candidate at a position, under the key of its provider and receiver.
  pub record IsGroup (n : ℕ) (key : String) (group : GroupedInteraction) : Type 0 where
    pub its_ordinal : group.interaction.interaction_ordinal ≡ n
    pub its_id :
        group.interaction.interaction_id
        ≡ conv.uuid_string (deps.new_sha1 (uuid_source tx.chain_id tx.tx_hash n))
    pub its_key :
        key
        ≡ text_append group.interaction.provider_address
            (text_append "|" group.interaction.receiver_address)
    pub its_hash : group.interaction.tx_hash ≡ tx.tx_hash
    pub its_legs : Counted group.interaction.interaction_id 0 group.legs

  add_event_leg-IsGroup :
      (event : BalancerFlashLoanEvent) (n : ℕ) (key : String) (group : GroupedInteraction)
      → IsGroup n key group
      → IsGroup n key (add_event_leg conv deps event group)
  unfolding add_event_leg
  add_event_leg-IsGroup event n key group h = record {
    its_ordinal = h.its_ordinal;
    its_id = h.its_id;
    its_key = h.its_key;
    its_hash = h.its_hash;
    its_legs =
        Counted-snoc group.interaction.interaction_id 0 group.legs _ refl (omega arith) h.its_legs;
  }

  new_group-IsGroup :
      (n : ℕ) (event : BalancerFlashLoanEvent)
      → IsGroup n (group_key conv deps event) (new_group conv deps tx n event)
  unfolding new_group
  new_group-IsGroup n event = record {
    its_ordinal = refl;
    its_id = refl;
    its_key = refl;
    its_hash = refl;
    its_legs = tt;
  }

  group_events-Numbered :
      (events : List BalancerFlashLoanEvent) (groups : Groups)
      → Numbered IsGroup 0 groups
      → Numbered IsGroup 0 (group_events conv deps tx groups events)
  unfolding group_events
  group_events-Numbered [] groups h = h
  group_events-Numbered (event ∷ events) groups h =
      let key = group_key conv deps event in
      elim (Option-cases (lookup ⦃e = string_eq⦄ key groups)) [
        | inl missing ↦
            rw (missing, group_events)
              (group_events-Numbered events _ (
                Numbered-insert_new IsGroup key _ (length groups) 0 groups missing (omega arith)
                  (add_event_leg-IsGroup event _ key _ (new_group-IsGroup (length groups) event))
                  h))
        | inr (old, found) ↦
            rw (found, group_events)
              (group_events-Numbered events _ (
                Numbered-insert_found IsGroup key old _ (λ i. add_event_leg-IsGroup event i key old)
                  0 groups found h))
      ]

  abbrev group_of : Groups → BalancerFlashLoanEvent → GroupedInteraction
  group_of groups event = elim (lookup ⦃e = string_eq⦄ (group_key conv deps event) groups) [
    | none ↦ new_group conv deps tx (length groups) event
    | some old ↦ old
  ]

  abbrev pub event_test : String → BalancerFlashLoanEvent → Bool
  event_test key event = str_eq (group_key conv deps event) key

  group_of-legs :
      (groups : Groups) (event : BalancerFlashLoanEvent)
      → (group_of groups event).legs ≡ legs_at (group_key conv deps event) groups
  unfolding new_group
  group_of-legs groups event =
      elim (Option-cases (lookup ⦃e = string_eq⦄ (group_key conv deps event) groups)) [
        | inl missing ↦ rw (missing, group_of) refl
        | inr (old, found) ↦ rw (found, group_of) refl
      ]

  insert-legs_at :
      (groups : Groups) (event : BalancerFlashLoanEvent) (key : String)
      → map leg_facts (
          legs_at key (
            insert ⦃e = string_eq⦄
              (group_key conv deps event)
              (add_event_leg conv deps event (group_of groups event))
              groups))
        ≡ map leg_facts (legs_at key groups)
          ++ map event_facts (filter_if (event_test key) (event ∷ []))
  unfolding add_event_leg
  insert-legs_at groups event key =
      let looked =
        lookup-insert ⦃e = string_eq⦄ (group_key conv deps event) key
          (add_event_leg conv deps event (group_of groups event)) groups in
      elim (Bool-cases (event_test key event)) [
        | inr other ↦ ap (λ o. map leg_facts (held_legs o)) looked ∙ rw other (sym (append-nil _))
        | inl same ↦
            let here : group_key conv deps event ≡ key = str_eq→eq _ _ same in
            ap (λ o. map leg_facts (held_legs o)) looked
            ∙ rw same (
                map-append leg_facts (group_of groups event).legs _
                ∙ rw (group_of-legs groups event) (rw here refl))
      ]

  group_events-legs_at :
      (events : List BalancerFlashLoanEvent) (groups : Groups) (key : String)
      → map leg_facts (legs_at key (group_events conv deps tx groups events))
        ≡ map leg_facts (legs_at key groups) ++ map event_facts (filter_if (event_test key) events)
  unfolding group_events
  group_events-legs_at [] groups key = sym (append-nil _)
  group_events-legs_at (event ∷ events) groups key =
      group_events-legs_at events _ key
      ∙ ap (λ facts. facts ++ map event_facts (filter_if (event_test key) events))
          (insert-legs_at groups event key)
      ∙ elim (Bool-cases (event_test key event)) [
        | inr other ↦ rw other (append_assoc (map leg_facts (legs_at key groups)) [] _)
        | inl same ↦
            rw same (append_assoc (map leg_facts (legs_at key groups)) (event_facts event ∷ []) _)
      ]

  -- If the view returns events for a transaction, extractFromFlashLoanEvents succeeds with the
  -- interactions and legs of groups. The interaction of each group has its position for ordinal,
  -- the uuid of the transaction and this ordinal for id, and the provider and receiver of its key;
  -- its legs carry this id and count up from 0. For every key the legs are, in order, of the
  -- flash-loan events with this provider and recipient, with their token, amount and fee.
  pub extract_from_flash_loan_events-Numbered :
      (registry : MemoryRegistry) (chain_id : ℕ)
      {view : String → Hash → Outcome (List ContractEvent)} {events : List ContractEvent}
      → deps.events_by_tx_hash ≡ some view
      → view (decimal chain_id) (conv.hex_to_hash tx.tx_hash) ≡ ok events
      → (groups : Groups) × (extract_from_flash_loan_events conv deps registry chain_id tx
          ≡ ok (map (λ g. g.1.interaction) groups, all_legs conv deps groups))
        × Numbered IsGroup 0 groups
        × ((key : String)
            → map leg_facts (legs_at key groups)
              ≡ map event_facts (
                  filter_if
                    (event_test key)
                    (match_vault_events conv deps registry chain_id events)))
  unfolding extract_from_flash_loan_events
  extract_from_flash_loan_events-Numbered registry chain_id {events} has_view answers =
      let matched = match_vault_events conv deps registry chain_id events in
      (
        group_events conv deps tx [] matched,
        rw (has_view, answers, extract_from_flash_loan_events) refl,
        group_events-Numbered matched [] tt,
        λ key. unfold lookup in group_events-legs_at matched [] key,
      )
