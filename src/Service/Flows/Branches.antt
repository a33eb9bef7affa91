-- ===== src/Service/Flows/Branches.antt =====
-- extractKeyExecutionSegments. The map `adjacency` is part of the state, since the walk sorts its
-- slices in place while loops over them go on.
pub mod Fuel
use flashloan_scanner.Base.{
  ℕ, zero, suc, ◌+◌, ◌-◌, String, Bool, true, false, not, ◌&&◌, ◌||◌, Option, none, some, List, [],
  ◌∷◌, ◌++◌, any, length, take, ltb, leb, ◌==◌, str_eq, if◌then◌else◌, filter_if,
}
use flashloan_scanner.Base.Dict.{Dict, lookup, insert, string_eq}
use flashloan_scanner.Base.Order.{text_ltb}
use flashloan_scanner.Base.Text.{to_lower, contains}
use flashloan_scanner.Service.Flows.{OrderedTraceAssetFlow}
use flashloan_scanner.Service.Flows.Labels.{normalize_address, same_address}
use flashloan_scanner.Service.Flows.Order.{slice_stable, before_in_trace}

abbrev pub Flow : Type 0
Flow = OrderedTraceAssetFlow

abbrev pub Adjacency : Type 0
Adjacency = Dict String (List Flow)

pub record Walk : Type 0 where
  pub adjacency : Adjacency
  pub seen : List String
  pub segments : List Flow

unfoldable pub next_of : String → Adjacency → List Flow
unfolding lookup
next_of key adjacency = elim (lookup ⦃e = string_eq⦄ key adjacency) [ none ↦ [] | some l ↦ l ]

-- `flow.Order > startAfterOrder`, where `none` is the default -1.
abbrev pub is_after : Option ℕ → Flow → Bool
is_after none flow = true
is_after (some start) flow = ltb start flow.order

unfoldable pub adjacency_of : Option ℕ → Adjacency → List Flow → Adjacency
unfolding next_of insert normalize_address to_lower contains
adjacency_of start adjacency [] = adjacency
adjacency_of start adjacency (flow ∷ flows) =
    let key = normalize_address flow.source in
    let added = insert ⦃e = string_eq⦄ key (next_of key adjacency ++ flow ∷ []) adjacency in
    adjacency_of start
      (if is_after start flow && not (contains (to_lower flow.action) "approve")
        then added
        else adjacency)
      flows

-- A difference without its sign.
abbrev distance : ℕ → ℕ → ℕ
distance a b = (a - b) + (b - a)

-- The order of the candidates behind a flow.
unfoldable pub nearer : Flow → Flow → Flow → Bool
unfolding text_ltb
nearer flow a b =
    let left_after = if leb flow.order a.order then 0 else 1 in
    let right_after = if leb flow.order b.order then 0 else 1 in
    let left = distance a.order flow.order in
    let right = distance b.order flow.order in
    if not (left_after == right_after)
    then ltb left_after right_after
    else if not (left == right)
    then ltb left right
    else text_ltb a.frame_id b.frame_id

abbrev get_elem? : List Flow → ℕ → Option Flow
get_elem? [] i = none
get_elem? (x ∷ xs) zero = some x
get_elem? (x ∷ xs) (suc i) = get_elem? xs i

module _ (receiver borrow_source repayment_target : String) where
  -- The loop over the candidates at `key`, from place `i` on; `visit` is the recursive call.
  unfoldable pub branches : (Flow → Walk → Walk) → Flow → String → ℕ → ℕ → ℕ → Walk → Walk
  unfolding next_of same_address
  branches visit flow key zero i branch_count w = w
  branches visit flow key (suc left) i branch_count w =
      elim (get_elem? (next_of key w.adjacency) i) [
        | none ↦ w
        | some candidate ↦
            elim (str_eq candidate.frame_id flow.frame_id
              || same_address candidate.target borrow_source
                && not (same_address candidate.target receiver)) [
                  | true ↦ branches visit flow key left (suc i) branch_count w
                  | false ↦ elim (suc branch_count == 3) [
                    | true ↦ visit candidate w
                    | false ↦
                        branches visit flow key left (suc i) (suc branch_count) (visit candidate w)
                  ]
                ]
      ]

  -- Where the walk stops behind a flow.
  unfoldable pub is_end : Flow → Bool
  unfolding same_address
  is_end flow = same_address flow.target receiver || same_address flow.target repayment_target

  unfoldable pub sort_next : Flow → String → Adjacency → Adjacency
  unfolding lookup insert slice_stable nearer
  sort_next flow key adjacency = elim (lookup ⦃e = string_eq⦄ key adjacency) [
    | none ↦ adjacency
    | some candidates ↦ insert ⦃e = string_eq⦄ key (slice_stable (nearer flow) candidates) adjacency
  ]

  -- `walkBranch` at a depth, where `visit` is the recursive call.
  unfoldable pub enter : (Flow → Walk → Walk) → Flow → ℕ → Walk → Walk
  unfolding branches is_end sort_next next_of normalize_address
  enter visit flow depth w = elim (ltb 3 depth || any (str_eq flow.frame_id) w.seen) [
    | true ↦ w
    | false ↦
        let noted : Walk = record w {
          seen = flow.frame_id ∷ w.seen;
          segments = w.segments ++ flow ∷ [];
        } in
        elim (is_end flow) [
          | true ↦ noted
          | false ↦
              let key = normalize_address flow.target in
              branches visit flow key (length (next_of key w.adjacency)) 0 0
                (record noted { adjacency = sort_next flow key w.adjacency })
        ]
  ]

  -- `walkBranch`, with fuel for the depth of the recursion; the calls at depth 4 return at once.
  unfoldable pub walk_branch : ℕ → Flow → ℕ → Walk → Walk
  unfolding enter
  walk_branch zero flow depth w = w
  walk_branch (suc fuel) flow depth w =
      enter (λ candidate. walk_branch fuel candidate (suc depth)) flow depth w

  unfoldable pub walk_seeds : List Flow → Walk → Walk
  unfolding walk_branch
  walk_seeds [] w = w
  walk_seeds (seed ∷ seeds) w = walk_seeds seeds (walk_branch 5 seed 0 w)

  -- The first four flows out of the receiver that lead on.
  unfoldable pub receiver_seeds : Adjacency → List Flow
  unfolding next_of normalize_address same_address
  receiver_seeds adjacency = take 4 (
      filter_if
        (λ flow. not (
          same_address flow.target receiver
          || same_address flow.target repayment_target
          || same_address flow.target borrow_source))
        (next_of (normalize_address receiver) adjacency))

  unfoldable pub extract_key_execution_segments : List Flow → Option ℕ → List Flow
  unfolding adjacency_of receiver_seeds walk_seeds slice_stable before_in_trace
  extract_key_execution_segments flows start =
      let adjacency = adjacency_of start [] flows in
      let done =
        walk_seeds (receiver_seeds adjacency)
          (record { adjacency = adjacency; seen = []; segments = [] }) in
      slice_stable before_in_trace done.segments
