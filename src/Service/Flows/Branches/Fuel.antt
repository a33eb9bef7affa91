-- ===== src/Service/Flows/Branches/Fuel.antt =====
-- The recursion of walkBranch goes four levels deep.
use mathlib.Core.Path.{fun_ext}
use flashloan_scanner.Base.{
  ℕ, zero, suc, ◌∙◌, ◌+◌, ◌-◌, ◌≤◌, String, true, false, ◌≡◌, refl, ap, arith, any, str_eq, ltb,
  ◌||◌, Bool-cases, inl, inr, [], ◌∷◌, ◌++◌, length,
}
use flashloan_scanner.Service.Flows.Labels.{normalize_address}
use flashloan_scanner.Service.Flows.Branches.{
  Flow, Walk, branches, is_end, sort_next, next_of, enter, walk_branch,
}

module _ (receiver borrow_source repayment_target : String) where
  -- The walk that counts down the levels that are left, and has no depth: a flow that is new is
  -- noted, and behind a flow that does not end the walk its candidates are visited one level down.
  pub walk_levels : ℕ → Flow → Walk → Walk
  unfolding branches is_end sort_next next_of normalize_address
  walk_levels zero flow w = w
  walk_levels (suc levels) flow w = elim (any (str_eq flow.frame_id) w.seen) [
    | true ↦ w
    | false ↦
        let noted : Walk = record w {
          seen = flow.frame_id ∷ w.seen;
          segments = w.segments ++ flow ∷ [];
        } in
        elim (is_end receiver borrow_source repayment_target flow) [
          | true ↦ noted
          | false ↦
              let key = normalize_address flow.target in
              branches receiver borrow_source repayment_target
                (λ candidate. walk_levels levels candidate) flow key
                (length (next_of key w.adjacency)) 0 0
                (record noted {
                  adjacency =
                      sort_next receiver borrow_source repayment_target flow key w.adjacency;
                })
        ]
  ]

  too_deep :
      (fuel depth : ℕ) (flow : Flow) (w : Walk)
      → 4 ≤ depth
      → walk_branch receiver borrow_source repayment_target fuel flow depth w ≡ w
  unfolding walk_branch enter
  too_deep zero depth flow w deep = refl
  too_deep (suc fuel) depth flow w deep =
      let stop : (ltb 3 depth || any (str_eq flow.frame_id) w.seen) ≡ true = ground arith in
      rw (walk_branch, enter, stop) refl

  enter-walk_levels :
      (levels depth : ℕ) (flow : Flow) (w : Walk)
      → depth ≤ 3
      → enter receiver borrow_source repayment_target (walk_levels levels) flow depth w
        ≡ walk_levels (suc levels) flow w
  unfolding enter walk_levels
  enter-walk_levels levels depth flow w shallow =
      let not_deep : ltb 3 depth ≡ false = ground arith in
      elim (Bool-cases (any (str_eq flow.frame_id) w.seen)) [
        | inl old ↦ rw (not_deep, old, enter, walk_levels) refl
        | inr new ↦ rw (not_deep, new, enter, walk_levels) refl
      ]

  level :
      (fuel depth levels : ℕ) (flow : Flow) (w : Walk)
      → depth ≤ 3
      → ◌≡◌ {A = Flow → Walk → Walk}
          (λ c. walk_branch receiver borrow_source repayment_target fuel c (suc depth))
          (walk_levels levels)
      → walk_branch receiver borrow_source repayment_target (suc fuel) flow depth w
        ≡ walk_levels (suc levels) flow w
  unfolding walk_branch
  level fuel depth levels flow w shallow same =
      ap (λ v. enter receiver borrow_source repayment_target v flow depth w) same
      ∙ enter-walk_levels levels depth flow w shallow

  -- walkBranch at a depth walks just as many levels as are left of four: it gives the result of a
  -- walk that has no depth and counts down the levels, so that flows at the depths 0 to 3 are noted
  -- and none below them. Any fuel that is enough for the levels left gives this result.
  pub walk_branch-walk_levels :
      (fuel depth : ℕ) (flow : Flow) (w : Walk)
      → 4 ≤ fuel + depth
      → walk_branch receiver borrow_source repayment_target fuel flow depth w
        ≡ walk_levels (4 - depth) flow w
  walk_branch-walk_levels zero depth flow w h =
      let none_left : 4 - depth ≡ 0 = omega arith in
      too_deep zero depth flow w (omega arith) ∙ rw none_left (unfold walk_levels in refl)
  walk_branch-walk_levels (suc fuel) depth flow w h = elim (Bool-cases (ltb 3 depth)) [
    | inl deep ↦
        let none_left : 4 - depth ≡ 0 = ground arith in
        too_deep (suc fuel) depth flow w (ground arith) ∙ rw none_left (unfold walk_levels in refl)
    | inr shallow ↦
        let one_more : 4 - depth ≡ suc (4 - suc depth) = ground arith in
        let visit : Flow → Walk → Walk =
          λ c. walk_branch receiver borrow_source repayment_target fuel c (suc depth) in
        let below : visit ≡ walk_levels (4 - suc depth) =
          fun_ext λ c. fun_ext λ v. walk_branch-walk_levels fuel (suc depth) c v (omega arith) in
        rw one_more (level fuel depth (4 - suc depth) flow w (ground arith) below)
  ]
