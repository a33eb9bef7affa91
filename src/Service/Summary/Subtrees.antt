-- ===== src/Service/Summary/Subtrees.antt =====
-- collectSubtreeFrameIDs against the tree.
use flashloan_scanner.Base.{
  ℕ, zero, suc, ◌+◌, ◌<◌, String, true, false, Option, none, some, List, [], ◌∷◌, ◌++◌, ◌≡◌, ◌≢◌,
  refl, sym, ap, ◌∙◌, arith, All, All-append, All-mono, length, filter_if, Bool-cases, Option-cases,
  inl, inr,
}
use mathlib.Core.List.{append_assoc, append-nil}
use flashloan_scanner.Trace.Frames.{CallFrame, Calls, frame, nil, cons}
use flashloan_scanner.Service.Summary.{FlatTraceFrame}
use flashloan_scanner.Service.Summary.Flatten.{
  child_id, flat_frame, walk, walk_calls, flatten_trace_frames,
}
use flashloan_scanner.Service.Summary.Evidence.{frame_ids, collect_subtree_frame_ids}
use flashloan_scanner.Service.Summary.Paths.{
  below, below_self, below_trans, child_below, parent_not_below, siblings,
}

-- The ids that a walk from a frame gives.
unfoldable mutual
  pub ids_of : CallFrame → String → List String
  ids_of (frame _ _ _ _ _ _ _ calls) id = id ∷ ids_in calls id 0

  pub ids_in : Calls → String → ℕ → List String
  ids_in nil id index = []
  ids_in (cons child calls) id index =
      ids_of child (child_id id index) ++ ids_in calls id (suc index)

frame_ids-append :
    (xs ys : List FlatTraceFrame) → frame_ids (xs ++ ys) ≡ frame_ids xs ++ frame_ids ys
frame_ids-append [] ys = refl
frame_ids-append (x ∷ xs) ys = cc (frame_ids-append xs ys)

module _ (checksum : String → String) where
  mutual
    unfolding walk walk_calls flat_frame ids_of ids_in

    walk-ids :
        (f : CallFrame) (id parent : String) (depth : ℕ) (out : List FlatTraceFrame)
        → frame_ids (walk checksum f id parent depth out) ≡ frame_ids out ++ ids_of f id
    walk-ids (frame type from to input output error revert_reason calls) id parent depth out =
        let f = frame type from to input output error revert_reason calls in
        let entry = flat_frame checksum f id parent depth (length out) in
        walk_calls-ids calls id 0 depth (out ++ entry ∷ [])
        ∙ ap (λ ids. ids ++ ids_in calls id 0) (frame_ids-append out (entry ∷ []))
        ∙ append_assoc (frame_ids out) (id ∷ []) (ids_in calls id 0)

    walk_calls-ids :
        (calls : Calls) (id : String) (index depth : ℕ) (out : List FlatTraceFrame)
        → frame_ids (walk_calls checksum calls id index depth out)
          ≡ frame_ids out ++ ids_in calls id index
    walk_calls-ids nil id index depth out = sym (append-nil (frame_ids out))
    walk_calls-ids (cons child calls) id index depth out =
        walk_calls-ids calls id (suc index) depth
          (walk checksum child (child_id id index) id (suc depth) out)
        ∙ ap (λ ids. ids ++ ids_in calls id (suc index))
            (walk-ids child (child_id id index) id (suc depth) out)
        ∙ append_assoc (frame_ids out) (ids_of child (child_id id index))
            (ids_in calls id (suc index))

-- The ids at or below one.
abbrev pick : String → List String → List String
pick root_id ids = filter_if (below root_id) ids

pick-frame_ids :
    (root_id : String) (frames : List FlatTraceFrame)
    → collect_subtree_frame_ids frames root_id ≡ pick root_id (frame_ids frames)
unfolding collect_subtree_frame_ids
pick-frame_ids root_id [] = refl
pick-frame_ids root_id (f ∷ frames) = elim (Bool-cases (below root_id f.id)) [
  | inl hit ↦ rw (collect_subtree_frame_ids, hit) (cc (pick-frame_ids root_id frames))
  | inr miss ↦ rw (collect_subtree_frame_ids, miss) (pick-frame_ids root_id frames)
]

pick-append : (r : String) (xs ys : List String) → pick r (xs ++ ys) ≡ pick r xs ++ pick r ys
pick-append r [] ys = refl
pick-append r (x ∷ xs) ys = elim (Bool-cases (below r x)) [
  | inl hit ↦ rw hit (cc (pick-append r xs ys))
  | inr miss ↦ rw miss (pick-append r xs ys)
]

pick-all : (r : String) (xs : List String) → All (λ x. below r x ≡ true) xs → pick r xs ≡ xs
pick-all r [] h = refl
pick-all r (x ∷ xs) h = rw h.0 (cc (pick-all r xs h.1))

pick-nothing : (r : String) (xs : List String) → All (λ x. below r x ≡ false) xs → pick r xs ≡ []
pick-nothing r [] h = refl
pick-nothing r (x ∷ xs) h = rw h.0 (pick-nothing r xs h.1)

mutual
  unfolding ids_of ids_in

  ids_of-below : (f : CallFrame) (id : String) → All (λ x. below id x ≡ true) (ids_of f id)
  ids_of-below (frame _ _ _ _ _ _ _ calls) id = (below_self id, ids_in-below calls id 0)

  ids_in-below :
      (calls : Calls) (id : String) (index : ℕ)
      → All (λ x. below id x ≡ true) (ids_in calls id index)
  ids_in-below nil id index = tt
  ids_in-below (cons child calls) id index =
      All-append _ (ids_of child (child_id id index)) _
        (All-mono (λ x b. below_trans id (child_id id index) x (child_below id index) b) _
          (ids_of-below child (child_id id index)))
        (ids_in-below calls id (suc index))

-- Nothing of one child is below an id of another one.
other_child :
    (f : CallFrame) (id r : String) (j k : ℕ)
    → j ≢ k
    → below (child_id id k) r ≡ true
    → pick r (ids_of f (child_id id j)) ≡ []
other_child f id r j k apart h = pick-nothing r _ (
    All-mono
      (λ x b. elim (Bool-cases (below r x)) [
        | inl hit ↦ absurd (apart (siblings id x j k b (below_trans (child_id id k) r x h hit)))
        | inr miss ↦ miss
      ])
      _ (ids_of-below f (child_id id j)))

later_children :
    (calls : Calls) (id r : String) (index k : ℕ)
    → k < index
    → below (child_id id k) r ≡ true
    → pick r (ids_in calls id index) ≡ []
unfolding ids_in
later_children nil id r index k later h = refl
later_children (cons child calls) id r index k later h =
    pick-append r (ids_of child (child_id id index)) _
    ∙ cc (
      other_child child id r index k (λ e. omega arith) h,
      later_children calls id r (suc index) k (omega arith) h,
    )

child_at : Calls → ℕ → Option CallFrame
child_at nil k = none
child_at (cons child calls) zero = some child
child_at (cons child calls) (suc k) = child_at calls k

-- The frame that a path of child numbers leads to, and the id that it has.
unfoldable pub frame_at : CallFrame → List ℕ → Option CallFrame
unfolding child_at
frame_at f [] = some f
frame_at (frame _ _ _ _ _ _ _ calls) (k ∷ path) = elim (child_at calls k) [
  | none ↦ none
  | some child ↦ frame_at child path
]

abbrev pub path_id : String → List ℕ → String
path_id id [] = id
path_id id (k ∷ path) = path_id (child_id id k) path

path_id-below : (id : String) (path : List ℕ) → below id (path_id id path) ≡ true
path_id-below id [] = below_self id
path_id-below id (k ∷ path) =
    below_trans id (child_id id k) _ (child_below id k) (path_id-below (child_id id k) path)

-- The ids below a child that the path goes through.
pick-child :
    (calls : Calls) (child : CallFrame) (id r : String) (index k : ℕ)
    → child_at calls k ≡ some child
    → below (child_id id (index + k)) r ≡ true
    → pick r (ids_in calls id index) ≡ pick r (ids_of child (child_id id (index + k)))
unfolding child_at ids_in
pick-child nil child id r index k found h = cc
pick-child (cons first calls) child id r index zero found h =
    let here : index + 0 ≡ index = omega arith in
    let same : first ≡ child = cc in
    pick-append r (ids_of first (child_id id index)) (ids_in calls id (suc index))
    ∙ cc (
      later_children calls id r (suc index) index (omega arith) (rw here at h),
      append-nil (pick r (ids_of first (child_id id index))),
      here,
      same,
    )
pick-child (cons first calls) child id r index (suc k) found h =
    let there : index + suc k ≡ suc index + k = omega arith in
    pick-append r (ids_of first (child_id id index)) (ids_in calls id (suc index))
    ∙ cc (
      other_child first id r index (index + suc k) (λ e. omega arith) h,
      pick-child calls child id r (suc index) k found (rw there at h),
      there,
    )

pick-at :
    (f g : CallFrame) (id : String) (path : List ℕ)
    → frame_at f path ≡ some g
    → pick (path_id id path) (ids_of f id) ≡ ids_of g (path_id id path)
unfolding frame_at ids_of
pick-at f g id [] found =
    let same : f ≡ g = cc in
    pick-all id (ids_of f id) (ids_of-below f id) ∙ ap (λ h. ids_of h id) same
pick-at (frame _ _ _ _ _ _ _ calls) g id (k ∷ path) found = elim (Option-cases (child_at calls k)) [
  | inl missing ↦ let lost = rw (frame_at, missing) at found in cc lost
  | inr (child, e) ↦
      let r = path_id id (k ∷ path) in
      let under = path_id-below (child_id id k) path in
      let later = pick-at child g (child_id id k) path (rw (frame_at, e) at found) in
      let start : 0 + k ≡ k = omega arith in
      let first = rw start at (pick-child calls child id r 0 k e (rw start under)) in
      rw (parent_not_below id r k under) (first ∙ later)
]

-- The ids that collectSubtreeFrameIDs finds for the id of a frame of the tree, among all frames of
-- the flattened tree, are those that the walk from that frame alone gives: the frame and all below
-- it, and no other.
pub collect_subtree_frame_ids-Subtree :
    (checksum : String → String) (root f : CallFrame) (path : List ℕ) (parent : String) (depth : ℕ)
    → frame_at root path ≡ some f
    → collect_subtree_frame_ids (flatten_trace_frames checksum root) (path_id "trace-root" path)
      ≡ frame_ids (walk checksum f (path_id "trace-root" path) parent depth [])
unfolding flatten_trace_frames
collect_subtree_frame_ids-Subtree checksum root f path parent depth found =
    let r = path_id "trace-root" path in
    pick-frame_ids r (flatten_trace_frames checksum root)
    ∙ ap (pick r) (walk-ids checksum root "trace-root" "" 0 [])
    ∙ pick-at root f "trace-root" path found
    ∙ sym (walk-ids checksum f r parent depth [])
