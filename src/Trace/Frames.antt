-- ===== src/Trace/Frames.antt =====
-- scanner/trace/trace.go and `cloneCallFrame` of cached.go. `Calls` is Go's `[]CallFrame`.
use flashloan_scanner.Base.{String, List, [], ◌∷◌, ◌++◌, ◌≡◌, refl, ap}

mutual
  pub data CallFrame : Type 0 where
    frame : (type from to input output error revert_reason : String) → Calls → CallFrame

  pub data Calls : Type 0 where
    nil : Calls
    cons : CallFrame → Calls → Calls

abbrev pub from_of : CallFrame → String
from_of (frame _ from _ _ _ _ _ _) = from

abbrev pub to_of : CallFrame → String
to_of (frame _ _ to _ _ _ _ _) = to

abbrev pub input_of : CallFrame → String
input_of (frame _ _ _ input _ _ _ _) = input

abbrev pub error_of : CallFrame → String
error_of (frame _ _ _ _ _ error _ _) = error

abbrev pub calls_of : CallFrame → Calls
calls_of (frame _ _ _ _ _ _ _ calls) = calls

-- Every frame below a frame, each before the frames below it.
unfoldable mutual
  pub descendants : CallFrame → List CallFrame
  descendants (frame _ _ _ _ _ _ _ calls) = descendants_in calls

  pub descendants_in : Calls → List CallFrame
  descendants_in nil = []
  descendants_in (cons child calls) = child ∷ descendants child ++ descendants_in calls

-- `cloneCallFrame` builds a new tree, field by field and child by child.
unfoldable mutual
  pub clone_call_frame : CallFrame → CallFrame
  clone_call_frame (frame type from to input output error revert_reason calls) =
      frame type from to input output error revert_reason (clone_calls calls)

  pub clone_calls : Calls → Calls
  clone_calls nil = nil
  clone_calls (cons child calls) = cons (clone_call_frame child) (clone_calls calls)

mutual
  unfolding clone_call_frame clone_calls

  clone_same : (f : CallFrame) → clone_call_frame f ≡ f
  clone_same (frame type from to input output error revert_reason calls) =
      ap (frame type from to input output error revert_reason) (clone_calls_same calls)

  clone_calls_same : (cs : Calls) → clone_calls cs ≡ cs
  clone_calls_same nil = refl
  clone_calls_same (cons child calls) = cc (clone_same child, clone_calls_same calls)

-- A clone has the contents of the original.
pub clone_call_frame_lem : (f : CallFrame) → clone_call_frame f ≡ f
clone_call_frame_lem f = clone_same f
