-- ===== src/Service/Summary/Flatten.antt =====
-- flattenTraceFrames: the list of a tree's frames, with their ids.
use flashloan_scanner.Base.{ℕ, suc, String, List, [], ◌∷◌, ◌++◌, length, text_append}
use flashloan_scanner.Base.Decimal.{decimal}
use flashloan_scanner.Trace.Frames.{CallFrame, Calls, frame, nil, cons, from_of, to_of, input_of}
use flashloan_scanner.Service.Summary.{FlatTraceFrame}
use flashloan_scanner.Service.Summary.Input.{trace_method_selector, decode_token_action}

unfoldable pub child_id : String → ℕ → String
unfolding decimal
child_id id index = text_append id (text_append "." (decimal index))

module _ (checksum : String → String) where
  -- The entry of a frame.
  unfoldable pub flat_frame : CallFrame → String → String → ℕ → ℕ → FlatTraceFrame
  unfolding trace_method_selector decode_token_action
  flat_frame f id parent_id depth call_index =
      let method = trace_method_selector (input_of f) in
      let token = decode_token_action checksum (from_of f) method (input_of f) in
      record {
        frame = f;
        id = id;
        parent_id = parent_id;
        depth = depth;
        call_index = call_index;
        method = method;
        token_action = token.action;
        asset_address = to_of f;
        token_amount = token.amount;
        flow_source = token.source;
        flow_target = token.target;
        tags = [];
      }

  -- The function `walk`, with the list `out` that it appends to; `walk_calls` is its loop over the
  -- children from one on.
  unfoldable mutual
    unfolding flat_frame child_id

    pub walk : CallFrame → String → String → ℕ → List FlatTraceFrame → List FlatTraceFrame
    walk (frame type from to input output error revert_reason calls) id parent_id depth out =
        walk_calls calls id 0 depth (
          out
          ++ flat_frame (frame type from to input output error revert_reason calls) id parent_id
              depth (length out)
            ∷ [])

    pub walk_calls : Calls → String → ℕ → ℕ → List FlatTraceFrame → List FlatTraceFrame
    walk_calls nil id index depth out = out
    walk_calls (cons child calls) id index depth out =
        walk_calls calls id (suc index) depth (walk child (child_id id index) id (suc depth) out)

  unfoldable pub flatten_trace_frames : CallFrame → List FlatTraceFrame
  unfolding walk
  flatten_trace_frames root = walk root "trace-root" "" 0 []
