-- ===== src/Trace/Examples.antt =====
-- The providers on a node that counts its requests: tests, and the theorems applied.
use flashloan_scanner.Base.{ℕ, ◌+◌, ◌≡◌, refl, some, [], ◌∷◌, ok}
use flashloan_scanner.Base.Dict.{lookup, insert}
use flashloan_scanner.Base.Text.{to_lower, trim_space}
use flashloan_scanner.Trace.Frames.{CallFrame, frame, nil, clone_call_frame}
use flashloan_scanner.Trace.Providers.{Fetch, CachedProvider, trace_cached, trace_all}
use flashloan_scanner.Trace.Providers.Caching.{trace_cached_again}

abbrev root : CallFrame
root = frame "CALL" "5" "7" "" "" "" "" nil

-- The state of the node is the number of requests it had.
abbrev node : Fetch ℕ
node tx_hash asked = (ok (some root), asked + 1)

abbrev fresh : CachedProvider ℕ
fresh = record { base = some node; cache = [] }

abbrev warm : CachedProvider ℕ
warm = record { base = some node; cache = ("0xab", root) ∷ [] }

trace_cached_again_example :
    let after = trace_all ("0xcd" ∷ []) (warm, 1) in
    trace_cached "0xAb " after ≡ (ok (some root), after.0, after.1)
unfolding trace_cached to_lower trim_space clone_call_frame lookup insert
trace_cached_again_example =
    trace_cached_again "0xaB" "0xAb " ("0xcd" ∷ []) root fresh warm 0 1 refl refl
