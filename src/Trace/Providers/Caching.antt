-- ===== src/Trace/Providers/Caching.antt =====
-- What the cached and the persisting provider promise.
use flashloan_scanner.Base.{
  String, ◌≡◌, ◌≢◌, refl, sym, ◌∙◌, ap, inl, inr, Option, none, some, List, [], ◌∷◌, arith, str_eq,
  eq_iff, Outcome, ok, err, Option-cases, Bool-cases,
}
use flashloan_scanner.Base.Dict.{lookup, lookup-insert, lookup-insert_self, string_eq}
use flashloan_scanner.Trace.Frames.{CallFrame, clone_call_frame, clone_call_frame_lem}
use flashloan_scanner.Trace.Providers.{
  Fetch, CachedProvider, cache_key, remember, fetch_through, trace_cached, trace_all,
}

module _ {World : Type 0} where
  -- The cache has `root` for the key.
  abbrev Holds : String → CallFrame → CachedProvider World → Type 0
  Holds key root p = lookup ⦃e = string_eq⦄ key p.cache ≡ some root

  cached_answer :
      (tx_hash : String) (p : CachedProvider World) (w : World) (base : Fetch World)
      (root : CallFrame)
      → p.base ≡ some base
      → cache_key tx_hash ≢ ""
      → Holds (cache_key tx_hash) root p
      → trace_cached tx_hash (p, w) ≡ (ok (some root), p, w)
  unfolding trace_cached
  cached_answer tx_hash p w base root b k h =
      ground (arith, eq_iff (cache_key tx_hash) "", clone_call_frame_lem root)

  remember-Holds :
      (key key' : String) (root : CallFrame) (p : CachedProvider World)
      (answer : Outcome (Option CallFrame)) (w : World)
      → lookup ⦃e = string_eq⦄ key' p.cache ≡ none
      → Holds key root p
      → Holds key root (remember p key' answer w).1
  unfolding remember
  remember-Holds key key' root p (err e) w m h = h
  remember-Holds key key' root p (ok none) w m h = h
  remember-Holds key key' root p (ok (some r)) w m h =
      ground (
        arith,
        eq_iff key' key,
        lookup-insert ⦃e = string_eq⦄ key' key (clone_call_frame r) p.cache,
      )

  -- The cache still holds the root for the key, and the base provider is the same.
  abbrev Kept : String → CallFrame → CachedProvider World → CachedProvider World → Type 0
  Kept key root p q = Holds key root q × (q.base ≡ p.base)

  remember-Kept :
      (key key' : String) (root : CallFrame) (p : CachedProvider World)
      (answer : Outcome (Option CallFrame)) (w : World)
      → lookup ⦃e = string_eq⦄ key' p.cache ≡ none
      → Holds key root p
      → Kept key root p (remember p key' answer w).1
  unfolding remember
  remember-Kept key key' root p (err e) w m h = (h, refl)
  remember-Kept key key' root p (ok none) w m h = (h, refl)
  remember-Kept key key' root p (ok (some r)) w m h =
      (remember-Holds key key' root p (ok (some r)) w m h, refl)

  fetch_through-Kept :
      (base : Option (Fetch World)) (tx_hash key : String) (root : CallFrame)
      (p : CachedProvider World) (w : World)
      → Holds key root p
      → Kept key root p (fetch_through p base tx_hash w).1
  unfolding fetch_through
  fetch_through-Kept none tx_hash key root p w h = (h, refl)
  fetch_through-Kept (some base) tx_hash key root p w h =
      elim (Bool-cases (str_eq (cache_key tx_hash) "")) [
        | inl empty ↦ rw empty (h, refl)
        | inr full ↦ elim (Option-cases (lookup ⦃e = string_eq⦄ (cache_key tx_hash) p.cache)) [
          | inl miss ↦
              rw (full, miss)
                (remember-Kept key (cache_key tx_hash) root p (base tx_hash w).0 (base tx_hash w).1
                  miss h)
          | inr (cached, hit) ↦ rw (full, hit) (h, refl)
        ]
      ]

  trace_cached-Kept :
      (tx_hash key : String) (root : CallFrame) (p : CachedProvider World) (w : World)
      → Holds key root p
      → Kept key root p (trace_cached tx_hash (p, w)).1
  unfolding trace_cached
  trace_cached-Kept tx_hash key root p w h = fetch_through-Kept p.base tx_hash key root p w h

  trace_all-Kept :
      (requests : List String) (key : String) (root : CallFrame) (p : CachedProvider World)
      (w : World)
      → Holds key root p
      → Kept key root p (trace_all requests (p, w)).0
  unfolding trace_all
  trace_all-Kept [] key root p w h = (h, refl)
  trace_all-Kept (tx_hash ∷ rest) key root p w h =
      let (answer, q, v) = trace_cached tx_hash (p, w) in
      let (held, same) = trace_cached-Kept tx_hash key root p w h in
      let (finally, same') = trace_all-Kept rest key root q v held in (finally, same' ∙ same)

  -- An answer with a root is held by the cache from then on.
  remembered :
      (key : String) (root : CallFrame) (p q : CachedProvider World)
      (answer : Outcome (Option CallFrame)) (w v : World)
      → remember p key answer w ≡ (ok (some root), q, v)
      → Holds key root q × (q.base ≡ p.base)
  unfolding remember
  remembered key root p q (err e) w v h = absurd (ground arith)
  remembered key root p q (ok none) w v h = absurd (ground arith)
  remembered key root p q (ok (some r)) w v h = ground (
    arith,
    lookup-insert_self ⦃e = string_eq⦄ key (clone_call_frame r) p.cache,
    clone_call_frame_lem (clone_call_frame r),
  )

  fetched :
      (base : Fetch World) (tx_hash : String) (root : CallFrame) (p q : CachedProvider World)
      (w v : World)
      → fetch_through p (some base) tx_hash w ≡ (ok (some root), q, v)
      → (cache_key tx_hash ≢ "") × (Holds (cache_key tx_hash) root q × (q.base ≡ p.base))
  unfolding fetch_through
  fetched base tx_hash root p q w v h = elim (Bool-cases (str_eq (cache_key tx_hash) "")) [
    | inl empty ↦ absurd (ground (arith, empty))
    | inr full ↦ (
      λ e. ground (arith, eq_iff (cache_key tx_hash) ""),
      elim (Option-cases (lookup ⦃e = string_eq⦄ (cache_key tx_hash) p.cache)) [
        | inl miss ↦
            remembered (cache_key tx_hash) root p q (base tx_hash w).0 (base tx_hash w).1 v
              (rw (full, miss) at h)
        | inr (cached, hit) ↦ ground (arith, hit, clone_call_frame_lem cached)
      ],
    )
  ]

  fetch_through-none :
      (p : CachedProvider World) (tx_hash : String) (w : World)
      → fetch_through p none tx_hash w ≡ (err "trace provider is required", p, w)
  unfolding fetch_through
  fetch_through-none p tx_hash w = refl

  -- Once a request for a transaction gave a tree, a later request, with any other requests in
  -- between and under any spelling of the hash with the same key, gives the same tree, changes no
  -- state and does not call the base provider.
  pub trace_cached_again :
      (tx_hash again : String) (requests : List String) (root : CallFrame)
      (p q : CachedProvider World) (w v : World)
      → trace_cached tx_hash (p, w) ≡ (ok (some root), q, v)
      → cache_key again ≡ cache_key tx_hash
      → let after = trace_all requests (q, v) in
        trace_cached again after ≡ (ok (some root), after.0, after.1)
  unfolding trace_cached
  trace_cached_again tx_hash again requests root p q w v h k = elim (Option-cases p.base) [
    | inl missing ↦ absurd (
        ground
          (arith, ap (λ b. fetch_through p b tx_hash w) missing, fetch_through-none p tx_hash w))
    | inr (base, given) ↦
        let (proper, kept) =
          fetched base tx_hash root p q w v
            (sym (ap (λ b. fetch_through p b tx_hash w) given) ∙ h) in
        let after = trace_all requests (q, v) in
        let still = trace_all-Kept requests (cache_key tx_hash) root q v kept.0 in
        let known : Holds (cache_key again) root after.0 = rw k still.0 in
        cached_answer again after.0 after.1 base root (still.1 ∙ kept.1 ∙ given)
          (λ e. proper (sym k ∙ e)) known
  ]
