-- ===== src/Service/Jobs/Subscriptions.antt =====
-- Subscribe and the function that it returns keep the channels of the subscribers safe.
use mathlib.Core.Path.{subst}
use flashloan_scanner.Base.{
  eq_iff, ℕ, suc, ◌≤◌, String, true, false, not, Option, none, some, List, [], ◌∷◌, any, ◌≡◌, ◌≢◌,
  refl, arith, All, All-mono, inl, inr, Bool-cases, Option-cases, filter_if, ◌==◌, str_eq,
  str_eq→eq,
}
use flashloan_scanner.Base.Dict.{put, string_eq, nat_eq}
use flashloan_scanner.Service.Jobs.Channels.{
  Channel, Channels, JobManager, listed, close_channel, unsubscribe, unless_empty, new_channel,
  with_channel,
}
use flashloan_scanner.Service.Jobs.Safety.{OpenFor, Fits, IsSafe}

-- A property of the old value under other keys and of the new one under the key itself.
put-elim :
    {A : Type 0} (P : ℕ → A → Type 0) (k : ℕ) (v : A) (f : ℕ → A) (j : ℕ)
    → P k v
    → (k ≢ j → P j (f j))
    → P j (put ⦃e = nat_eq⦄ k v f j)
unfolding put
put-elim P k v f j new old = elim (Bool-cases (k == j)) [
  | inl same ↦ let e : k ≡ j = ground arith in rw (put, same) (subst (λ i. P i v) e new)
  | inr other ↦ rw (put, other) (old (λ e. ground arith))
]

put-elim_text :
    {A : Type 0} (P : String → A → Type 0) (k : String) (v : A) (f : String → A) (j : String)
    → P k v
    → (k ≢ j → P j (f j))
    → P j (put ⦃e = string_eq⦄ k v f j)
unfolding put
put-elim_text P k v f j new old = elim (Bool-cases (str_eq k j)) [
  | inl same ↦ rw (put, same) (subst (λ i. P i v) (str_eq→eq k j same) new)
  | inr other ↦ rw (put, other) (old (λ e. ground (arith, eq_iff k j)))
]

-- A new channel hides no old one.
put-OpenFor :
    (job : String) (next ch : ℕ) (v : Option Channel) (channels : Channels)
    → channels next ≡ none
    → OpenFor job (channels ch)
    → OpenFor job (put ⦃e = nat_eq⦄ next v channels ch)
put-OpenFor job next ch v channels unused o =
    put-elim (λ i c. OpenFor job (channels i) → OpenFor job c) next v channels ch
      (λ h. absurd (rw unused at h)) (λ _ h. h) o

pub with_channel-IsSafe :
    (m : JobManager) (id : String) (buffer : ℕ)
    → IsSafe m
    → IsSafe (with_channel id (new_channel id buffer) m)
with_channel-IsSafe m id buffer safe =
    let next = m.next_channel in
    let unused : m.channels next ≡ none = safe.fresh next (omega arith) in
    let made = new_channel id buffer in
    let old : (job : String)
        → All (λ ch. OpenFor job (put ⦃e = nat_eq⦄ next (some made) m.channels ch))
            (listed (m.subscribers job)) =
      λ job.
        All-mono (λ ch o. put-OpenFor job next ch (some made) m.channels unused o)
          (listed (m.subscribers job)) (safe.registered job) in
    record {
      registered = λ job.
          put-elim_text
            (λ j subs.
              All (λ ch. OpenFor j (put ⦃e = nat_eq⦄ next (some made) m.channels ch)) (listed subs))
            id _ m.subscribers job
            (
              put-elim (λ i c. OpenFor id c) next (some made) m.channels next (refl, refl)
                  (λ h. absurd (h refl)),
              old id,
            )
            (λ _. old job);
      bounded = λ ch.
          put-elim (λ i c. Fits c) next (some made) m.channels ch (omega arith)
            (λ _. safe.bounded ch);
      fresh = λ ch new.
          put-elim (λ i c. suc next ≤ i → c ≡ none) next (some made) m.channels ch
            (λ h. absurd (omega arith)) (λ _ h. safe.fresh ch (omega arith)) new;
    }

listed_unless_empty :
    (job : String) (channels : Channels) (chs : List ℕ)
    → All (λ i. OpenFor job (channels i)) chs
    → All (λ i. OpenFor job (channels i)) (listed (unless_empty chs))
listed_unless_empty job channels [] hs = tt
listed_unless_empty job channels (ch ∷ chs) hs = hs

module _ (m : JobManager) (id : String) (ch : ℕ) (safe : IsSafe m) where
  -- The channel that is closed is registered no more.
  closed_elsewhere :
      (c : Channel) (job : String) (chs : List ℕ)
      → m.channels ch ≡ some c
      → c.job_id ≡ id
      → id ≢ job
      → All (λ i. OpenFor job (m.channels i)) chs
      → All
          (λ i. OpenFor job (put ⦃e = nat_eq⦄ ch (some (record c { closed = true })) m.channels i))
          chs
  closed_elsewhere c job chs held owner other hs =
      All-mono
        (λ i o.
          put-elim (λ j d. OpenFor job (m.channels j) → OpenFor job d) ch _ m.channels i
            (λ h. absurd (other (cc (owner, (rw held at h).1)))) (λ _ h. h) o)
        chs hs

  closed_here :
      (c : Channel) (chs : List ℕ)
      → All (λ i. OpenFor id (m.channels i)) chs
      → All
          (λ i. OpenFor id (put ⦃e = nat_eq⦄ ch (some (record c { closed = true })) m.channels i))
          (filter_if (λ i. not (i == ch)) chs)
  closed_here c [] hs = tt
  closed_here c (i ∷ chs) hs = elim (Bool-cases (i == ch)) [
    | inl same ↦ rw same (closed_here c chs hs.1)
    | inr other ↦ rw other (
      put-elim (λ j d. (j == ch) ≡ false → OpenFor id (m.channels j) → OpenFor id d) ch _ m.channels
          i (λ h o. absurd (ground arith)) (λ _ h o. o) other hs.0,
      closed_here c chs hs.1,
    )
  ]

  any-OpenFor :
      (chs : List ℕ)
      → All (λ i. OpenFor id (m.channels i)) chs
      → any (λ i. i == ch) chs ≡ true
      → OpenFor id (m.channels ch)
  any-OpenFor [] hs h = cc
  any-OpenFor (i ∷ chs) hs h = elim (Bool-cases (i == ch)) [
    | inl same ↦ let e : i ≡ ch = ground arith in subst (λ j. OpenFor id (m.channels j)) e hs.0
    | inr other ↦ any-OpenFor chs hs.1 (ground arith)
  ]

  -- What is left of the channel and of the list of its job.
  abbrev closed : Channel → List ℕ → JobManager
  closed c subs = record m {
    subscribers =
        put ⦃e = string_eq⦄ id (unless_empty (filter_if (λ i. not (i == ch)) subs)) m.subscribers;
    channels = put ⦃e = nat_eq⦄ ch (some (record c { closed = true })) m.channels;
  }

  closed-IsSafe :
      (c : Channel) (subs : List ℕ)
      → m.channels ch ≡ some c
      → m.subscribers id ≡ some subs
      → c.job_id ≡ id
      → IsSafe (closed c subs)
  closed-IsSafe c subs held mine owner = record {
    registered = λ job.
        put-elim_text (λ j left. All (λ i. OpenFor j ((closed c subs).channels i)) (listed left)) id
          _ m.subscribers job
          (listed_unless_empty id _ (filter_if (λ i. not (i == ch)) subs)
            (closed_here c subs (rw mine at (safe.registered id))))
          (λ other.
            closed_elsewhere c job (listed (m.subscribers job)) held owner other
              (safe.registered job));
    bounded = λ i.
        put-elim (λ j d. Fits (m.channels j) → Fits d) ch _ m.channels i (λ h. rw held at h)
          (λ _ h. h) (safe.bounded i);
    fresh = λ i new.
        put-elim (λ j d. m.channels j ≡ none → d ≡ none) ch _ m.channels i (λ h. cc (h, held))
          (λ _ h. h) (safe.fresh i new);
  }

  pub unsubscribe-IsSafe :
      (after : JobManager) × (unsubscribe id ch m ≡ some after)
      × IsSafe after
      × (after.jobs ≡ m.jobs)
  unfolding unsubscribe close_channel
  unsubscribe-IsSafe = elim (Option-cases (m.subscribers id)) [
    | inl e ↦ (m, rw (unsubscribe, e) refl, safe, refl)
    | inr (subs, e) ↦ elim (Bool-cases (any (λ i. i == ch) subs)) [
      | inr absent ↦ (m, rw (unsubscribe, e, absent) refl, safe, refl)
      | inl present ↦
          let open_one = any-OpenFor subs (rw e at (safe.registered id)) present in
          elim (Option-cases (m.channels ch)) [
            | inl none_there ↦ absurd (rw none_there at open_one)
            | inr (c, held) ↦
                let (shut, owner) : OpenFor id (some c) = rw held at open_one in
                (
                  closed c subs,
                  ground (arith, e, present, held, shut),
                  closed-IsSafe c subs held e owner,
                  refl,
                )
          ]
    ]
  ]
