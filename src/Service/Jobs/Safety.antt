-- ===== src/Service/Jobs/Safety.antt =====
-- The channels of the subscribers: in any sequence of calls, each of which runs to its end before
-- the next, nothing is sent to or closed on a channel that is closed.
use mathlib.Core.Path.{subst}
use flashloan_scanner.Base.{
  ℕ, ◌≤◌, String, true, false, Option, none, some, List, [], ◌∷◌, ◌++◌, ◌≡◌, refl, arith, length,
  length-append, All, All-mono, List-cases, inl, inr, Bool-cases, Option-cases, ◌==◌, ltb,
}
use flashloan_scanner.Base.Dict.{put, string_eq, nat_eq}
use flashloan_scanner.Service.Jobs.{JobEvent}
use flashloan_scanner.Service.Jobs.Channels.{
  Channel, Channels, JobManager, listed, send, send_all, broadcast, receive,
}

-- An open channel of a job.
abbrev pub OpenFor : String → Option Channel → Type 0
OpenFor job none = ⊥
OpenFor job (some c) = (c.closed ≡ false) × (c.job_id ≡ job)

-- A buffer within its capacity.
abbrev pub Fits : Option Channel → Type 0
Fits none = Unit
Fits (some c) = length c.queue ≤ c.capacity

pub record IsSafe (m : JobManager) : Type 0 where
  pub registered :
      (job : String) → All (λ ch. OpenFor job (m.channels ch)) (listed (m.subscribers job))
  pub bounded : (ch : ℕ) → Fits (m.channels ch)
  pub fresh : (ch : ℕ) → m.next_channel ≤ ch → m.channels ch ≡ none

record SameChannel (c d : Channel) : Type 0 where
  closed_same : d.closed ≡ c.closed
  job_same : d.job_id ≡ c.job_id
  fitting : length c.queue ≤ c.capacity → length d.queue ≤ d.capacity

-- The same channel with another content of its buffer.
abbrev Alike : Option Channel → Option Channel → Type 0
Alike none none = Unit
Alike none (some d) = ⊥
Alike (some c) none = ⊥
Alike (some c) (some d) = SameChannel c d

Alike-refl : (c : Option Channel) → Alike c c
Alike-refl none = tt
Alike-refl (some c) = record { closed_same = refl; job_same = refl; fitting = λ h. h }

Alike-trans : (a b c : Option Channel) → Alike a b → Alike b c → Alike a c
Alike-trans none none none h k = tt
Alike-trans (some a) (some b) (some c) h k = record {
  closed_same = cc (h.closed_same, k.closed_same);
  job_same = cc (h.job_same, k.job_same);
  fitting = λ x. k.fitting (h.fitting x);
}
Alike-trans none (some b) c h k = absurd h
Alike-trans (some a) none c h k = absurd h
Alike-trans none none (some c) h k = absurd k
Alike-trans (some a) (some b) none h k = absurd k

Alike-OpenFor : (job : String) (a b : Option Channel) → Alike a b → OpenFor job a → OpenFor job b
Alike-OpenFor job none b h o = absurd o
Alike-OpenFor job (some a) none h o = absurd h
Alike-OpenFor job (some a) (some b) h o = (cc (h.closed_same, o.0), cc (h.job_same, o.1))

Alike-Fits : (a b : Option Channel) → Alike a b → Fits a → Fits b
Alike-Fits none none h f = tt
Alike-Fits none (some b) h f = absurd h
Alike-Fits (some a) none h f = absurd h
Alike-Fits (some a) (some b) h f = h.fitting f

Alike-none : (a b : Option Channel) → Alike a b → a ≡ none → b ≡ none
Alike-none none none h e = refl
Alike-none none (some b) h e = absurd h
Alike-none (some a) b h e = cc

-- All channels are the same but for their buffers.
AllAlike : Channels → Channels → Type 0
AllAlike before after = (ch : ℕ) → Alike (before ch) (after ch)

put-AllAlike :
    (ch : ℕ) (c d : Channel) (channels : Channels)
    → channels ch ≡ some c
    → Alike (some c) (some d)
    → AllAlike channels (put ⦃e = nat_eq⦄ ch (some d) channels)
unfolding put AllAlike
put-AllAlike ch c d channels held alike i = elim (Bool-cases (ch == i)) [
  | inl same ↦
      let e : ch ≡ i = ground arith in
      let found : some c ≡ channels i = cc (held, e) in
      rw (put, same) (subst (λ a. Alike a (some d)) found alike)
  | inr other ↦ rw (put, other) (Alike-refl (channels i))
]

queued-SameChannel :
    (event : JobEvent) (c : Channel)
    → ltb (length c.queue) c.capacity ≡ true
    → SameChannel c (record c { queue = c.queue ++ event ∷ [] })
queued-SameChannel event c room = record {
  closed_same = refl;
  job_same = refl;
  fitting = λ h. ground (arith, length-append c.queue (event ∷ []));
}

-- Sending to an open channel does not panic.
send-AllAlike :
    (event : JobEvent) (job : String) (ch : ℕ) (channels : Channels)
    → OpenFor job (channels ch)
    → (after : Channels) × (send event ch channels ≡ some after) × AllAlike channels after
unfolding send AllAlike
send-AllAlike event job ch channels o = elim (Option-cases (channels ch)) [
  | inl e ↦ absurd (rw e at o)
  | inr (c, e) ↦
      let (open_one, _) : OpenFor job (some c) = rw e at o in
      elim (Bool-cases (ltb (length c.queue) c.capacity)) [
        | inl room ↦
            let queued : Channel = record c { queue = c.queue ++ event ∷ [] } in
            (
              put ⦃e = nat_eq⦄ ch (some queued) channels,
              ground (arith, e, open_one, room),
              put-AllAlike ch c queued channels e (queued-SameChannel event c room),
            )
        | inr full ↦ (channels, ground (arith, e, open_one, full), λ i. Alike-refl (channels i))
      ]
]

All-OpenFor :
    (job : String) (before after : Channels) (chs : List ℕ)
    → AllAlike before after
    → All (λ ch. OpenFor job (before ch)) chs
    → All (λ ch. OpenFor job (after ch)) chs
unfolding AllAlike
All-OpenFor job before after chs alike hs =
    All-mono (λ ch o. Alike-OpenFor job (before ch) (after ch) (alike ch) o) chs hs

send_all-AllAlike :
    (event : JobEvent) (job : String) (chs : List ℕ) (channels : Channels)
    → All (λ ch. OpenFor job (channels ch)) chs
    → (after : Channels) × (send_all event chs channels ≡ some after) × AllAlike channels after
unfolding send_all AllAlike
send_all-AllAlike event job [] channels hs = (channels, refl, λ i. Alike-refl (channels i))
send_all-AllAlike event job (ch ∷ chs) channels hs =
    let (sent, one, same) = send-AllAlike event job ch channels hs.0 in
    let (after, rest, alike) =
      send_all-AllAlike event job chs sent (All-OpenFor job channels sent chs same hs.1) in
    (after, rw (send_all, one, rest) refl, λ i. Alike-trans _ (sent i) _ (same i) (alike i))

-- Other contents of the buffers.
AllAlike-IsSafe :
    (m : JobManager) (after : Channels)
    → AllAlike m.channels after
    → IsSafe m
    → IsSafe (record m { channels = after })
unfolding AllAlike
AllAlike-IsSafe m after alike s = record {
  registered = λ job. All-OpenFor job m.channels after _ alike (s.registered job);
  bounded = λ ch. Alike-Fits (m.channels ch) (after ch) (alike ch) (s.bounded ch);
  fresh = λ ch old. Alike-none (m.channels ch) (after ch) (alike ch) (s.fresh ch old);
}

pub broadcast-IsSafe :
    (event : JobEvent) (m : JobManager)
    → IsSafe m
    → (after : Channels) × (broadcast event m ≡ some (record m { channels = after }))
      × IsSafe (record m { channels = after })
unfolding broadcast
broadcast-IsSafe event m s =
    let (after, sent, alike) =
      send_all-AllAlike event event.job_id _ m.channels (s.registered event.job_id) in
    (after, rw (broadcast, sent) refl, AllAlike-IsSafe m after alike s)

pub receive-IsSafe : (ch : ℕ) (m : JobManager) → IsSafe m → IsSafe (receive ch m).1
unfolding receive
receive-IsSafe ch m s = elim (Option-cases (m.channels ch)) [
  | inl e ↦ rw (receive, e) s
  | inr (c, e) ↦ elim (List-cases c.queue) [
    | inl nothing ↦ rw (receive, e, nothing) s
    | inr (event, rest, q) ↦
        let left : Channel = record c { queue = rest } in
        rw (receive, e, q)
          (AllAlike-IsSafe m (put ⦃e = nat_eq⦄ ch (some left) m.channels)
            (put-AllAlike ch c left m.channels e (record {
              closed_same = refl;
              job_same = refl;
              fitting = λ h. omega (arith, rw q at h);
            }))
            s)
  ]
]
