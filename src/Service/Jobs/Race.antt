-- ===== src/Service/Jobs/Race.antt =====
-- broadcast reads the channels of a job under the lock and sends after it has released it; the
-- function that Subscribe returns may close one of them in between.
use flashloan_scanner.Base.{
  ℕ, String, true, Option, none, some, List, [], ◌∷◌, ◌++◌, any, ◌≡◌, refl, arith, length, inl, inr,
  Bool-cases, Option-cases, ◌==◌, ltb,
}
use flashloan_scanner.Base.Dict.{put, nat_eq}
use flashloan_scanner.Service.Jobs.{JobEvent}
use flashloan_scanner.Service.Jobs.Channels.{
  Channel, Channels, JobManager, send, send_all, unsubscribe, close_channel,
}

abbrev IsClosed : Option Channel → Type 0
IsClosed none = ⊥
IsClosed (some c) = c.closed ≡ true

-- A channel of which the buffer has changed is closed if it was.
put-IsClosed :
    (i ch : ℕ) (c d : Channel) (channels : Channels)
    → channels i ≡ some c
    → (c.closed ≡ true → d.closed ≡ true)
    → IsClosed (channels ch)
    → IsClosed (put ⦃e = nat_eq⦄ i (some d) channels ch)
unfolding put
put-IsClosed i ch c d channels held same shut = elim (Bool-cases (i == ch)) [
  | inl here ↦
      let e : i ≡ ch = ground arith in
      let there : channels ch ≡ some c = rw e at held in rw (put, here) (same (rw there at shut))
  | inr other ↦ rw (put, other) shut
]

abbrev StillClosed : ℕ → Option Channels → Type 0
StillClosed ch none = Unit
StillClosed ch (some sent) = IsClosed (sent ch)

-- Sending on a channel does not open a closed one.
send-IsClosed :
    (event : JobEvent) (i ch : ℕ) (channels : Channels)
    → IsClosed (channels ch)
    → StillClosed ch (send event i channels)
unfolding send
send-IsClosed event i ch channels shut = elim (Option-cases (channels i)) [
  | inl e ↦ rw (send, e) shut
  | inr (c, e) ↦ elim (Bool-cases c.closed) [
    | inl closed ↦ rw (send, e, closed) tt
    | inr open_one ↦ elim (Bool-cases (ltb (length c.queue) c.capacity)) [
      | inl room ↦
          let queued : Channel = record c { queue = c.queue ++ event ∷ [] } in
          let sent : send event i channels ≡ some (put ⦃e = nat_eq⦄ i (some queued) channels) =
            ground (arith, e, open_one, room) in
          rw sent (put-IsClosed i ch c queued channels e (λ h. h) shut)
      | inr full ↦ rw (send, e, open_one, full) shut
    ]
  ]
]

closed-panics :
    (event : JobEvent) (ch : ℕ) (channels : Channels)
    → IsClosed (channels ch)
    → send event ch channels ≡ none
unfolding send
closed-panics event ch channels shut = elim (Option-cases (channels ch)) [
  | inl e ↦ absurd (rw e at shut)
  | inr (c, e) ↦ let closed : c.closed ≡ true = rw e at shut in rw (send, e, closed) refl
]

send_all-panics :
    (event : JobEvent) (ch : ℕ) (chs : List ℕ) (channels : Channels)
    → any (λ i. i == ch) chs ≡ true
    → IsClosed (channels ch)
    → send_all event chs channels ≡ none
unfolding send_all
send_all-panics event ch [] channels h shut = cc
send_all-panics event ch (i ∷ chs) channels h shut = elim (Option-cases (send event i channels)) [
  | inl panic ↦ rw (send_all, panic) refl
  | inr (sent, done) ↦ elim (Bool-cases (i == ch)) [
    | inl same ↦
        let e : i ≡ ch = ground arith in
        let panic = closed-panics event ch channels shut in cc (panic, done, e)
    | inr other ↦
        rw (send_all, done)
          (send_all-panics event ch chs sent (ground arith)
            (rw done at (send-IsClosed event i ch channels shut)))
  ]
]

abbrev ClosedAfter : ℕ → Option JobManager → Type 0
ClosedAfter ch none = Unit
ClosedAfter ch (some after) = IsClosed (after.channels ch)

unsubscribe-IsClosed :
    (id : String) (ch : ℕ) (subs : List ℕ) (m : JobManager)
    → m.subscribers id ≡ some subs
    → any (λ i. i == ch) subs ≡ true
    → ClosedAfter ch (unsubscribe id ch m)
unfolding unsubscribe close_channel put
unsubscribe-IsClosed id ch subs m mine present = elim (Option-cases (m.channels ch)) [
  | inl e ↦ rw (unsubscribe, mine, present, e) tt
  | inr (c, e) ↦ elim (Bool-cases c.closed) [
    | inl closed ↦ rw (unsubscribe, mine, present, e, closed) tt
    | inr open_one ↦ rw (unsubscribe, mine, present, e, open_one) (ground arith)
  ]
]

-- When the function that Subscribe has returned for a registered channel runs after broadcast has
-- read the job's channels, and closes the channel, then the sends of broadcast panic.
pub late_sends_panic :
    (id : String) (ch : ℕ) (event : JobEvent) (subs : List ℕ) (m after : JobManager)
    → m.subscribers id ≡ some subs
    → any (λ i. i == ch) subs ≡ true
    → unsubscribe id ch m ≡ some after
    → send_all event subs after.channels ≡ none
late_sends_panic id ch event subs m after mine present done =
    send_all-panics event ch subs after.channels present
      (rw done at (unsubscribe-IsClosed id ch subs m mine present))
