-- ===== src/Service/Jobs/Channels.antt =====
-- job_manager.go, the subscribers: Subscribe with the function that it returns, and broadcast. A
-- channel is a cell with the events in its buffer, the oldest first; `none` is a panic. The maps are
-- functions here, so that a missing key and a nil map are `none`.
use flashloan_scanner.Base.{
  ℕ, suc, String, Bool, true, false, not, Option, none, some, List, [], ◌∷◌, ◌++◌, any, length, ltb,
  ◌==◌, if◌then◌else◌, Outcome, ok, ◌>>=◌, filter_if,
}
use flashloan_scanner.Base.Dict.{put, string_eq, nat_eq}
use flashloan_scanner.Service.Jobs.{JobEvent}
use flashloan_scanner.Service.Jobs.Manager.{Jobs, get_job_locked}

-- A channel, with the job id that the function to unsubscribe it has captured.
pub record Channel : Type 0 where
  pub job_id : String
  pub capacity : ℕ
  pub queue : List JobEvent
  pub closed : Bool

abbrev pub Channels : Type 0
Channels = ℕ → Option Channel

pub record JobManager : Type 0 where
  pub jobs : Jobs
  pub subscribers : String → Option (List ℕ)
  pub channels : Channels
  -- The channels below this one have been made.
  pub next_channel : ℕ

unfoldable pub new_job_manager : JobManager
new_job_manager = record {
  jobs = [];
  subscribers = λ job_id. none;
  channels = λ ch. none;
  next_channel = 0;
}

abbrev pub default_subscriber_buffer : ℕ
default_subscriber_buffer = 64

abbrev pub listed : Option (List ℕ) → List ℕ
listed none = []
listed (some subs) = subs

abbrev pub new_channel : String → ℕ → Channel
new_channel job_id buffer = record {
  job_id = job_id;
  capacity = if buffer == 0 then default_subscriber_buffer else buffer;
  queue = [];
  closed = false;
}

abbrev pub with_channel : String → Channel → JobManager → JobManager
with_channel job_id made m = record m {
  subscribers =
      put ⦃e = string_eq⦄ job_id (some (m.next_channel ∷ listed (m.subscribers job_id)))
        m.subscribers;
  channels = put ⦃e = nat_eq⦄ m.next_channel (some made) m.channels;
  next_channel = suc m.next_channel;
}

-- Subscribe; a negative buffer acts as 0 does.
unfoldable pub subscribe : String → ℕ → JobManager → Outcome (ℕ × JobManager)
unfolding get_job_locked put
subscribe job_id buffer m = get_job_locked job_id m.jobs >>= λ _.
    ok (m.next_channel, with_channel job_id (new_channel job_id buffer) m)

-- `close(ch)`, which panics on a channel that is closed.
unfoldable pub close_channel : ℕ → Channels → Option Channels
unfolding put
close_channel ch channels = elim (channels ch) [
  | none ↦ none
  | some c ↦
      if c.closed
      then none
      else some (put ⦃e = nat_eq⦄ ch (some (record c { closed = true })) channels)
]

abbrev pub unless_empty : List ℕ → Option (List ℕ)
unless_empty [] = none
unless_empty (ch ∷ rest) = some (ch ∷ rest)

-- The function that Subscribe returns.
unfoldable pub unsubscribe : String → ℕ → JobManager → Option JobManager
unfolding close_channel put
unsubscribe job_id ch m = elim (m.subscribers job_id) [
  | none ↦ some m
  | some subs ↦ elim (any (λ c. c == ch) subs) [
    | false ↦ some m
    | true ↦ elim (close_channel ch m.channels) [
      | none ↦ none
      | some channels ↦ some (record m {
        subscribers =
            put ⦃e = string_eq⦄ job_id (unless_empty (filter_if (λ c. not (c == ch)) subs))
              m.subscribers;
        channels = channels;
      })
    ]
  ]
]

-- `select` with a send and a default: the event is dropped when the buffer is full.
unfoldable pub send : JobEvent → ℕ → Channels → Option Channels
unfolding put
send event ch channels = elim (channels ch) [
  | none ↦ some channels
  | some c ↦ elim c.closed [
    | true ↦ none
    | false ↦ some (
        if ltb (length c.queue) c.capacity
        then put ⦃e = nat_eq⦄ ch (some (record c { queue = c.queue ++ event ∷ [] })) channels
        else channels)
  ]
]

-- The loop of broadcast over the channels that it has read under the lock.
unfoldable pub send_all : JobEvent → List ℕ → Channels → Option Channels
unfolding send
send_all event [] channels = some channels
send_all event (ch ∷ rest) channels = elim (send event ch channels) [
  | none ↦ none
  | some sent ↦ send_all event rest sent
]

unfoldable pub broadcast : JobEvent → JobManager → Option JobManager
unfolding send_all
broadcast event m = elim (send_all event (listed (m.subscribers event.job_id)) m.channels) [
  | none ↦ none
  | some channels ↦ some (record m { channels = channels })
]

-- What a reader takes from a channel.
unfoldable pub receive : ℕ → JobManager → Option JobEvent × JobManager
unfolding put
receive ch m = elim (m.channels ch) [
  | none ↦ (none, m)
  | some c ↦ elim c.queue [
    | [] ↦ (none, m)
    | event ∷ rest ↦ (
      some event,
      record m { channels = put ⦃e = nat_eq⦄ ch (some (record c { queue = rest })) m.channels },
    )
  ]
]
