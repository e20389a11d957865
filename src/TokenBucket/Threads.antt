-- ===== src/TokenBucket/Threads.antt =====
-- The four threads of Threading/warmup2.c. What a thread does under `token_mutex` is one step; the
-- times of packets and the output are left out.
use cs402_os.Base.{
  ℕ, ◌+◌, ◌-◌, ◌≤◌, ◌<◌, ◌≡◌, Option, none, some, Bool, true, false, ◌&&◌, ◌||◌, not, List, [], ◌∷◌,
  ◌++◌, ltb, leb, if◌then◌else◌,
}

pub record Packet : Type 0 where
  pub packet_id : ℕ
  pub required_token : ℕ

-- Where the bucket thread is: at its test for the end, at the next token, or at its end.
pub data Phase : Type 0 where
  at_test at_token over : Phase

-- Where a server is: at the top of its loop, holding the mutex behind a test that tells it to wait,
-- asleep on `server_wait`, with a packet, or at its end.
pub data Server : Type 0 where
  ready tested asleep stopped : Server
  serving : Packet → Server

-- The state that the threads share, with the packet that the packet thread has made and not yet put
-- into Q1. `departures` counts the lines that say that a packet departs from a server.
pub record State : Type 0 where
  pub i : ℕ
  pub hand : Option Packet
  pub total_packet_count : ℕ
  pub dropped_packet_count : ℕ
  pub departures : ℕ
  pub total_token_count : ℕ
  pub dropped_token_count : ℕ
  pub current_token_number : ℕ
  pub q1_list : List Packet
  pub q2_list : List Packet
  pub stop_packet_thread : Bool
  pub stop_bucket_thread : Bool
  pub bucket : Phase
  pub server1 : Server
  pub server2 : Server

abbrev pub start : State
start = record {
  i = 0;
  hand = none;
  total_packet_count = 0;
  dropped_packet_count = 0;
  departures = 0;
  total_token_count = 0;
  dropped_token_count = 0;
  current_token_number = 0;
  q1_list = [];
  q2_list = [];
  stop_packet_thread = false;
  stop_bucket_thread = false;
  bucket = at_test;
  server1 = ready;
  server2 = ready;
}

abbrev pub woken : Server → Server
woken asleep = ready
woken v = v

-- `pthread_cond_broadcast(&server_wait)`.
abbrev pub broadcast : State → State
broadcast s = record s { server1 = woken s.server1; server2 = woken s.server2 }

-- The packet `p` leaves the front of Q1, where `rest` is behind it.
abbrev pub leave_q1 : Packet → List Packet → State → State
leave_q1 p rest s = broadcast (record s {
  q1_list = rest;
  current_token_number = s.current_token_number - p.required_token;
  q2_list = s.q2_list ++ p ∷ [];
})

-- The first packet of Q1 leaves where there are tokens for it.
unfoldable pub admit : State → State
admit s = elim s.q1_list [
  | [] ↦ s
  | p ∷ rest ↦ if leb p.required_token s.current_token_number then leave_q1 p rest s else s
]

-- The end of `packet_thread_function`.
abbrev pub packet_end : State → State
packet_end s = broadcast (record s { stop_packet_thread = true })

abbrev pub is_nil : List Packet → Bool
is_nil [] = true
is_nil (p ∷ rest) = false

-- The test at the top of the loop of `bucket_thread_function`.
unfoldable pub bucket_test : State → State
bucket_test s =
    if s.stop_packet_thread && is_nil s.q1_list
    then broadcast (record s { stop_bucket_thread = true; bucket = over })
    else record s { bucket = at_token }

-- What a server does where it has the mutex: its next place, and what is left of Q2.
unfoldable pub server_round : State → Server × List Packet
server_round s = elim s.q2_list [
  | [] ↦ (if s.stop_bucket_thread && s.stop_packet_thread then stopped else tested, [])
  | p ∷ rest ↦ (serving p, rest)
]

-- Where a server goes behind a packet that it has served.
unfoldable pub server_end : State → Server
server_end s =
    if s.stop_bucket_thread && s.stop_packet_thread && is_nil s.q2_list then stopped else ready

abbrev pub holds : Server → Bool
holds tested = true
holds v = false

-- Whether no server holds the mutex.
abbrev pub is_free : State → Bool
is_free s = not (holds s.server1) && not (holds s.server2)

module _ (bucket_size : ℕ) (required : ℕ → ℕ) where
  -- The beginning of a round of `packet_thread_function`: a packet, with the tokens that it requires.
  unfoldable pub packet_made : State → State
  packet_made s =
      let id = s.total_packet_count + 1 in
      record s {
        total_packet_count = id;
        hand = some (record { packet_id = id; required_token = required id });
      }

  -- The rest of that round, with the packet `p`.
  unfoldable pub packet_round : Packet → State → State
  packet_round p s =
      let s1 = record s { i = s.i + 1; hand = none } in
      if ltb bucket_size p.required_token
      then record s1 { dropped_packet_count = s.dropped_packet_count + 1 }
      else admit (record s1 { q1_list = s.q1_list ++ p ∷ [] })

  -- The rest of that loop: a token.
  unfoldable pub bucket_round : State → State
  bucket_round s =
      let s1 = record s { total_token_count = s.total_token_count + 1; bucket = at_test } in
      if leb bucket_size s.current_token_number
      then record s1 { dropped_token_count = s.dropped_token_count + 1 }
      else admit (record s1 { current_token_number = s.current_token_number + 1 })

  -- The steps of the threads, for `packet_count` packets. A packet that is dropped needs no mutex, and
  -- neither do the ends of the loops. A sleeping server may wake at any time.
  pub data Step (packet_count : ℕ) (s : State) : State → Type 0 where
    make : s.i < packet_count → s.hand ≡ none → Step packet_count s (packet_made s)
    packet :
        (p : Packet)
        → s.hand ≡ some p
        → (ltb bucket_size p.required_token || is_free s) ≡ true
        → Step packet_count s (packet_round p s)
    packets_end :
        packet_count ≤ s.i
        → s.hand ≡ none
        → s.stop_packet_thread ≡ false
        → Step packet_count s (packet_end s)
    test : s.bucket ≡ at_test → Step packet_count s (bucket_test s)
    token : s.bucket ≡ at_token → is_free s ≡ true → Step packet_count s (bucket_round s)
    serve1 :
        s.server1 ≡ ready
        → is_free s ≡ true
        → Step packet_count s
            (record s { server1 = (server_round s).0; q2_list = (server_round s).1 })
    serve2 :
        s.server2 ≡ ready
        → is_free s ≡ true
        → Step packet_count s
            (record s { server2 = (server_round s).0; q2_list = (server_round s).1 })
    wait1 : s.server1 ≡ tested → Step packet_count s (record s { server1 = asleep })
    wait2 : s.server2 ≡ tested → Step packet_count s (record s { server2 = asleep })
    wake1 : s.server1 ≡ asleep → Step packet_count s (record s { server1 = ready })
    wake2 : s.server2 ≡ asleep → Step packet_count s (record s { server2 = ready })
    served1 :
        (p : Packet)
        → s.server1 ≡ serving p
        → Step packet_count s (record s { server1 = server_end s; departures = s.departures + 1 })
    served2 :
        (p : Packet)
        → s.server2 ≡ serving p
        → Step packet_count s (record s { server2 = server_end s; departures = s.departures + 1 })

  pub data Reach (packet_count : ℕ) (s : State) : State → Type 0 where
    here : Reach packet_count s s
    next : {t u : State} → Reach packet_count s t → Step packet_count t u → Reach packet_count s u
