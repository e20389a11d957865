-- ===== src/TokenBucket/Tests.antt =====
-- A run of the threads of Threading/warmup2.c: of two packets, the first is served and the second,
-- which requires more tokens than the bucket holds, is dropped.
use cs402_os.Base.{ℕ, ◌+◌, ◌<◌, ◌≡◌, refl, true, ◌++◌, ◌==◌, if◌then◌else◌, length, arith}
use cs402_os.TokenBucket.Threads.{
  State, start, Packet, admit, packet_made, packet_round, packet_end, bucket_test, bucket_round,
  server_round, server_end, stopped, make, packet, packets_end, test, token, serve1, serve2, asleep,
  wait1, served1, Reach, here, next,
}
use cs402_os.TokenBucket.Balance.{finished_lem}
use cs402_os.TokenBucket.Order.{Between, reachable-IsOrdered}
use cs402_os.TokenBucket.Waits.{Short, reachable-Short}

unfoldable needs : ℕ → ℕ
needs id = if id == 1 then 1 else 5

-- The first packet arrives, a token lets it through, and the second packet is dropped.
abbrev first : Packet
first = record { packet_id = 1; required_token = 1 }

abbrev second : Packet
second = record { packet_id = 2; required_token = 5 }

abbrev waiting : State
waiting = packet_round 2 needs first (packet_made 2 needs start)

abbrev filled : State
filled = bucket_round 2 needs (bucket_test waiting)

abbrev sent : State
sent = packet_end (packet_round 2 needs second (packet_made 2 needs filled))

-- Server 1 takes the packet, and all threads come to their ends.
abbrev taken : State
taken = record sent { server1 = (server_round sent).0; q2_list = (server_round sent).1 }

abbrev closed : State
closed = bucket_test taken

abbrev left : State
left = record closed { server2 = (server_round closed).0; q2_list = (server_round closed).1 }

abbrev last : State
last = record left { server1 = server_end left; departures = left.departures + 1 }

run : Reach 2 needs 2 start last
unfolding packet_made packet_round bucket_round bucket_test server_round server_end admit needs
run =
    next
      (next
        (next
          (next
            (next
              (next
                (next
                  (next
                    (next (next (next here (make (omega arith) refl)) (packet first refl refl))
                      (test refl))
                    (token refl refl))
                  (make (omega arith) refl))
                (packet second refl refl))
              (packets_end (omega arith) refl refl))
            (serve1 refl refl))
          (test refl))
        (serve2 refl refl))
      (served1 first refl)

last_stopped : (last.server1 ≡ stopped) × (last.server2 ≡ stopped)
unfolding packet_made packet_round bucket_round bucket_test server_round server_end admit needs
last_stopped = (refl, refl)

finished_example :
    (last.departures + last.dropped_packet_count ≡ 2)
    × (length last.q1_list ≡ 0)
    × (length last.q2_list ≡ 0)
finished_example = finished_lem 2 2 needs last run last_stopped.0 last_stopped.1

ordered_example : Between 0 (last.q2_list ++ last.q1_list) last.total_packet_count
ordered_example = reachable-IsOrdered 2 needs 2 last run

-- The first packet waits for its token.
arrives : Reach 2 needs 2 start waiting
unfolding packet_made packet_round admit needs
arrives = next (next here (make (omega arith) refl)) (packet first refl refl)

needs_positive : (id : ℕ) → 0 < needs id
unfolding needs
needs_positive id = ground arith

waits_example : Short waiting.q1_list waiting.current_token_number
waits_example = reachable-Short 2 needs needs_positive 2 waiting arrives

-- Without packets: server 1 reads the flags, both threads set them and broadcast, and it goes to sleep.
abbrev read_flags : State
read_flags = record start { server1 = (server_round start).0; q2_list = (server_round start).1 }

abbrev missed : State
missed = record (bucket_test (packet_end read_flags)) { server1 = asleep }

misses_signal : Reach 2 needs 0 start missed
unfolding bucket_test server_round
misses_signal =
    next
      (next (next (next here (serve1 refl refl)) (packets_end (omega arith) refl refl)) (test refl))
      (wait1 refl)

missed_flags :
    (missed.stop_packet_thread ≡ true)
    × (missed.stop_bucket_thread ≡ true)
    × (missed.server1 ≡ asleep)
unfolding bucket_test server_round
missed_flags = (refl, refl, refl)
