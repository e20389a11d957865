-- ===== src/TokenBucket/Balance.antt =====
-- Where the packets and tokens of Threading/warmup2.c are, in any order of the steps.
use cs402_os.Base.{
  ℕ, suc, Option, none, some, ◌+◌, ◌-◌, ◌≤◌, ◌<◌, ◌≡◌, refl, Bool, true, false, ◌&&◌, List, [], ◌∷◌,
  ◌++◌, ltb, leb, All, All-append, length, length-append, arith, ◌∙◌, ap, sym, subst, Bool-cases,
  inl, inr,
}
use cs402_os.TokenBucket.Threads.{
  Packet, at_test, over, Server, ready, tested, asleep, stopped, serving, State, start, woken,
  broadcast, leave_q1, admit, packet_made, packet_round, packet_end, is_nil, bucket_test,
  bucket_round, server_round, server_end, Step, make, packet, packets_end, test, token, serve1,
  serve2, wait1, wait2, wake1, wake2, served1, served2, Reach, here, next,
}

-- The packets that a server has.
abbrev pub busy : Server → ℕ
busy (serving p) = 1
busy v = 0

-- The packets that the packet thread has made and not yet put anywhere.
abbrev pub in_hand : Option Packet → ℕ
in_hand none = 0
in_hand (some p) = 1

abbrev pub is_stopped : Server → Bool
is_stopped stopped = true
is_stopped v = false

abbrev Fits : ℕ → Packet → Type 0
Fits bucket_size p = p.required_token ≤ bucket_size

-- A server that is at its end, with the flags that it has read.
abbrev Ended : Server → State → Type 0
Ended v s = is_stopped v ≡ true → (s.stop_bucket_thread ≡ true) × (length s.q2_list ≡ 0)

length-is_nil : (q : List Packet) → is_nil q ≡ true → length q ≡ 0
length-is_nil [] e = refl
length-is_nil (p ∷ rest) e = cc

module _ (bucket_size packet_count : ℕ) where
  pub record IsBalanced (s : State) : Type 0 where
    pub tokens : s.current_token_number ≤ bucket_size
    pub arrived : s.current_token_number + s.dropped_token_count ≤ s.total_token_count
    pub numbered : s.total_packet_count ≡ s.i + in_hand s.hand
    pub bounded : s.i + in_hand s.hand ≤ packet_count
    pub kept :
        s.dropped_packet_count
          + length s.q1_list
          + length s.q2_list
          + busy s.server1
          + busy s.server2
          + s.departures
        ≡ s.i
    pub within : All (Fits bucket_size) s.q1_list
    pub packets_over : s.stop_packet_thread ≡ true → packet_count ≤ s.i
    pub bucket_over :
        s.stop_bucket_thread ≡ true → (s.stop_packet_thread ≡ true) × (length s.q1_list ≡ 0)
    pub ended1 : Ended s.server1 s
    pub ended2 : Ended s.server2 s

  woken-busy : (v : Server) → (busy (woken v) ≡ busy v) × (is_stopped (woken v) ≡ is_stopped v)
  woken-busy ready = (refl, refl)
  woken-busy tested = (refl, refl)
  woken-busy asleep = (refl, refl)
  woken-busy stopped = (refl, refl)
  woken-busy (serving p) = (refl, refl)

  no_packets : All (Fits bucket_size) []
  no_packets = tt

  start-IsBalanced : IsBalanced start
  start-IsBalanced = record {
    tokens = omega arith;
    arrived = omega arith;
    numbered = refl;
    bounded = omega arith;
    kept = omega arith;
    within = no_packets;
    packets_over = λ e. cc;
    bucket_over = λ e. cc;
    ended1 = λ e. cc;
    ended2 = λ e. cc;
  }

  broadcast_lem : (s : State) → IsBalanced s → IsBalanced (broadcast s)
  broadcast_lem s safe =
      let (b1, e1) = woken-busy s.server1 in
      let (b2, e2) = woken-busy s.server2 in
      record {
        tokens = safe.tokens;
        arrived = safe.arrived;
        numbered = safe.numbered;
        bounded = safe.bounded;
        kept = omega (arith, safe.kept, b1, b2);
        within = safe.within;
        packets_over = safe.packets_over;
        bucket_over = safe.bucket_over;
        ended1 = λ e. safe.ended1 (sym e1 ∙ e);
        ended2 = λ e. safe.ended2 (sym e2 ∙ e);
      }

  q1-open : (s : State) → IsBalanced s → 0 < length s.q1_list → s.stop_bucket_thread ≡ false
  q1-open s safe some_left = elim (Bool-cases s.stop_bucket_thread) [
    | inl set ↦ absurd (omega (arith, some_left, (safe.bucket_over set).1))
    | inr unset ↦ unset
  ]

  -- A packet that leaves Q1: nobody is at an end yet.
  leave_q1_lem :
      (p : Packet) (rest : List Packet) (s : State)
      → IsBalanced s
      → s.q1_list ≡ p ∷ rest
      → leb p.required_token s.current_token_number ≡ true
      → IsBalanced (leave_q1 p rest s)
  leave_q1_lem p rest s safe first enough =
      let long : length s.q1_list ≡ suc (length rest) = ap (λ (l : List Packet). length l) first in
      let within' : All (Fits bucket_size) (p ∷ rest) =
        subst (λ l. All (Fits bucket_size) l) first safe.within in
      let open' : s.stop_bucket_thread ≡ false = q1-open s safe (omega (arith, long)) in
      broadcast_lem
        (record s {
          q1_list = rest;
          current_token_number = s.current_token_number - p.required_token;
          q2_list = s.q2_list ++ p ∷ [];
        })
        (record {
          tokens = omega (arith, safe.tokens);
          arrived = omega (arith, safe.arrived);
          numbered = safe.numbered;
          bounded = safe.bounded;
          kept = omega (arith, safe.kept, long, length-append s.q2_list (p ∷ []));
          within = within'.1;
          packets_over = safe.packets_over;
          bucket_over = λ e. absurd (ground (arith, e, open'));
          ended1 = λ e. absurd (ground (arith, safe.ended1 e, open'));
          ended2 = λ e. absurd (ground (arith, safe.ended2 e, open'));
        })

  admit_lem : (s : State) → IsBalanced s → IsBalanced (admit s)
  unfolding admit
  admit_lem s safe = go s.q1_list refl
    where
      go : (q : List Packet) → s.q1_list ≡ q → IsBalanced (admit s)
      go [] e = subst (λ t. IsBalanced t) {x = s} (ground (arith, e)) safe
      go (p ∷ rest) e = elim (Bool-cases (leb p.required_token s.current_token_number)) [
        | inl enough ↦
            subst (λ t. IsBalanced t) {x = leave_q1 p rest s} (ground (arith, e, enough))
              (leave_q1_lem p rest s safe e enough)
        | inr short ↦ subst (λ t. IsBalanced t) {x = s} (ground (arith, e, short)) safe
      ]

  module _ (required : ℕ → ℕ) where
    packet_made_lem :
        (s : State)
        → s.i < packet_count
        → s.hand ≡ none
        → IsBalanced s
        → IsBalanced (packet_made bucket_size required s)
    unfolding packet_made
    packet_made_lem s more free safe = record {
      tokens = safe.tokens;
      arrived = safe.arrived;
      numbered = omega (arith, safe.numbered, ap in_hand free);
      bounded = omega (arith, more);
      kept = safe.kept;
      within = safe.within;
      packets_over = safe.packets_over;
      bucket_over = safe.bucket_over;
      ended1 = safe.ended1;
      ended2 = safe.ended2;
    }

    packet_round_lem :
        (p : Packet) (s : State)
        → s.hand ≡ some p
        → IsBalanced s
        → IsBalanced (packet_round bucket_size required p s)
    unfolding packet_round
    packet_round_lem p s held safe =
        let one : in_hand s.hand ≡ 1 = ap in_hand held in
        let more : s.i + 1 ≤ packet_count = omega (arith, safe.bounded, one) in
        elim (Bool-cases (ltb bucket_size p.required_token)) [
          | inl large ↦ rw large (record {
            tokens = safe.tokens;
            arrived = safe.arrived;
            numbered = omega (arith, safe.numbered, one);
            bounded = omega (arith, more);
            kept = omega (arith, safe.kept);
            within = safe.within;
            packets_over = λ e. absurd (omega (arith, more, safe.packets_over e));
            bucket_over = safe.bucket_over;
            ended1 = safe.ended1;
            ended2 = safe.ended2;
          })
          | inr fitting ↦ rw fitting (
              admit_lem (record s { i = s.i + 1; hand = none; q1_list = s.q1_list ++ p ∷ [] })
                (record {
                  tokens = safe.tokens;
                  arrived = safe.arrived;
                  numbered = omega (arith, safe.numbered, one);
                  bounded = omega (arith, more);
                  kept = omega (arith, safe.kept, length-append s.q1_list (p ∷ []));
                  within =
                      All-append (Fits bucket_size) s.q1_list (p ∷ []) safe.within
                        (ground (arith, fitting), tt);
                  packets_over = λ e. absurd (omega (arith, more, safe.packets_over e));
                  bucket_over =
                      λ e. absurd (omega (arith, more, safe.packets_over (safe.bucket_over e).0));
                  ended1 = safe.ended1;
                  ended2 = safe.ended2;
                }))
        ]

    bucket_test_lem : (s : State) → IsBalanced s → IsBalanced (bucket_test s)
    unfolding bucket_test
    bucket_test_lem s safe = elim (Bool-cases (s.stop_packet_thread && is_nil s.q1_list)) [
      | inl ends ↦ rw ends (
          broadcast_lem (record s { stop_bucket_thread = true; bucket = over })
            (record {
              tokens = safe.tokens;
              arrived = safe.arrived;
              numbered = safe.numbered;
              bounded = safe.bounded;
              kept = safe.kept;
              within = safe.within;
              packets_over = safe.packets_over;
              bucket_over = λ e. both s ends;
              ended1 = λ e. (refl, (safe.ended1 e).1);
              ended2 = λ e. (refl, (safe.ended2 e).1);
            }))
      | inr again ↦ rw again (record {
        tokens = safe.tokens;
        arrived = safe.arrived;
        numbered = safe.numbered;
        bounded = safe.bounded;
        kept = safe.kept;
        within = safe.within;
        packets_over = safe.packets_over;
        bucket_over = safe.bucket_over;
        ended1 = safe.ended1;
        ended2 = safe.ended2;
      })
    ]
      where
        both :
            (s : State)
            → (s.stop_packet_thread && is_nil s.q1_list) ≡ true
            → (s.stop_packet_thread ≡ true) × (length s.q1_list ≡ 0)
        both s e = (ground (arith, e), length-is_nil s.q1_list (ground (arith, e)))

    bucket_round_lem : (s : State) → IsBalanced s → IsBalanced (bucket_round bucket_size required s)
    unfolding bucket_round
    bucket_round_lem s safe = elim (Bool-cases (leb bucket_size s.current_token_number)) [
      | inl full ↦ rw full (record {
        tokens = safe.tokens;
        arrived = omega (arith, safe.arrived);
        numbered = safe.numbered;
        bounded = safe.bounded;
        kept = safe.kept;
        within = safe.within;
        packets_over = safe.packets_over;
        bucket_over = safe.bucket_over;
        ended1 = safe.ended1;
        ended2 = safe.ended2;
      })
      | inr room ↦ rw room (
          admit_lem
            (record s {
              total_token_count = s.total_token_count + 1;
              current_token_number = s.current_token_number + 1;
              bucket = at_test;
            })
            (record {
              tokens = ground (arith, room);
              arrived = omega (arith, safe.arrived);
              numbered = safe.numbered;
              bounded = safe.bounded;
              kept = safe.kept;
              within = safe.within;
              packets_over = safe.packets_over;
              bucket_over = safe.bucket_over;
              ended1 = safe.ended1;
              ended2 = safe.ended2;
            }))
    ]

    packet_end_lem : (s : State) → packet_count ≤ s.i → IsBalanced s → IsBalanced (packet_end s)
    packet_end_lem s all safe =
        broadcast_lem (record s { stop_packet_thread = true })
          (record {
            tokens = safe.tokens;
            arrived = safe.arrived;
            numbered = safe.numbered;
            bounded = safe.bounded;
            kept = safe.kept;
            within = safe.within;
            packets_over = λ e. all;
            bucket_over = λ e. (refl, (safe.bucket_over e).1);
            ended1 = safe.ended1;
            ended2 = safe.ended2;
          })

  -- A server goes on to `v`, with `q` left of Q2 and `n` packets served.
  server1_lem :
      (s : State) (v : Server) (q : List Packet) (n : ℕ)
      → IsBalanced s
      → length q + busy v + n ≡ length s.q2_list + busy s.server1 + s.departures
      → length q ≤ length s.q2_list
      → Ended v s
      → IsBalanced (record s { server1 = v; q2_list = q; departures = n })
  server1_lem s v q n safe same less at_end = record {
    tokens = safe.tokens;
    arrived = safe.arrived;
    numbered = safe.numbered;
    bounded = safe.bounded;
    kept = omega (arith, safe.kept, same);
    within = safe.within;
    packets_over = safe.packets_over;
    bucket_over = safe.bucket_over;
    ended1 = λ e. ((at_end e).0, omega (arith, less, (at_end e).1));
    ended2 = λ e. ((safe.ended2 e).0, omega (arith, less, (safe.ended2 e).1));
  }

  abbrev swap : State → State
  swap s = record s { server1 = s.server2; server2 = s.server1 }

  swap_lem : (s : State) → IsBalanced s → IsBalanced (swap s)
  swap_lem s safe = record {
    tokens = safe.tokens;
    arrived = safe.arrived;
    numbered = safe.numbered;
    bounded = safe.bounded;
    kept = omega (arith, safe.kept);
    within = safe.within;
    packets_over = safe.packets_over;
    bucket_over = safe.bucket_over;
    ended1 = safe.ended2;
    ended2 = safe.ended1;
  }

  server2_lem :
      (s : State) (v : Server) (q : List Packet) (n : ℕ)
      → IsBalanced s
      → length q + busy v + n ≡ length s.q2_list + busy s.server2 + s.departures
      → length q ≤ length s.q2_list
      → Ended v s
      → IsBalanced (record s { server2 = v; q2_list = q; departures = n })
  server2_lem s v q n safe same less at_end =
      swap_lem (record (swap s) { server1 = v; q2_list = q; departures = n })
        (server1_lem (swap s) v q n (swap_lem s safe) same less at_end)

  module _ (required : ℕ → ℕ) where
    server_round_lem :
        (s : State)
        → (length (server_round s).1 + busy (server_round s).0 ≡ length s.q2_list)
          × Ended (server_round s).0 s
    unfolding server_round
    server_round_lem s = go s.q2_list refl
      where
        go :
            (q : List Packet)
            → s.q2_list ≡ q
            → (length (server_round s).1 + busy (server_round s).0 ≡ length s.q2_list)
              × Ended (server_round s).0 s
        go [] e = elim (Bool-cases (s.stop_bucket_thread && s.stop_packet_thread)) [
          | inl both ↦ (
            ground (arith, e, both),
            λ h. (ground (arith, both), ap (λ (l : List Packet). length l) e),
          )
          | inr more ↦ (ground (arith, e, more), λ h. absurd (ground (arith, e, more, h)))
        ]
        go (p ∷ rest) e = (ground (arith, e), λ h. absurd (ground (arith, e, h)))

    server_end_lem : (s : State) → (busy (server_end s) ≡ 0) × Ended (server_end s) s
    unfolding server_end
    server_end_lem s = go s.q2_list refl
      where
        go : (q : List Packet) → s.q2_list ≡ q → (busy (server_end s) ≡ 0) × Ended (server_end s) s
        go q e =
            elim (Bool-cases (s.stop_bucket_thread && s.stop_packet_thread && is_nil s.q2_list)) [
              | inl ends ↦ (
                ground (arith, ends),
                λ h. (ground (arith, ends), length-is_nil s.q2_list (ground (arith, ends))),
              )
              | inr more ↦ (ground (arith, more), λ h. absurd (ground (arith, more, h)))
            ]

    Step-IsBalanced :
        (s t : State) → Step bucket_size required packet_count s t → IsBalanced s → IsBalanced t
    Step-IsBalanced s t (make more free) safe = packet_made_lem required s more free safe
    Step-IsBalanced s t (packet p held free) safe = packet_round_lem required p s held safe
    Step-IsBalanced s t (packets_end all free going) safe = packet_end_lem required s all safe
    Step-IsBalanced s t (test e) safe = bucket_test_lem required s safe
    Step-IsBalanced s t (token e held) safe = bucket_round_lem required s safe
    Step-IsBalanced s t (serve1 e held) safe =
        let (same, at_end) = server_round_lem s in
        server1_lem s (server_round s).0 (server_round s).1 s.departures safe
          (omega (arith, same, ap busy e)) (omega (arith, same)) at_end
    Step-IsBalanced s t (serve2 e held) safe =
        let (same, at_end) = server_round_lem s in
        server2_lem s (server_round s).0 (server_round s).1 s.departures safe
          (omega (arith, same, ap busy e)) (omega (arith, same)) at_end
    Step-IsBalanced s t (wait1 e) safe =
        server1_lem s asleep s.q2_list s.departures safe (omega (arith, ap busy e)) (omega arith)
          (λ h. cc)
    Step-IsBalanced s t (wait2 e) safe =
        server2_lem s asleep s.q2_list s.departures safe (omega (arith, ap busy e)) (omega arith)
          (λ h. cc)
    Step-IsBalanced s t (wake1 e) safe =
        server1_lem s ready s.q2_list s.departures safe (omega (arith, ap busy e)) (omega arith)
          (λ h. cc)
    Step-IsBalanced s t (wake2 e) safe =
        server2_lem s ready s.q2_list s.departures safe (omega (arith, ap busy e)) (omega arith)
          (λ h. cc)
    Step-IsBalanced s t (served1 p e) safe =
        let (idle, at_end) = server_end_lem s in
        server1_lem s (server_end s) s.q2_list (s.departures + 1) safe
          (omega (arith, idle, ap busy e)) (omega arith) at_end
    Step-IsBalanced s t (served2 p e) safe =
        let (idle, at_end) = server_end_lem s in
        server2_lem s (server_end s) s.q2_list (s.departures + 1) safe
          (omega (arith, idle, ap busy e)) (omega arith) at_end

    pub reachable-IsBalanced :
        (s : State) → Reach bucket_size required packet_count start s → IsBalanced s
    reachable-IsBalanced s here = start-IsBalanced
    reachable-IsBalanced s (next {t = t} r step) =
        Step-IsBalanced t s step (reachable-IsBalanced t r)

    -- Where both servers have come to their ends, every one of the packets has departed or was dropped,
    -- and none is left in a queue.
    pub finished_lem :
        (s : State)
        → Reach bucket_size required packet_count start s
        → s.server1 ≡ stopped
        → s.server2 ≡ stopped
        → (s.departures + s.dropped_packet_count ≡ packet_count)
          × (length s.q1_list ≡ 0)
          × (length s.q2_list ≡ 0)
    finished_lem s r end1 end2 =
        let safe = reachable-IsBalanced s r in
        let (set, empty2) = safe.ended1 (ap is_stopped end1) in
        let (set', empty1) = safe.bucket_over set in
        (
          omega (
            arith,
            safe.kept,
            safe.bounded,
            safe.packets_over set',
            empty1,
            empty2,
            ap busy end1,
            ap busy end2,
          ),
          empty1,
          empty2,
        )
