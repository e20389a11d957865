-- ===== src/TokenBucket/Waits.antt =====
-- What the packets in Q1 of Threading/warmup2.c wait for.
use cs402_os.Base.{
  ℕ, Option, none, some, ◌+◌, ◌-◌, ◌≤◌, ◌<◌, ◌≡◌, refl, ◌&&◌, List, [], ◌∷◌, ◌++◌, ltb, leb, All,
  All-append, arith, sym, subst, Bool-cases, inl, inr,
}
use cs402_os.TokenBucket.Threads.{
  Packet, State, start, leave_q1, admit, packet_made, packet_round, bucket_test, bucket_round,
  is_nil, at_test, Step, make, packet, packets_end, test, token, serve1, serve2, wait1, wait2,
  wake1, wake2, served1, served2, Reach, here, next,
}

abbrev IsPositive : Packet → Type 0
IsPositive p = 0 < p.required_token

-- The first packet, if there is one, requires more than `tokens`.
abbrev pub Short : List Packet → ℕ → Type 0
Short [] tokens = Unit
Short (p ∷ rest) tokens = tokens < p.required_token

-- The same, or it requires as many, or no other is behind it.
abbrev Near : List Packet → ℕ → Type 0
Near [] tokens = Unit
Near (p ∷ []) tokens = Unit
Near (p ∷ q ∷ rest) tokens = tokens ≤ p.required_token

abbrev InHand : Option Packet → Type 0
InHand none = Unit
InHand (some p) = IsPositive p

abbrev IsWaiting : State → Type 0
IsWaiting s = Short s.q1_list s.current_token_number × All IsPositive s.q1_list × InHand s.hand

-- Where the first packet goes, those behind it are short of tokens.
left-Short :
    (p : Packet) (rest : List Packet) (tokens : ℕ)
    → Near (p ∷ rest) tokens
    → All IsPositive rest
    → p.required_token ≤ tokens
    → Short rest (tokens - p.required_token)
left-Short p [] tokens near large enough = tt
left-Short p (q ∷ rest) tokens near large enough = omega (arith, near, large.0, enough)

admit-IsWaiting :
    (s : State)
    → Near s.q1_list s.current_token_number
    → All IsPositive s.q1_list
    → InHand s.hand
    → IsWaiting (admit s)
unfolding admit
admit-IsWaiting s near large held = go s.q1_list refl
  where
    go : (q : List Packet) → s.q1_list ≡ q → IsWaiting (admit s)
    go [] e =
        subst (λ t. IsWaiting t) {x = s} {y = admit s} (ground (arith, e))
          (subst (λ l. Short l s.current_token_number) (sym e) tt, large, held)
    go (p ∷ rest) e =
        let large' : All IsPositive (p ∷ rest) = subst (λ l. All IsPositive l) e large in
        let near' : Near (p ∷ rest) s.current_token_number =
          subst (λ l. Near l s.current_token_number) e near in
        elim (Bool-cases (leb p.required_token s.current_token_number)) [
          | inl enough ↦
              subst (λ t. IsWaiting t) {x = leave_q1 p rest s} {y = admit s}
                (ground (arith, e, enough))
                (
                  left-Short p rest s.current_token_number near' large'.1 (ground (arith, enough)),
                  large'.1,
                  held,
                )
          | inr short ↦
              subst (λ t. IsWaiting t) {x = s} {y = admit s} (ground (arith, e, short))
                (
                  subst (λ l. Short l s.current_token_number) (sym e) (ground (arith, short)),
                  large,
                  held,
                )
        ]

Near-arrival :
    (q : List Packet) (p : Packet) (tokens : ℕ) → Short q tokens → Near (q ++ p ∷ []) tokens
Near-arrival [] p tokens h = tt
Near-arrival (a ∷ []) p tokens h = omega (arith, h)
Near-arrival (a ∷ b ∷ q) p tokens h = omega (arith, h)

Near-token : (q : List Packet) (tokens : ℕ) → Short q tokens → Near q (tokens + 1)
Near-token [] tokens h = tt
Near-token (a ∷ []) tokens h = tt
Near-token (a ∷ b ∷ q) tokens h = omega (arith, h)

module _ (bucket_size : ℕ) (required : ℕ → ℕ) (positive : (id : ℕ) → 0 < required id) where
  made-IsWaiting : (s : State) → IsWaiting s → IsWaiting (packet_made bucket_size required s)
  unfolding packet_made
  made-IsWaiting s waits = (waits.0, waits.1, positive (s.total_packet_count + 1))

  packet-IsWaiting :
      (p : Packet) (s : State)
      → s.hand ≡ some p
      → IsWaiting s
      → IsWaiting (packet_round bucket_size required p s)
  unfolding packet_round
  packet-IsWaiting p s held waits =
      let large_p : IsPositive p = subst (λ h. InHand h) held waits.2 in
      elim (Bool-cases (ltb bucket_size p.required_token)) [
        | inl large ↦ rw large (waits.0, waits.1, tt)
        | inr fitting ↦ rw fitting (
            admit-IsWaiting (record s { i = s.i + 1; hand = none; q1_list = s.q1_list ++ p ∷ [] })
              (Near-arrival s.q1_list p s.current_token_number waits.0)
              (All-append IsPositive s.q1_list (p ∷ []) waits.1 (large_p, tt)) tt)
      ]

  bucket-IsWaiting : (s : State) → IsWaiting s → IsWaiting (bucket_round bucket_size required s)
  unfolding bucket_round
  bucket-IsWaiting s waits = elim (Bool-cases (leb bucket_size s.current_token_number)) [
    | inl full ↦ rw full waits
    | inr room ↦ rw room (
        admit-IsWaiting
          (record s {
            total_token_count = s.total_token_count + 1;
            current_token_number = s.current_token_number + 1;
            bucket = at_test;
          })
          (Near-token s.q1_list s.current_token_number waits.0) waits.1 waits.2)
  ]

  test-IsWaiting : (s : State) → IsWaiting s → IsWaiting (bucket_test s)
  unfolding bucket_test
  test-IsWaiting s waits = elim (Bool-cases (s.stop_packet_thread && is_nil s.q1_list)) [
    | inl ends ↦ rw ends waits
    | inr again ↦ rw again waits
  ]

  Step-IsWaiting :
      (packet_count : ℕ) (s t : State)
      → Step bucket_size required packet_count s t
      → IsWaiting s
      → IsWaiting t
  Step-IsWaiting n s t (make more free) waits = made-IsWaiting s waits
  Step-IsWaiting n s t (packet p held free) waits = packet-IsWaiting p s held waits
  Step-IsWaiting n s t (packets_end all free going) waits = waits
  Step-IsWaiting n s t (test e) waits = test-IsWaiting s waits
  Step-IsWaiting n s t (token e held) waits = bucket-IsWaiting s waits
  Step-IsWaiting n s t (serve1 e held) waits = waits
  Step-IsWaiting n s t (serve2 e held) waits = waits
  Step-IsWaiting n s t (wait1 e) waits = waits
  Step-IsWaiting n s t (wait2 e) waits = waits
  Step-IsWaiting n s t (wake1 e) waits = waits
  Step-IsWaiting n s t (wake2 e) waits = waits
  Step-IsWaiting n s t (served1 p e) waits = waits
  Step-IsWaiting n s t (served2 p e) waits = waits

  reachable-IsWaiting :
      (packet_count : ℕ) (s : State) → Reach bucket_size required packet_count start s → IsWaiting s
  reachable-IsWaiting n s here = (tt, tt, tt)
  reachable-IsWaiting n s (next {t = t} r step) =
      Step-IsWaiting n t s step (reachable-IsWaiting n t r)

  -- Where every packet requires a token at least, the first packet of Q1 requires more tokens than
  -- there are, in every state that the threads can reach.
  pub reachable-Short :
      (packet_count : ℕ) (s : State)
      → Reach bucket_size required packet_count start s
      → Short s.q1_list s.current_token_number
  reachable-Short n s r = (reachable-IsWaiting n s r).0
