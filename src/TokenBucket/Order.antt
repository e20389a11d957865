-- ===== src/TokenBucket/Order.antt =====
-- The order of the packets in Q1 and Q2 of Threading/warmup2.c.
use cs402_os.Base.{
  ℕ, Option, none, some, ◌+◌, ◌≤◌, ◌<◌, ◌≡◌, refl, ◌&&◌, List, [], ◌∷◌, ◌++◌, ltb, leb, arith, ◌∙◌,
  ap, sym, subst, Bool-cases, inl, inr,
}
use mathlib.Core.List.{append_assoc}
use cs402_os.TokenBucket.Threads.{
  Packet, State, start, leave_q1, admit, packet_made, packet_round, bucket_test, bucket_round,
  server_round, is_nil, at_test, Step, make, packet, packets_end, test, token, serve1, serve2,
  wait1, wait2, wake1, wake2, served1, served2, Reach, here, next,
}

-- The packets have identifiers above `low`, in order, and up to `high`.
abbrev pub Between : ℕ → List Packet → ℕ → Type 0
Between low [] high = low ≤ high
Between low (p ∷ rest) high = (low < p.packet_id) × Between p.packet_id rest high

Between-append :
    (low high : ℕ) (xs : List Packet) (p : Packet)
    → Between low xs high
    → high < p.packet_id
    → Between low (xs ++ p ∷ []) p.packet_id
Between-append low high [] p h lt = (omega (arith, h, lt), omega arith)
Between-append low high (q ∷ xs) p h lt = (h.0, Between-append q.packet_id high xs p h.1 lt)

Between-mono :
    (low low' high high' : ℕ) (xs : List Packet)
    → low' ≤ low
    → high ≤ high'
    → Between low xs high
    → Between low' xs high'
Between-mono low low' high high' [] le le' h = omega (arith, le, le', h)
Between-mono low low' high high' (p ∷ xs) le le' h = (
  omega (arith, le, h.0),
  Between-mono p.packet_id p.packet_id high high' xs (omega arith) le' h.1,
)

abbrev pub IsOrdered : State → Type 0
IsOrdered s = Between 0 (s.q2_list ++ s.q1_list) s.total_packet_count

-- The counters `i` and `total_packet_count`, and the packet that is between them.
abbrev Numbered : Option Packet → ℕ → ℕ → Type 0
Numbered none i total = total ≡ i
Numbered (some p) i total = (total ≡ i + 1) × (p.packet_id ≡ total)

abbrev IsTidy : State → Type 0
IsTidy s = Between 0 (s.q2_list ++ s.q1_list) s.i × Numbered s.hand s.i s.total_packet_count

admit-IsTidy : (s : State) → IsTidy s → IsTidy (admit s)
unfolding admit
admit-IsTidy s safe = go s.q1_list refl
  where
    moved : (p : Packet) (rest : List Packet) → s.q1_list ≡ p ∷ rest → IsTidy (leave_q1 p rest s)
    moved p rest e = (
      subst (λ l. Between 0 l s.i)
          (ap (λ (l : List Packet). s.q2_list ++ l) e ∙ sym (append_assoc s.q2_list (p ∷ []) rest))
          safe.0,
      safe.1,
    )

    go : (q : List Packet) → s.q1_list ≡ q → IsTidy (admit s)
    go [] e = subst (λ t. IsTidy t) {x = s} {y = admit s} (ground (arith, e)) safe
    go (p ∷ rest) e = elim (Bool-cases (leb p.required_token s.current_token_number)) [
      | inl enough ↦
          subst (λ t. IsTidy t) {x = leave_q1 p rest s} {y = admit s} (ground (arith, e, enough))
            (moved p rest e)
      | inr short ↦ subst (λ t. IsTidy t) {x = s} {y = admit s} (ground (arith, e, short)) safe
    ]

module _ (bucket_size : ℕ) (required : ℕ → ℕ) where
  made-IsTidy : (s : State) → s.hand ≡ none → IsTidy s → IsTidy (packet_made bucket_size required s)
  unfolding packet_made
  made-IsTidy s free safe =
      let same : s.total_packet_count ≡ s.i =
        subst (λ h. Numbered h s.i s.total_packet_count) free safe.1 in
      (safe.0, (omega (arith, same), refl))

  packet-IsTidy :
      (p : Packet) (s : State)
      → s.hand ≡ some p
      → IsTidy s
      → IsTidy (packet_round bucket_size required p s)
  unfolding packet_round
  packet-IsTidy p s held safe =
      let numbered : (s.total_packet_count ≡ s.i + 1) × (p.packet_id ≡ s.total_packet_count) =
        subst (λ h. Numbered h s.i s.total_packet_count) held safe.1 in
      let next_id : p.packet_id ≡ s.i + 1 = numbered.1 ∙ numbered.0 in
      elim (Bool-cases (ltb bucket_size p.required_token)) [
        | inl large ↦ rw large (
          Between-mono 0 0 s.i (s.i + 1) (s.q2_list ++ s.q1_list) (omega arith) (omega arith)
              safe.0,
          numbered.0,
        )
        | inr fitting ↦ rw fitting (
            admit-IsTidy (record s { i = s.i + 1; hand = none; q1_list = s.q1_list ++ p ∷ [] })
              (
                subst (λ l. Between 0 l (s.i + 1)) (append_assoc s.q2_list s.q1_list (p ∷ []))
                    (subst (λ n. Between 0 ((s.q2_list ++ s.q1_list) ++ p ∷ []) n) next_id
                      (Between-append 0 s.i (s.q2_list ++ s.q1_list) p safe.0
                        (omega (arith, next_id)))),
                numbered.0,
              ))
      ]

  bucket-IsTidy : (s : State) → IsTidy s → IsTidy (bucket_round bucket_size required s)
  unfolding bucket_round
  bucket-IsTidy s safe = elim (Bool-cases (leb bucket_size s.current_token_number)) [
    | inl full ↦ rw full safe
    | inr room ↦ rw room (
        admit-IsTidy
          (record s {
            total_token_count = s.total_token_count + 1;
            current_token_number = s.current_token_number + 1;
            bucket = at_test;
          })
          safe)
  ]

  test-IsTidy : (s : State) → IsTidy s → IsTidy (bucket_test s)
  unfolding bucket_test
  test-IsTidy s safe = elim (Bool-cases (s.stop_packet_thread && is_nil s.q1_list)) [
    | inl ends ↦ rw ends safe
    | inr again ↦ rw again safe
  ]

  -- What a server leaves of Q2.
  served-IsTidy : (s : State) → IsTidy s → Between 0 ((server_round s).1 ++ s.q1_list) s.i
  unfolding server_round
  served-IsTidy s safe = go s.q2_list refl
    where
      go : (q : List Packet) → s.q2_list ≡ q → Between 0 ((server_round s).1 ++ s.q1_list) s.i
      go [] e =
          subst (λ l. Between 0 (l ++ s.q1_list) s.i) {x = []} (ground (arith, e))
            (subst (λ l. Between 0 (l ++ s.q1_list) s.i) e safe.0)
      go (p ∷ rest) e =
          let safe' : Between 0 ((p ∷ rest) ++ s.q1_list) s.i =
            subst (λ l. Between 0 (l ++ s.q1_list) s.i) e safe.0 in
          subst (λ l. Between 0 (l ++ s.q1_list) s.i) {x = rest} (ground (arith, e))
            (Between-mono p.packet_id 0 s.i s.i (rest ++ s.q1_list) (omega arith) (omega arith)
              safe'.1)

  Step-IsTidy :
      (packet_count : ℕ) (s t : State)
      → Step bucket_size required packet_count s t
      → IsTidy s
      → IsTidy t
  Step-IsTidy n s t (make more free) safe = made-IsTidy s free safe
  Step-IsTidy n s t (packet p held free) safe = packet-IsTidy p s held safe
  Step-IsTidy n s t (packets_end all free going) safe = safe
  Step-IsTidy n s t (test e) safe = test-IsTidy s safe
  Step-IsTidy n s t (token e held) safe = bucket-IsTidy s safe
  Step-IsTidy n s t (serve1 e held) safe = (served-IsTidy s safe, safe.1)
  Step-IsTidy n s t (serve2 e held) safe = (served-IsTidy s safe, safe.1)
  Step-IsTidy n s t (wait1 e) safe = safe
  Step-IsTidy n s t (wait2 e) safe = safe
  Step-IsTidy n s t (wake1 e) safe = safe
  Step-IsTidy n s t (wake2 e) safe = safe
  Step-IsTidy n s t (served1 p e) safe = safe
  Step-IsTidy n s t (served2 p e) safe = safe

  reachable-IsTidy :
      (packet_count : ℕ) (s : State) → Reach bucket_size required packet_count start s → IsTidy s
  reachable-IsTidy n s here = (omega arith, refl)
  reachable-IsTidy n s (next {t = t} r step) = Step-IsTidy n t s step (reachable-IsTidy n t r)

  i-total : (s : State) → IsTidy s → s.i ≤ s.total_packet_count
  i-total s safe = go s.hand safe.1
    where
      go : (h : Option Packet) → Numbered h s.i s.total_packet_count → s.i ≤ s.total_packet_count
      go none e = omega (arith, e)
      go (some p) e = omega (arith, e.0)

  -- In every state that the threads can reach, the packets of Q2, and behind them those of Q1, stand in
  -- the order of their identifiers, which are those of packets that have arrived.
  pub reachable-IsOrdered :
      (packet_count : ℕ) (s : State) → Reach bucket_size required packet_count start s → IsOrdered s
  reachable-IsOrdered n s r =
      let safe = reachable-IsTidy n s r in
      Between-mono 0 0 s.i s.total_packet_count (s.q2_list ++ s.q1_list) (omega arith)
        (i-total s safe) safe.0
