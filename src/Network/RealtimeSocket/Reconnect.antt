-- ===== src/Network/RealtimeSocket/Reconnect.antt =====
-- src/network/RealtimeSocket.cpp: the timer of the reconnection.
use vox_desktop.Base.{
  ℕ, zero, suc, ◌+◌, ◌*◌, ◌≤◌, ◌<◌, ◌≡◌, refl, sym, ◌∙◌, ap, subst, ◌⊎◌, inl, inr, min, String,
  Bool, true, none, some, List, [], ◌∷◌, length, replicate, ltb, Bool-cases, arith,
}
use vox_desktop.Base.Int.{pos, suc_int, int_limit, of_u32, to_u32}
use vox_desktop.Qt.{Qt}
use vox_desktop.Network.RealtimeSocket.{
  RealtimeSocket, Event, connect_and_authenticate, close, connected, disconnected, text_message,
  socket_failed, timeout, Action, open_socket, close_socket, new_socket, reconnect_delay_ms,
  schedule_reconnect, on_connect_and_authenticate, step, run,
}

-- The delays before the attempts 1, 2, … as they are meant: twice as long each time, up to 16 s.
pub backoff_ms : ℕ → ℕ
backoff_ms zero = 250
backoff_ms (suc n) = min (2 * backoff_ms n) 16000

capped_delay : (n : ℕ) → reconnect_delay_ms (pos (suc (suc (suc (suc (suc (suc n))))))) ≡ pos 16000
unfolding reconnect_delay_ms of_u32 to_u32
capped_delay n = elim (Bool-cases (ltb 6 (suc (suc (suc (suc (suc (suc n)))))))) [
  | inl over ↦ rw over refl
  | inr under ↦ let last : n ≡ 0 = ground arith in rw last refl
]

backoff_ms-capped : (n : ℕ) → backoff_ms (suc (suc (suc (suc (suc (suc n)))))) ≡ 16000
unfolding backoff_ms
backoff_ms-capped zero = refl
backoff_ms-capped (suc n) = let ih = backoff_ms-capped n in omega (arith, ih)

reconnect_delay_ms-backoff : (n : ℕ) → reconnect_delay_ms (pos n) ≡ pos (backoff_ms n)
unfolding reconnect_delay_ms of_u32 to_u32 backoff_ms
reconnect_delay_ms-backoff zero = refl
reconnect_delay_ms-backoff (suc zero) = refl
reconnect_delay_ms-backoff (suc (suc zero)) = refl
reconnect_delay_ms-backoff (suc (suc (suc zero))) = refl
reconnect_delay_ms-backoff (suc (suc (suc (suc zero)))) = refl
reconnect_delay_ms-backoff (suc (suc (suc (suc (suc zero))))) = refl
reconnect_delay_ms-backoff (suc (suc (suc (suc (suc (suc n)))))) =
    capped_delay n ∙ ap pos (sym (backoff_ms-capped n))

backoff_ms-bounds : (n : ℕ) → (500 ≤ backoff_ms (suc n)) × (backoff_ms n ≤ 16000)
unfolding backoff_ms
backoff_ms-bounds zero = (omega arith, omega arith)
backoff_ms-bounds (suc n) = let (lower, upper) = backoff_ms-bounds n in (omega arith, omega arith)

-- What holds of a socket after at most some number of events: its counter has not passed that
-- number, and the timer is stopped or runs with the delay of the counter's value.
pub record IsBackedOff (events : ℕ) (s : RealtimeSocket) : Type 0 where
  pub attempt : ℕ
  pub is_attempt : s.reconnect_attempt ≡ pos attempt
  pub attempt_bound : attempt ≤ events
  pub delay :
      (s.reconnect_timer ≡ none)
      ⊎ ((d : ℕ) × (s.reconnect_timer ≡ some (pos d)) × (500 ≤ d) × (d ≤ 16000))

-- A step that leaves the counter and leaves or stops the timer.
keeps :
    (n : ℕ) (s s' : RealtimeSocket)
    → s'.reconnect_attempt ≡ s.reconnect_attempt
    → (s'.reconnect_timer ≡ s.reconnect_timer) ⊎ (s'.reconnect_timer ≡ none)
    → IsBackedOff n s
    → IsBackedOff (suc n) s'
keeps n s s' same timer b = record {
  attempt = b.attempt;
  is_attempt = same ∙ b.is_attempt;
  attempt_bound = omega (arith, b.attempt_bound);
  delay = elim timer [ inl kept ↦ rw kept b.delay | inr stopped ↦ inl stopped ];
}

schedule_reconnect-IsBackedOff :
    (n : ℕ) (s : RealtimeSocket)
    → suc n < int_limit
    → IsBackedOff n s
    → IsBackedOff (suc n) (schedule_reconnect s)
unfolding schedule_reconnect
schedule_reconnect-IsBackedOff n s h b =
    let next : suc_int s.reconnect_attempt ≡ pos (suc b.attempt) =
      rw b.is_attempt (ground (arith, b.attempt_bound)) in
    record {
      attempt = suc b.attempt;
      is_attempt = next;
      attempt_bound = omega (arith, b.attempt_bound);
      delay = inr (
        backoff_ms (suc b.attempt),
        rw (next, reconnect_delay_ms-backoff (suc b.attempt)) refl,
        (backoff_ms-bounds b.attempt).0,
        (backoff_ms-bounds (suc b.attempt)).1,
      );
    }

-- A connection that is lost, and each attempt to open it again too.
abbrev pub lost : ℕ → List Event
lost zero = []
lost (suc n) = disconnected ∷ timeout ∷ lost n

module _ (qt : Qt) (is_valid : String → Bool) where
  step-IsBackedOff :
      (n : ℕ) (s : RealtimeSocket) (e : Event)
      → suc n < int_limit
      → IsBackedOff n s
      → IsBackedOff (suc n) (step qt is_valid s e).0
  unfolding step on_connect_and_authenticate
  step-IsBackedOff n s (connect_and_authenticate url token) h b = keeps n s _ refl (inl refl) b
  step-IsBackedOff n s close h b = keeps n s _ refl (inr refl) b
  step-IsBackedOff n s connected h b = record {
    attempt = 0;
    is_attempt = refl;
    attempt_bound = omega arith;
    delay = b.delay;
  }
  step-IsBackedOff n s disconnected h b = schedule_reconnect-IsBackedOff n s h b
  step-IsBackedOff n s (text_message message) h b = keeps n s _ refl (inl refl) b
  step-IsBackedOff n s (socket_failed error) h b = keeps n s _ refl (inl refl) b
  step-IsBackedOff n s timeout h b = elim (Bool-cases (is_valid s.url)) [
    | inl valid ↦ rw valid (keeps n s _ refl (inr refl) b)
    | inr invalid ↦ rw invalid (keeps n s _ refl (inr refl) b)
  ]

  run-IsBackedOff :
      (n : ℕ) (s : RealtimeSocket) (es : List Event)
      → n + length es < int_limit
      → IsBackedOff n s
      → IsBackedOff (n + length es) (run qt is_valid s es).0
  unfolding run
  run-IsBackedOff n s [] h b = subst (λ (k : ℕ). IsBackedOff k s) (omega arith) b
  run-IsBackedOff n s (e ∷ es) h b =
      let b' = step-IsBackedOff n s e (omega arith) b in
      subst (λ (k : ℕ). IsBackedOff k (run qt is_valid (step qt is_valid s e).0 es).0) (omega arith)
        (run-IsBackedOff (suc n) (step qt is_valid s e).0 es (omega arith) b')

  -- After any events, fewer than 2^31 of them, on a new socket: the counter of attempts is not
  -- negative and at most the number of events, and the timer of the reconnection is stopped or runs
  -- for half a second at least and 16 seconds at most.
  pub run-new-IsBackedOff :
      (es : List Event)
      → length es < int_limit
      → IsBackedOff (length es) (run qt is_valid new_socket es).0
  unfolding new_socket
  run-new-IsBackedOff es h =
      subst (λ (k : ℕ). IsBackedOff k (run qt is_valid new_socket es).0) (omega arith)
        (run-IsBackedOff 0 new_socket es (omega arith) (record {
          attempt = 0;
          is_attempt = refl;
          attempt_bound = omega arith;
          delay = inl refl;
        }))

  -- The socket after one loss, and one attempt that is under way.
  abbrev retrying : RealtimeSocket → ℕ → RealtimeSocket
  retrying s a = record s { reconnect_attempt = pos (suc a); reconnect_timer = none }

  run-lost_round :
      (a : ℕ) (s : RealtimeSocket) (es : List Event)
      → s.reconnect_attempt ≡ pos a
      → suc a < int_limit
      → is_valid s.url ≡ true
      → run qt is_valid s (disconnected ∷ timeout ∷ es) ≡ (
        (run qt is_valid (retrying s a) es).0,
        open_socket s.url s.access_token ∷ (run qt is_valid (retrying s a) es).1,
      )
  unfolding run step schedule_reconnect on_connect_and_authenticate
  run-lost_round a s es is h valid =
      let next : suc_int s.reconnect_attempt ≡ pos (suc a) = rw is (ground arith) in
      rw (valid, next) refl

  -- While one attempt fails after the other, fewer than 2^31 in all, the socket does not give up: if
  -- its URL is valid, it opens the connection again after each failure, with the URL and the token
  -- that it was given last, and the delay before the next attempt is the backoff of its number.
  pub run-lost :
      (n a : ℕ) (s : RealtimeSocket)
      → s.reconnect_attempt ≡ pos a
      → suc (a + n) < int_limit
      → is_valid s.url ≡ true
      → ((run qt is_valid s (lost n)).1 ≡ replicate n (open_socket s.url s.access_token))
        × ((schedule_reconnect (run qt is_valid s (lost n)).0).reconnect_timer
            ≡ some (pos (backoff_ms (suc (a + n)))))
  unfolding run schedule_reconnect
  run-lost zero a s is h valid =
      let next : suc_int s.reconnect_attempt ≡ pos (suc (a + 0)) = rw is (ground arith) in
      (refl, rw (next, reconnect_delay_ms-backoff (suc (a + 0))) refl)
  run-lost (suc n) a s is h valid =
      let (opened, timer) = run-lost n (suc a) (retrying s a) refl (omega arith) valid in
      let number : suc (suc a + n) ≡ suc (a + suc n) = omega arith in
      let round = run-lost_round a s (lost n) is (omega arith) valid in
      (
        ap (λ (p : RealtimeSocket × List Action). p.1) round
            ∙ ap (λ (acts : List Action). open_socket s.url s.access_token ∷ acts) opened,
        ap (λ (p : RealtimeSocket × List Action). (schedule_reconnect p.0).reconnect_timer) round
            ∙ timer
            ∙ ap (λ (k : ℕ). some (pos (backoff_ms k))) number,
      )

  -- A socket with a valid URL that its owner closed opens its connection again: once the connection
  -- has ended and the timer has run out.
  run-closed :
      (s : RealtimeSocket)
      → is_valid s.url ≡ true
      → (run qt is_valid s (close ∷ disconnected ∷ timeout ∷ [])).1
        ≡ close_socket ∷ open_socket s.url s.access_token ∷ []
  unfolding run step schedule_reconnect on_connect_and_authenticate
  run-closed s valid = rw valid refl
