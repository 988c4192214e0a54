-- ===== src/Drive/Backoff/Delays.antt =====
-- What the listener sleeps: bounds on every delay, and the exact delay after a run of failures.
use cloudreve_desktop.Prelude.{
  ℕ, zero, suc, ◌*◌, ◌^◌, ◌≤◌, min, ◌≡◌, refl, true, false, List, [], ◌∷◌, ◌++◌, arith, All, ap,
  ◌∙◌, dec_le, pow-suc, replicate, mul_comm,
}
use cloudreve_desktop.Drive.Backoff.{
  initial_backoff_secs, max_backoff_secs, BackoffState, new, reset, next_delay, ListenResult, error,
  reconnect_required, stream_ended, process_remote_events,
}

-- The current delay lies between the initial and the largest delay.
pub record InBounds (s : BackoffState) : Type 0 where
  pub at_least : initial_backoff_secs ≤ s.current_delay
  pub at_most : s.current_delay ≤ max_backoff_secs

abbrev pub Bounded : ℕ → Type 0
Bounded d = (initial_backoff_secs ≤ d) × (d ≤ max_backoff_secs)

new-InBounds : InBounds new
unfolding new
new-InBounds = omega arith

reset-InBounds : (s : BackoffState) → InBounds (reset s)
unfolding reset
reset-InBounds s = omega arith

next_delay-InBounds :
    (s : BackoffState) → InBounds s → Bounded (next_delay s).0 × InBounds (next_delay s).1
unfolding next_delay
next_delay-InBounds s h = (omega arith, omega arith)

-- From a state within bounds, whatever the results, every sleep is between 1 and 32 seconds and
-- the state ends within bounds.
pub delays-Bounded :
    (s : BackoffState) (results : List ListenResult)
    → InBounds s
    → All Bounded (process_remote_events s results).0 × InBounds (process_remote_events s results).1
unfolding process_remote_events
delays-Bounded s [] h = (tt, h)
delays-Bounded s (error true ∷ rest) h =
    let (b, h') = next_delay-InBounds (reset s) (reset-InBounds s) in
    let (bs, t) = delays-Bounded _ rest h' in ((b, bs), t)
delays-Bounded s (error false ∷ rest) h =
    let (b, h') = next_delay-InBounds s h in let (bs, t) = delays-Bounded _ rest h' in ((b, bs), t)
delays-Bounded s (reconnect_required ∷ rest) h = delays-Bounded (reset s) rest (reset-InBounds s)
delays-Bounded s (stream_ended ∷ rest) h = delays-Bounded (reset s) rest (reset-InBounds s)

-- Doubling under the cap commutes with multiplying by a positive number.
cap_doubles : (p d : ℕ) → 1 ≤ p → d ≤ 32 → min (min (d * 2) 32 * p) 32 ≡ min (d * (p * 2)) 32
cap_doubles p d one h = elim (dec_le (d * 2) 32) [
  | yes small ↦ omega (arith, ap (λ (t : ℕ). t * p) (fits small))
  | no big ↦ grind arith
]
  where
    fits : d * 2 ≤ 32 → min (d * 2) 32 ≡ d * 2
    fits h = omega arith

pow_pos : (n : ℕ) → 1 ≤ 2 ^ n
pow_pos zero = omega arith
pow_pos (suc n) = rw pow-suc (omega (arith, pow_pos n))

current_delay-failures :
    (n : ℕ) (s : BackoffState)
    → s.current_delay ≤ 32
    → (process_remote_events s (replicate n (error false))).1.current_delay
      ≡ min (s.current_delay * 2 ^ n) 32
unfolding process_remote_events
current_delay-failures zero s h = omega arith
current_delay-failures (suc n) s h =
    current_delay-failures n (next_delay s).1 (unfold next_delay in omega arith)
    ∙ rw pow-suc (cap_doubles (2 ^ n) s.current_delay (pow_pos n) h)

process_remote_events-append :
    (before after : List ListenResult) (s : BackoffState)
    → (process_remote_events s (before ++ after)).1
      ≡ (process_remote_events (process_remote_events s before).1 after).1
unfolding process_remote_events
process_remote_events-append [] after s = refl
process_remote_events-append (error true ∷ rest) after s =
    process_remote_events-append rest after (next_delay (reset s)).1
process_remote_events-append (error false ∷ rest) after s =
    process_remote_events-append rest after (next_delay s).1
process_remote_events-append (reconnect_required ∷ rest) after s =
    process_remote_events-append rest after (reset s)
process_remote_events-append (stream_ended ∷ rest) after s =
    process_remote_events-append rest after (reset s)

delay_then :
    (n : ℕ) (s : BackoffState)
    → (next_delay (process_remote_events s (error true ∷ replicate n (error false))).1).0
      ≡ min (2 ^ n * 2) 32
unfolding process_remote_events reset next_delay
delay_then n s =
    current_delay-failures n (next_delay (reset s)).1 (omega arith)
    ∙ ap (λ t. min t 32) (mul_comm 2 (2 ^ n))

-- Whatever came before, after an error on a connection that had been healthy and `n` further
-- failures, the next failure is waited out for min(2^(n+1), 32) seconds.
pub delay-after_connected :
    (s : BackoffState) (before : List ListenResult) (n : ℕ)
    → (next_delay (process_remote_events s (before ++ error true ∷ replicate n (error false))).1).0
      ≡ min (2 ^ suc n) 32
delay-after_connected s before n =
    rw (process_remote_events-append before (error true ∷ replicate n (error false)) s)
      (rw pow-suc (delay_then n (process_remote_events s before).1))
