-- ===== src/Pairing/Relay/Effects.antt =====
-- What a run of `push_pin` did, by kinds: its requests, the time that it slept, its log lines, and
-- how often it opened and closed a client.
use smart_classroom.Prelude.{
  ℕ, ◌+◌, ◌≡◌, refl, Bool, true, false, List, [], ◌∷◌, ◌++◌, arith, ap, append-nil,
}
use smart_classroom.Domain.Settings.{Settings}
use smart_classroom.Pairing.Relay.{
  PinRequest, Warning, Effect, opened, posted, warned, slept, closed, with_client,
}

unfoldable pub requests : List Effect → List PinRequest
requests [] = []
requests (opened verify timeout ∷ rest) = requests rest
requests (posted request ∷ rest) = request ∷ requests rest
requests (warned line ∷ rest) = requests rest
requests (slept t ∷ rest) = requests rest
requests (closed ∷ rest) = requests rest

unfoldable pub time_slept : List Effect → ℕ
time_slept [] = 0
time_slept (opened verify timeout ∷ rest) = time_slept rest
time_slept (posted request ∷ rest) = time_slept rest
time_slept (warned line ∷ rest) = time_slept rest
time_slept (slept t ∷ rest) = t + time_slept rest
time_slept (closed ∷ rest) = time_slept rest

unfoldable pub log_lines : List Effect → List Warning
log_lines [] = []
log_lines (opened verify timeout ∷ rest) = log_lines rest
log_lines (posted request ∷ rest) = log_lines rest
log_lines (warned line ∷ rest) = line ∷ log_lines rest
log_lines (slept t ∷ rest) = log_lines rest
log_lines (closed ∷ rest) = log_lines rest

pub requests-append : (a b : List Effect) → requests (a ++ b) ≡ requests a ++ requests b
unfolding requests
requests-append [] b = refl
requests-append (opened verify timeout ∷ a) b = requests-append a b
requests-append (posted request ∷ a) b = ap (λ l. request ∷ l) (requests-append a b)
requests-append (warned line ∷ a) b = requests-append a b
requests-append (slept t ∷ a) b = requests-append a b
requests-append (closed ∷ a) b = requests-append a b

pub time_slept-append : (a b : List Effect) → time_slept (a ++ b) ≡ time_slept a + time_slept b
unfolding time_slept
time_slept-append [] b = omega arith
time_slept-append (opened verify timeout ∷ a) b = time_slept-append a b
time_slept-append (posted request ∷ a) b = time_slept-append a b
time_slept-append (warned line ∷ a) b = time_slept-append a b
time_slept-append (slept t ∷ a) b = omega (arith, time_slept-append a b)
time_slept-append (closed ∷ a) b = time_slept-append a b

pub log_lines-append : (a b : List Effect) → log_lines (a ++ b) ≡ log_lines a ++ log_lines b
unfolding log_lines
log_lines-append [] b = refl
log_lines-append (opened verify timeout ∷ a) b = log_lines-append a b
log_lines-append (posted request ∷ a) b = log_lines-append a b
log_lines-append (warned line ∷ a) b = ap (λ l. line ∷ l) (log_lines-append a b)
log_lines-append (slept t ∷ a) b = log_lines-append a b
log_lines-append (closed ∷ a) b = log_lines-append a b

-- The client that is opened and closed around it changes none of the three.
module _ (settings : Settings) (effects : List Effect) where
  pub requests-with_client :
      (b : Bool) → requests (with_client b settings effects) ≡ requests effects
  unfolding with_client requests
  requests-with_client true = refl
  requests-with_client false =
      rw (requests-append effects (closed ∷ [])) (append-nil (requests effects))

  pub time_slept-with_client :
      (b : Bool) → time_slept (with_client b settings effects) ≡ time_slept effects
  unfolding with_client time_slept
  time_slept-with_client true = refl
  time_slept-with_client false = omega (arith, time_slept-append effects (closed ∷ []))

  pub log_lines-with_client :
      (b : Bool) → log_lines (with_client b settings effects) ≡ log_lines effects
  unfolding with_client log_lines
  log_lines-with_client true = refl
  log_lines-with_client false =
      rw (log_lines-append effects (closed ∷ [])) (append-nil (log_lines effects))
