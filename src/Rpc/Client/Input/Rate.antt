-- ===== src/Rpc/Client/Input/Rate.antt =====
-- The token bucket of `takeRateToken`: how many frames a browser can get through in a time.
use bored_manager.Base.{ℕ, suc, ◌+◌, ◌*◌, ◌-◌, ◌≤◌, ◌≡◌, List, [], ◌∷◌, arith, ap, if◌then◌else◌}
use bored_manager.Rpc.Client.{Limits, ClientState}
use bored_manager.Rpc.Client.Input.{take_rate_token}

-- The frames that arrive at the given times, and how many of them find a token.
pub arrivals : Limits → List ℕ → ClientState → ClientState × ℕ
arrivals limits [] c = (c, 0)
arrivals limits (now ∷ times) c =
    let (d, passed) = take_rate_token limits now c in
    let (last, n) = arrivals limits times d in (last, if passed then suc n else n)

-- The times are in order, from a start on and up to an end.
abbrev pub InOrder : ℕ → List ℕ → ℕ → Type 0
InOrder start [] end = start ≤ end
InOrder start (t ∷ ts) end = (start ≤ t) × InOrder t ts end

take_rate_token_lem :
    (limits : Limits) (now : ℕ) (c : ClientState)
    → let r = take_rate_token limits now c in
      (r.0.last_refill ≡ now)
      × (r.0.tokens + (if r.1 then 1000 else 0) ≤ limits.rate_burst * 1000)
      × (r.0.tokens + (if r.1 then 1000 else 0)
          ≤ c.tokens + (now - c.last_refill) * limits.rate_per_second)
unfolding take_rate_token
take_rate_token_lem limits now c = ground arith

InOrder-le : (start end : ℕ) (ts : List ℕ) → InOrder start ts end → start ≤ end
InOrder-le start end [] h = h
InOrder-le start end (t ∷ ts) h = omega (arith, InOrder-le t end ts h.1)

refill_add : (a b c r : ℕ) → a ≤ b → b ≤ c → (b - a) * r + (c - b) * r ≡ (c - a) * r
refill_add a b c r h k = omega (arith, ap (λ (t : ℕ). t * r) joined)
  where
    joined : b - a + (c - b) ≡ c - a
    joined = omega arith

arrivals_spent :
    (limits : Limits) (times : List ℕ) (c : ClientState) (end : ℕ)
    → InOrder c.last_refill times end
    → (arrivals limits times c).1 * 1000 ≤ c.tokens + (end - c.last_refill) * limits.rate_per_second
unfolding arrivals
arrivals_spent limits [] c end h = omega arith
arrivals_spent limits (t ∷ ts) c end h =
    let (same, full, spent) = take_rate_token_lem limits t c in
    let ih = arrivals_spent limits ts (take_rate_token limits t c).0 end (rw same h.1) in
    let span =
      refill_add c.last_refill t end limits.rate_per_second h.0 (InOrder-le t end ts h.1) in
    ground (arith, rw same at ih, spent, span)

-- The rate limit, from any moment of a connection on and whatever came before it: of the frames
-- that arrive between two times, at most `rate_burst + rate_per_second * seconds` find a token.
pub arrivals_limited :
    (limits : Limits) (c : ClientState) (start : ℕ) (times : List ℕ) (end : ℕ)
    → InOrder start times end
    → (arrivals limits times c).1 * 1000
      ≤ limits.rate_burst * 1000 + (end - start) * limits.rate_per_second
unfolding arrivals
arrivals_limited limits c start [] end h = omega arith
arrivals_limited limits c start (t ∷ ts) end h =
    let (same, full, spent) = take_rate_token_lem limits t c in
    let ih = arrivals_spent limits ts (take_rate_token limits t c).0 end (rw same h.1) in
    let span = refill_add start t end limits.rate_per_second h.0 (InOrder-le t end ts h.1) in
    ground (arith, rw same at ih, full, span)
