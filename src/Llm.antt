-- ===== src/Llm.antt =====
-- internal/llm/client.go: the retry loop of `Complete`, and `looksLikeTailnet`. HTTP and JSON are given: what comes of
-- each attempt, and whether the context ends during the wait after it. Times are in seconds.
pub mod Retries
mod Tests
use Prim.Native.Nat.{bit_and}
use populace.Prelude.{
  ℕ, zero, suc, ◌+◌, ◌*◌, ◌≡◌, Bool, true, false, not, ◌&&◌, Option, none, some, List, [], ◌∷◌,
  ◌++◌, ltb, leb, ◌==◌, if◌then◌else◌,
}
use populace.Prelude.Int.{ℤ, pos}

-- What comes of one attempt: the request cannot be made, the gateway is not reached, its answer cannot be read, or it
-- answers with a status, the number of `Retry-After` if there is one that `Atoi` reads, and a body, which is a
-- response if it parses.
pub data Attempt (Response : Type 0) : Type 0 where
  no_request : Attempt Response
  unreachable : Attempt Response
  unreadable : Attempt Response
  answered : ℕ → Option ℤ → Option Response → Attempt Response

pub data Result (Response : Type 0) : Type 0 where
  response : Response → Result Response
  saturated : Result Response
  cancelled : Result Response
  bad_request : Result Response
  not_reached : Result Response
  not_read : Result Response
  bad_json : Result Response
  bad_status : ℕ → Result Response

-- `wait`, with the back-off for an answer that names no time.
unfoldable pub wait_for : ℕ → Option ℤ → ℤ
wait_for backoff none = pos backoff
wait_for backoff (some s) = s

unfoldable pub next_backoff : ℕ → ℕ
next_backoff backoff = if ltb backoff 30 then backoff * 2 else backoff

module _ {Response : Type 0} where
  unfoldable pub parsed : Option Response → Result Response
  parsed none = bad_json
  parsed (some out) = response out

  -- What an attempt decides; `none` for a 503, with which the loop goes on.
  unfoldable pub decision : Attempt Response → Option (Result Response)
  unfolding parsed
  decision no_request = some bad_request
  decision unreachable = some not_reached
  decision unreadable = some not_read
  decision (answered status retry body) =
      if status == 200
      then some (parsed body)
      else if status == 503
      then none
      else some (bad_status status)

  -- The `Retry-After` of an attempt.
  unfoldable pub retry_after : Attempt Response → Option ℤ
  retry_after (answered status retry body) = retry
  retry_after _ = none

  -- The end of an attempt: with its decision, if there is one, or as given.
  unfoldable pub ended :
      Option (Result Response)
      → List ℤ
      → Option (Result Response × List ℤ)
      → Option (Result Response × List ℤ)
  ended (some r) waits next = some (r, waits)
  ended none waits next = next

  -- The loop of `Complete` from an attempt on: the result, with the waits before it, or `none` when the fuel is spent.
  unfoldable pub complete_from :
      ℕ
      → ℕ
      → (ℕ → Attempt Response)
      → (ℕ → Bool)
      → ℕ
      → ℕ
      → List ℤ
      → Option (Result Response × List ℤ)
  unfolding ended
  complete_from zero max_retries tries ends attempt backoff waits = none
  complete_from (suc fuel) max_retries tries ends attempt backoff waits =
      let waits' = waits ++ wait_for backoff (retry_after (tries attempt)) ∷ [] in
      let rest =
        complete_from fuel max_retries tries ends (attempt + 1) (next_backoff backoff) waits' in
      let next = if ends attempt then some (cancelled, waits') else rest in
      ended (decision (tries attempt)) waits
        (if leb max_retries attempt then some (saturated, waits) else next)

  -- `Complete`.
  unfoldable pub complete :
      ℕ → (ℕ → Attempt Response) → (ℕ → Bool) → Option (Result Response × List ℤ)
  unfolding complete_from decision wait_for next_backoff retry_after
  complete max_retries tries ends = complete_from (max_retries + 1) max_retries tries ends 0 1 []

-- A host as `ParseIP` and `Hostname` give it: an address of 4 bytes, another address, or a name with what the test
-- asks of it: whether it is empty, "localhost", or has a dot.
pub data Host : Type 0 where
  ip4 : ℕ → ℕ → ℕ → ℕ → Host
  ip6 : Host
  name : Bool → Bool → Bool → Host

-- `looksLikeTailnet`, of a host that parses.
unfoldable pub looks_like_tailnet : Host → Bool
looks_like_tailnet (ip4 a b c d) = a == 100 && bit_and b 0xC0 == 64
looks_like_tailnet ip6 = false
looks_like_tailnet (name is_empty is_localhost has_dot) =
    not is_empty && (not is_localhost && not has_dot)
