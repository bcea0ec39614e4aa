-- ===== src/Gateway/Handler.antt =====
-- internal/gateway/gateway.go: `auth` and `handleCompletions`. Between its arrival, its admission and
-- the upstream's answer other requests run, so the handler is cut there into `begin` and the three
-- ways on: `refuse`, `fail_build` and `finish`. JSON and HTTP are not under this repository: what
-- the request and the upstream's answer hold is given, and a reply is what the handler writes.
pub mod Accounts
pub mod Replay
use Prim.Native.String.{String}
use populace.Prelude.{
  ℕ, ◌+◌, ◌≡◌, Option, none, some, Bool, true, false, ◌&&◌, List, [], ◌∷◌, ite, if◌then◌else◌, ◌==◌,
}
use populace.Prelude.Int.{ℤ}
use populace.Gateway.Config.{Lane, interactive, batch}
use populace.Gateway.Admission.{Refusal, busy, gone}
use populace.Gateway.Cache
use populace.Gateway.Cache.{Cache}
use populace.Gateway.Limiter.{Limiter, allow}

pub data Message : Type 0 where
  post_only unreadable went_away unbuildable unreachable bad_token : Message
  saturated : ℕ → ℕ → Lane → Message
  rate_limited : String → ℤ → Message

-- What stands in the reply's body.
pub data Body : Type 0 where
  error_json : Message → Body
  bytes : List ℕ → Body
  -- the upstream's events, piped through
  stream : Body
  -- the upstream's body broke off after the header was written
  broken : Body

-- A reply, with the headers that the handler sets.
pub record Reply : Type 0 where
  pub status : ℕ
  pub body : Body
  pub retry_after : Option ℕ
  -- `X-Populace-Cache`: a hit or a miss
  pub cache_hit : Option Bool
  pub lane : Option Lane

abbrev pub http_err : ℕ → Message → Reply
http_err code msg = record {
  status = code;
  body = error_json msg;
  retry_after = none;
  cache_hit = none;
  lane = none;
}

-- A request as the handler reads it; `body` is `none` where reading it fails, and `streaming` is what
-- `isStreaming` finds in the body.
pub record Request : Type 0 where
  pub is_post : Bool
  pub body : Option (List ℕ)
  pub wants_interactive : Bool
  pub streaming : Bool

abbrev pub lane_of : Request → Lane
lane_of r = if r.wants_interactive then interactive else batch

-- What the handler changes of `Gateway` besides admission. `marks` holds the token counts that `mark`
-- is called with, newest first.
pub record Server (K : Type 0) : Type 0 where
  pub cache : Cache K
  pub served : ℕ
  pub shed : ℕ
  pub errs : ℕ
  pub marks : List ℕ

-- The upstream's answer: its status, the bytes of its body if they can all be read, and the tokens
-- that `completionTokens` finds in them.
pub record Answer : Type 0 where
  pub status : ℕ
  pub out : Option (List ℕ)
  pub tokens : ℕ

-- The request that goes on to admission.
pub record Pending : Type 0 where
  pub body : List ℕ
  pub lane : Lane
  pub streaming : Bool

pub data Begun : Type 0 where
  replied : Reply → Begun
  pending : Pending → Begun

module _ {K : Type 0} where
  -- `admit` returned an error, while so many were in flight and waiting.
  unfoldable pub refuse : Server K → Pending → Refusal → ℕ → ℕ → Server K × Reply
  refuse s p busy in_flight waiting = (
    record s { shed = s.shed + 1 },
    record (http_err 503 (saturated in_flight waiting p.lane)) { retry_after = some 10 },
  )
  refuse s p gone in_flight waiting = (record s { shed = s.shed + 1 }, http_err 408 went_away)

  -- The upstream request could not be built.
  unfoldable pub fail_build : Server K → Server K × Reply
  fail_build s = (record s { errs = s.errs + 1 }, http_err 500 unbuildable)

module _ {K : Type 0} (dec : Discrete K) (sum256 : List ℕ → K) where
  -- From the lookup in the cache on, with the body read.
  unfoldable pub look_up : Server K → Request → List ℕ → Server K × Begun
  look_up s r body =
      let p : Pending = record { body = body; lane = lane_of r; streaming = r.streaming } in
      let (cache, hit) = Cache.get dec sum256 s.cache body in
      if r.streaming then (s, pending p) else elim hit [
        | some val ↦ (
          record s { cache = cache; served = s.served + 1 },
          replied (record {
            status = 200;
            body = bytes val;
            retry_after = none;
            cache_hit = some true;
            lane = none;
          }),
        )
        | none ↦ (record s { cache = cache }, pending p)
      ]

  -- `handleCompletions` up to `admit`.
  unfoldable pub begin : Server K → Request → Server K × Begun
  unfolding look_up
  begin s r =
      if r.is_post
      then elim r.body [
        | none ↦ (s, replied (http_err 400 unreadable))
        | some body ↦ look_up s r body
      ]
      else (s, replied (http_err 405 post_only))

  -- The end of the handler, with the body read.
  unfoldable pub deliver : Server K → Pending → Answer → List ℕ → Server K × Reply
  deliver s p a out =
      let t = record s { served = s.served + 1 } in
      let reply : Reply = record {
        status = a.status;
        body = bytes out;
        retry_after = none;
        cache_hit = some false;
        lane = some p.lane;
      } in
      if a.status == 200
      then (
        record t { cache = Cache.put dec sum256 t.cache p.body out; marks = a.tokens ∷ t.marks },
        reply,
      )
      else (t, reply)

  -- From the call of the upstream on; `none` is an upstream that cannot be reached.
  unfoldable pub finish : Server K → Pending → Option Answer → Server K × Reply
  unfolding deliver
  finish s p none = (record s { errs = s.errs + 1 }, http_err 502 unreachable)
  finish s p (some a) =
      let reply : Body → Reply = λ b. record {
        status = a.status;
        body = b;
        retry_after = none;
        cache_hit = some false;
        lane = some p.lane;
      } in
      if p.streaming
      then (record s { served = s.served + 1; marks = 0 ∷ s.marks }, reply stream)
      else elim a.out [
        | none ↦ (record s { errs = s.errs + 1 }, reply broken)
        | some out ↦ deliver s p a out
      ]
