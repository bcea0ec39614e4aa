-- ===== src/Gateway/Limiter/Rate.antt =====
-- What the limiter of limit.go grants: no more than its rate, each client by itself.
use native.Mathlib.Nat.{mul-le-mul_right, add-mul, zero-add, le-mul_of_pos_right, mul_comm}
use populace.Prelude.{
  ite, if_pos, if_neg, ℕ, suc, ◌+◌, ◌-◌, ◌*◌, ◌≤◌, ◌≡◌, ◌≢◌, ◌⊎◌, inl, inr, refl, ap, ◌∙◌, subst,
  Option, none, some, leb, if◌then◌else◌, Bool-cases, Bool, true, false, List, [], ◌∷◌, assign,
  assign_self, arith,
}
use populace.Prelude.Int.{ℤ, pos, pos_part, neg_part, sub_ℕ, ◌+ℤ◌, ◌-ℤ◌, ltb_ℤ, ◌≤ℤ◌}
use populace.Gateway.Limiter.{per_token, Bucket, Limiter, min_f, bucket_of, refilled, draw, allow}

-- 1 for a request that is let through.
abbrev pub granted : Bool → ℕ
granted true = 1
granted false = 0

sub_ℕ-parts : (a b : ℕ) → (pos_part (sub_ℕ a b) ≡ a - b) × (neg_part (sub_ℕ a b) ≡ b - a)
sub_ℕ-parts a b = elim (Bool-cases (leb b a)) [
  | inl up ↦ rw up (refl, ground arith)
  | inr down ↦ rw down (ground arith, ground arith)
]

-- The refill, with what is negative moved to the other side.
refilled_lem :
    (p now : ℕ) (bk : Bucket)
    → let x = refilled p now bk in
      pos_part x + (neg_part bk.tokens + bk.last * p) ≡ neg_part x + (pos_part bk.tokens + now * p)
unfolding refilled ◌+ℤ◌
refilled_lem p now bk =
    let (up, down) = sub_ℕ-parts (now * p) (bk.last * p) in
    let r = sub_ℕ (now * p) (bk.last * p) in
    let (over, under) =
      sub_ℕ-parts (pos_part bk.tokens + pos_part r) (neg_part bk.tokens + neg_part r) in
    omega (arith, up, down, over, under)

min_f_lem :
    (full : ℕ) (x : ℤ)
    → let y = min_f (pos full) x in
      (pos_part y + neg_part x ≤ pos_part x + neg_part y)
      × (per_token ≤ full
          → per_token + neg_part x ≤ pos_part x
          → per_token + neg_part y ≤ pos_part y)
min_f_lem full x = elim (Bool-cases (ltb_ℤ (pos full) x)) [
  | inl over ↦ rw over (ground arith, λ room enough. omega arith)
  | inr under ↦ rw under (omega arith, λ room enough. enough)
]

-- What a call does with the tokens that it finds.
abbrev spent : ℕ → ℤ → Bucket × Bool
spent now y =
    if ltb_ℤ y (pos per_token)
    then (record { tokens = y; last = now }, false)
    else (record { tokens = y -ℤ pos per_token; last = now }, true)

spent_lem :
    (now : ℕ) (y : ℤ)
    → let (bk', verdict) = spent now y in
      (granted verdict * per_token + pos_part bk'.tokens + neg_part y
        ≤ pos_part y + neg_part bk'.tokens)
      × ((verdict ≡ false) ⊎ (neg_part bk'.tokens ≡ 0))
      × (bk'.last ≡ now)
unfolding ◌-ℤ◌
spent_lem now y = elim (Bool-cases (ltb_ℤ y (pos per_token))) [
  | inl few ↦ rw few (omega arith, inl refl, refl)
  | inr enough ↦
      let (up, down) = sub_ℕ-parts (pos_part y + 0) (neg_part y + per_token) in
      rw enough (ground (arith, up, down), inr (ground (arith, down)), refl)
]

spent_ready : (now : ℕ) (y : ℤ) → per_token + neg_part y ≤ pos_part y → (spent now y).1 ≡ true
spent_ready now y enough = let rich : ltb_ℤ y (pos per_token) ≡ false = ground arith in rw rich refl

-- A call spends no more than the bucket had and what the time since gives or takes, and never goes below 0 by it.
draw_balance :
    (p now : ℕ) (bk : Bucket)
    → let (bk', verdict) = draw p now bk in
      (granted verdict * per_token + pos_part bk'.tokens + (neg_part bk.tokens + bk.last * p)
        ≤ neg_part bk'.tokens + (pos_part bk.tokens + now * p))
      × ((verdict ≡ false) ⊎ (neg_part bk'.tokens ≡ 0))
      × (bk'.last ≡ now)
unfolding draw
draw_balance p now bk =
    let x = refilled p now bk in
    let y = min_f (pos (p * per_token)) x in
    let (spends, safe, noted) = spent_lem now y in
    (omega (arith, refilled_lem p now bk, (min_f_lem (p * per_token) x).0, spends), safe, noted)

draw_ready :
    (p now : ℕ) (bk : Bucket)
    → bk.last + neg_part bk.tokens + per_token ≤ now
    → (draw (suc p) now bk).1 ≡ true
unfolding draw
draw_ready p now bk rested =
    let x = refilled (suc p) now bk in
    let y = min_f (pos (suc p * per_token)) x in
    let wait = neg_part bk.tokens + per_token in
    let long : (bk.last + wait) * suc p ≤ now * suc p = mul-le-mul_right (suc p) (omega arith) in
    let enough : per_token + neg_part x ≤ pos_part x = omega (
      arith,
      refilled_lem (suc p) now bk,
      long,
      add-mul bk.last wait (suc p),
      le-mul_of_pos_right {m = suc p} wait (omega arith),
      mul_comm (suc p) wait,
    ) in
    spent_ready now y ((min_f_lem (suc p * per_token) x).1 (omega arith) enough)

draw_fresh :
    (p now : ℕ)
    → 1 ≤ p
    → (draw p now (record { tokens = pos (p * per_token); last = now })).1 ≡ true
unfolding draw
draw_fresh p now some_rate =
    let bk : Bucket = record { tokens = pos (p * per_token); last = now } in
    let x = refilled p now bk in
    spent_ready now (min_f (pos (p * per_token)) x)
      ((min_f_lem (p * per_token) x).1 (omega arith) (omega (arith, refilled_lem p now bk)))

-- The most that a client gets up to `t'` by what is left of its bucket, where it gets anything.
abbrev IsWithin : ℕ → ℕ → ℕ → Option Bucket → ℕ → Type 0
IsWithin p t t' none g = (g ≡ 0) ⊎ ((t ≤ t') × (g * per_token + t * p ≤ p * per_token + t' * p))
IsWithin p t t' (some bk) g =
    (g ≡ 0) ⊎ (g * per_token + (neg_part bk.tokens + bk.last * p) ≤ pos_part bk.tokens + t' * p)

-- From the bucket after a call to the bucket before it.
before_draw :
    (p t t' now : ℕ) (bk : Bucket) (g : ℕ)
    → now ≤ t'
    → let (bk', verdict) = draw p now bk in
      IsWithin p t t' (some bk') g → IsWithin p t t' (some bk) (granted verdict + g)
before_draw p t t' now bk g below later =
    let (bk', verdict) = draw p now bk in
    let (spends, safe, noted) = draw_balance p now bk in
    let at = ap (λ q. q * p) noted in
    let span = mul-le-mul_right p below in
    elim later [
      | inr more ↦ inr (omega (arith, spends, at, more))
      | inl none_more ↦ elim safe [
        | inl refused ↦ inl (omega (arith, none_more, ap granted refused))
        | inr kept ↦ inr (omega (arith, none_more, spends, span, kept))
      ]
    ]

before_call :
    (p t t' now : ℕ) (b : Option Bucket) (g : ℕ)
    → t ≤ now
    → now ≤ t'
    → let (bk', verdict) = draw p now (bucket_of (p * per_token) now b) in
      IsWithin p t t' (some bk') g → IsWithin p t t' b (granted verdict + g)
unfolding bucket_of
before_call p t t' now (some bk) g from below later = before_draw p t t' now bk g below later
before_call p t t' now none g from below later =
    let fresh = bucket_of (p * per_token) now none in
    elim (before_draw p t t' now fresh g below later) [
      | inl nothing ↦ inl nothing
      | inr some_of_it ↦ inr (omega arith, omega (arith, some_of_it, mul-le-mul_right p from))
    ]

none_granted : (p t t' : ℕ) (b : Option Bucket) → IsWithin p t t' b 0
none_granted p t t' none = inl refl
none_granted p t t' (some bk) = inl refl

-- The readings of the clock are from `t` to `t'`, in any order.
module _ {Client : Type 0} where
  abbrev pub Timed : ℕ → List (ℕ × Client) → ℕ → Type 0
  Timed t [] t' = Unit {0}
  Timed t ((now, client) ∷ calls) t' = (t ≤ now) × (now ≤ t') × Timed t calls t'

module _ {Client : Type 0} (dec : Discrete Client) where
  -- How many of the calls of client `k` are let through.
  pub grants : Limiter Client → List (ℕ × Client) → Client → ℕ
  grants l [] k = 0
  grants l ((now, client) ∷ calls) k =
      let (l', verdict) = allow dec l now client in
      ite (dec client k) (granted verdict) 0 + grants l' calls k

  -- The call of a limited client is a draw from its bucket.
  pub allow-draw :
      (p : ℕ) (l : Limiter Client) (now : ℕ) (k : Client)
      → l.per_min ≡ pos (suc p)
      → let (bk, verdict) = draw (suc p) now (bucket_of (suc p * per_token) now (l.buckets k)) in
        allow dec l now k ≡ (record l { buckets = assign dec l.buckets k (some bk) }, verdict)
  unfolding allow
  allow-draw p l now k rate = ground (arith, ap pos_part rate)

  own_call :
      (p : ℕ) (l : Limiter Client) (now : ℕ) (client k : Client)
      → l.per_min ≡ pos (suc p)
      → client ≡ k
      → let (l', verdict) = allow dec l now client in
        let (bk', verdict') = draw (suc p) now (bucket_of (suc p * per_token) now (l.buckets k)) in
        (l'.buckets k ≡ some bk') × (verdict ≡ verdict') × (l'.per_min ≡ l.per_min)
  own_call p l now client k rate same =
      rw (same, allow-draw p l now k rate) (assign_self dec l.buckets k _, refl, refl)

  allow_other :
      (l : Limiter Client) (now : ℕ) (client k : Client)
      → client ≢ k
      → let (l', verdict) = allow dec l now client in
        (l'.buckets k ≡ l.buckets k) × (l'.per_min ≡ l.per_min)
  unfolding allow
  allow_other l now client k other = ground arith

  -- However the calls of the clients interleave, and in whatever order their readings come.
  grants-IsWithin :
      (p t t' : ℕ) (l : Limiter Client) (calls : List (ℕ × Client)) (k : Client)
      → l.per_min ≡ pos (suc p)
      → Timed t calls t'
      → IsWithin (suc p) t t' (l.buckets k) (grants l calls k)
  unfolding grants
  grants-IsWithin p t t' l [] k rate h = none_granted (suc p) t t' (l.buckets k)
  grants-IsWithin p t t' l ((now, client) ∷ calls) k rate (from, below, h) =
      let l' = (allow dec l now client).0 in
      elim (dec client k) [
        | yes same ↦
            let (bucket, verdict, kept) = own_call p l now client k rate same in
            let rest = grants-IsWithin p t t' l' calls k (kept ∙ rate) h in
            rw (if_pos (dec client k) same, verdict)
              (before_call (suc p) t t' now (l.buckets k) _ from below
                (subst (λ b. IsWithin (suc p) t t' b (grants l' calls k)) bucket rest))
        | no other ↦
            let (apart, kept) = allow_other l now client k other in
            let rest = grants-IsWithin p t t' l' calls k (kept ∙ rate) h in
            rw (if_neg (dec client k) other, zero-add (grants l' calls k))
              (subst (λ b. IsWithin (suc p) t t' b (grants l' calls k)) apart rest)
      ]

  -- With a positive rate and exact tokens: a client that is new gets at most a full bucket and its rate for the time from
  -- `t` to `t'`, if the readings of the clock are between these, in any order, and however its calls interleave with
  -- those of the other clients.
  pub grants_bound :
      (p t t' : ℕ) (l : Limiter Client) (calls : List (ℕ × Client)) (k : Client)
      → l.per_min ≡ pos (suc p)
      → l.buckets k ≡ none
      → Timed t calls t'
      → grants l calls k * per_token ≤ suc p * per_token + (t' - t) * suc p
  grants_bound p t t' l calls k rate fresh h =
      elim (subst (λ b. IsWithin (suc p) t t' b (grants l calls k)) fresh
        (grants-IsWithin p t t' l calls k rate h)) [
          | inl nothing ↦ omega (arith, nothing)
          | inr (order, most) ↦
              let whole : t' ≡ t + (t' - t) = omega arith in
              omega (arith, most, ap (λ q. q * suc p) whole, add-mul t (t' - t) (suc p))
        ]

  -- With a positive rate and exact tokens the first request of a client is let through, and so is one that comes a
  -- minute or more after the last, and by as much more as the bucket was left below 0.
  pub allow_rested :
      (p : ℕ) (l : Limiter Client) (now : ℕ) (k : Client)
      → l.per_min ≡ pos (suc p)
      → (l.buckets k ≡ none)
        ⊎ ((bk : Bucket) × (l.buckets k ≡ some bk)
            × (bk.last + neg_part bk.tokens + per_token ≤ now))
      → (allow dec l now k).1 ≡ true
  unfolding bucket_of
  allow_rested p l now k rate (inl fresh) =
      rw (allow-draw p l now k rate, fresh) (draw_fresh (suc p) now (omega arith))
  allow_rested p l now k rate (inr (bk, known, rested)) =
      rw (allow-draw p l now k rate, known) (draw_ready p now bk rested)

  -- Without a rate every request is let through.
  pub allow_unlimited :
      (l : Limiter Client) (now : ℕ) (k : Client)
      → l.per_min ≤ℤ pos 0
      → allow dec l now k ≡ (l, true)
  unfolding allow
  allow_unlimited l now k h = ground arith
