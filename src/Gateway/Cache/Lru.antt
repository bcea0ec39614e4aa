-- ===== src/Gateway/Cache/Lru.antt =====
-- What the cache of cache.go promises: a list of (key, response), most recently used first, of which
-- the longest front that fits in the bound is kept.
use populace.Prelude.{
  ℕ, ◌+◌, ◌-◌, ◌<◌, ◌≤◌, ◌≡◌, refl, Option, none, some, List, [], ◌∷◌, ◌++◌, length, ltb, leb,
  le→leb, if◌then◌else◌, ite, dec_le, arith,
}

module _ {K : Type 0} where
  abbrev pub weight : List (K × List ℕ) → ℕ
  weight [] = 0
  weight (p ∷ l) = length p.1 + weight l

  -- The longest front whose responses fit into `n` bytes.
  unfoldable pub fit : ℕ → List (K × List ℕ) → List (K × List ℕ)
  fit n [] = []
  fit n (p ∷ l) = let rest = fit (n - length p.1) l in if leb (length p.1) n then p ∷ rest else []

  pub fit_all : (n : ℕ) (l : List (K × List ℕ)) → weight l ≤ n → fit n l ≡ l
  unfolding fit
  fit_all n [] h = refl
  fit_all n (p ∷ l) h =
      rw (le→leb (length p.1) n (omega arith), fit_all (n - length p.1) l (omega arith))

  pub fit_over :
      (n : ℕ) (l : List (K × List ℕ)) (p : K × List ℕ)
      → n < weight (l ++ p ∷ [])
      → fit n (l ++ p ∷ []) ≡ fit n l
  unfolding fit
  fit_over n [] p h = ground arith
  fit_over n (q ∷ l) p h = elim (dec_le (length q.1) n) [
    | yes fits ↦ rw (fit_over (n - length q.1) l p (omega arith))
    | no big ↦ ground arith
  ]

module _ {K : Type 0} (dec : Discrete K) where
  unfoldable pub lookup : K → List (K × List ℕ) → Option (List ℕ)
  lookup k [] = none
  lookup k (p ∷ l) = ite (dec p.0 k) (some p.1) (lookup k l)

  unfoldable pub forget : K → List (K × List ℕ) → List (K × List ℕ)
  forget k [] = []
  forget k (p ∷ l) = ite (dec p.0 k) l (p ∷ forget k l)

  pub forget_absent : (k : K) (l : List (K × List ℕ)) → lookup k l ≡ none → forget k l ≡ l
  unfolding forget lookup
  forget_absent k [] h = refl
  forget_absent k (p ∷ l) h = ground (arith, forget_absent k l)

  -- A read: the answer, and the list with what was read in front.
  unfoldable pub lru_get : K → List (K × List ℕ) → List (K × List ℕ) × Option (List ℕ)
  lru_get k l = elim (lookup k l) [
    | none ↦ (l, none)
    | some val ↦ ((k, val) ∷ forget k l, some val)
  ]

  pub lru_get_miss : (k : K) (l : List (K × List ℕ)) → lookup k l ≡ none → lru_get k l ≡ (l, none)
  unfolding lru_get
  lru_get_miss k l h = rw (h, lru_get)

  pub lru_get_hit :
      (k : K) (l : List (K × List ℕ)) (val : List ℕ)
      → lookup k l ≡ some val
      → lru_get k l ≡ ((k, val) ∷ forget k l, some val)
  unfolding lru_get
  lru_get_hit k l val h = rw (h, lru_get)

  -- A write under the bound `n`.
  unfoldable pub lru_put : ℕ → K → List ℕ → List (K × List ℕ) → List (K × List ℕ)
  lru_put n k val l = if ltb n (length val) then l else fit n ((k, val) ∷ forget k l)

  -- What was just written within the bound can be read.
  pub lookup-lru_put_self :
      (n : ℕ) (k : K) (val : List ℕ) (l : List (K × List ℕ))
      → length val ≤ n
      → lookup k (lru_put n k val l) ≡ some val
  unfolding lookup lru_put fit
  lookup-lru_put_self n k val l h = ground arith
