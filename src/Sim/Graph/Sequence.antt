-- ===== src/Sim/Graph/Sequence.antt =====
-- A pass of `BuildGraph` in internal/sim/graph.go can run: one node's program after another is such an order.
use populace.Prelude.{
  ℕ, zero, suc, ◌≤◌, ◌≡◌, refl, sym, ◌∙◌, subst, fun_ext, List, [], ◌∷◌, ◌++◌, assign, assign_self,
  assign_ne, ℕ_discrete, arith,
}
use populace.Sim.Graph.{Event, Merge, over, next}
use populace.Sim.Graph.Schedules.{programs}

assign_twice :
    (threads : ℕ → List Event) (i : ℕ) (a b : List Event)
    → assign ℕ_discrete (assign ℕ_discrete threads i a) i b ≡ assign ℕ_discrete threads i b
assign_twice threads i a b = fun_ext (λ k. at k)
  where
    at :
        (k : ℕ)
        → assign ℕ_discrete (assign ℕ_discrete threads i a) i b k ≡ assign ℕ_discrete threads i b k
    at k = elim (ℕ_discrete i k) [
      | yes h ↦ rw (← h) (
          assign_self ℕ_discrete (assign ℕ_discrete threads i a) i b
          ∙ sym (assign_self ℕ_discrete threads i b))
      | no h ↦
          assign_ne ℕ_discrete (assign ℕ_discrete threads i a) i k b h
          ∙ assign_ne ℕ_discrete threads i k a h
          ∙ sym (assign_ne ℕ_discrete threads i k b h)
    ]

drain :
    (xs : List Event) (threads : ℕ → List Event) (i : ℕ) (es : List Event)
    → threads i ≡ xs
    → Merge (assign ℕ_discrete threads i []) es
    → Merge threads (xs ++ es)
drain [] threads i es has m = subst (λ t. Merge t es) (fun_ext (λ k. same k)) m
  where
    same : (k : ℕ) → assign ℕ_discrete threads i [] k ≡ threads k
    same k = elim (ℕ_discrete i k) [
      | yes h ↦ rw (← h) (assign_self ℕ_discrete threads i [] ∙ sym has)
      | no h ↦ assign_ne ℕ_discrete threads i k [] h
    ]
drain (x ∷ xs) threads i es has m = next i x xs has (
    drain xs (assign ℕ_discrete threads i xs) i es (assign_self ℕ_discrete threads i xs)
      (subst (λ t. Merge t es) (sym (assign_twice threads i xs [])) m))

-- The programs below `n`, from the last node on.
unfoldable pub sequence : ℕ → (ℕ → List Event) → List Event
sequence zero threads = []
sequence (suc n) threads = threads n ++ sequence n (assign ℕ_discrete threads n [])

sequence-Merge :
    (n : ℕ) (threads : ℕ → List Event)
    → ((i : ℕ) → n ≤ i → threads i ≡ [])
    → Merge threads (sequence n threads)
unfolding sequence
sequence-Merge zero threads idle = over (λ i. idle i (omega arith))
sequence-Merge (suc n) threads idle =
    drain (threads n) threads n (sequence n (assign ℕ_discrete threads n [])) refl
      (sequence-Merge n (assign ℕ_discrete threads n []) (λ i after. still_idle i after))
  where
    still_idle : (i : ℕ) → n ≤ i → assign ℕ_discrete threads n [] i ≡ []
    still_idle i after = elim (ℕ_discrete n i) [
      | yes h ↦ rw (← h) (assign_self ℕ_discrete threads n [])
      | no h ↦ assign_ne ℕ_discrete threads n i [] h ∙ idle i (omega arith)
    ]

pub programs-Merge :
    (n : ℕ) (proposals : ℕ → List ℕ)
    → Merge (programs n proposals) (sequence n (programs n proposals))
programs-Merge n proposals = sequence-Merge n (programs n proposals) (λ i after. ground arith)
