-- ===== src/Config/Cycles/Acyclic.antt =====
-- The groups have a rank that falls along every reference, so no chain of references comes back.
use python_smartdns.Prelude.{
  ℕ, suc, ◌<◌, ◌≤◌, String, true, List, [], ◌∷◌, elem, All-elem, length, ◌≡◌, inl, inr, arith,
  str_eq, eq_iff, Bool-cases, if◌then◌else◌,
}
use python_smartdns.Config.Model.{ok}
use python_smartdns.Config.Cycles.{Adjacency, targets, keys, SearchState, search_cycles}
use python_smartdns.Config.Cycles.Search.{Ordered, search_cycles-Ordered}

-- `g` names `t` among its upstreams, and `t` is a group.
abbrev pub Names : Adjacency → String → String → Type 0
Names a g t = elem t (targets a g) ≡ true

-- A chain of one or more references.
pub data Reaches (a : Adjacency) : String → String → Type 0 where
  last : {g t : String} → Names a g t → Reaches a g t
  through : {g t u : String} → Names a g t → Reaches a t u → Reaches a g u

-- The position of a name, counted from the oldest.
unfoldable pub rank : String → List String → ℕ
rank g [] = 0
rank g (v ∷ vs) = if str_eq v g then suc (length vs) else rank g vs

pub rank-le : (g : String) (vs : List String) → rank g vs ≤ length vs
unfolding rank
rank-le g [] = omega arith
rank-le g (v ∷ vs) = ground (arith, rank-le g vs)

module _ (a : Adjacency) where
  Ordered-Names :
      (vs : List String) (g t : String)
      → Ordered a vs
      → elem g vs ≡ true
      → Names a g t
      → elem t vs ≡ true
  Ordered-Names [] g t o h n = cc
  Ordered-Names (v ∷ vs) g t o h n = elim (Bool-cases (str_eq v g)) [
    | inl e ↦
        let n' : elem t (targets a v) ≡ true = rw ((eq_iff v g).0 e) n in
        ground (arith, All-elem (λ x. elem x vs ≡ true) (targets a v) t o.1 n')
    | inr e ↦ ground (arith, Ordered-Names vs g t o.2 (rw e at h) n)
  ]

  pub rank-Names :
      (vs : List String) (g t : String)
      → Ordered a vs
      → elem g vs ≡ true
      → Names a g t
      → rank t vs < rank g vs
  unfolding rank
  rank-Names [] g t o h n = cc
  rank-Names (v ∷ vs) g t o h n = elim (Bool-cases (str_eq v g)) [
    | inl e ↦
        let n' : elem t (targets a v) ≡ true = rw ((eq_iff v g).0 e) n in
        let below : elem t vs ≡ true = All-elem (λ x. elem x vs ≡ true) (targets a v) t o.1 n' in
        ground (arith, o.0, below, rank-le t vs, eq_iff v t)
    | inr e ↦
        let h' : elem g vs ≡ true = rw e at h in
        let below : elem t vs ≡ true = Ordered-Names vs g t o.2 h' n in
        ground (arith, o.0, below, rank-Names vs g t o.2 h' n, eq_iff v t)
  ]

  rank-Reaches :
      {g t : String} (vs : List String)
      → Reaches a g t
      → Ordered a vs
      → elem g vs ≡ true
      → rank t vs < rank g vs
  rank-Reaches vs (last n) o h = rank-Names vs _ _ o h n
  rank-Reaches vs (through n r) o h =
      omega (arith, rank-Names vs _ _ o h n, rank-Reaches vs r o (Ordered-Names vs _ _ o h n))

  pub search_cycles-not-Reaches :
      (s : SearchState) (g : String)
      → search_cycles a ≡ ok s
      → elem g (keys a) ≡ true
      → ¬ Reaches a g g
  search_cycles-not-Reaches s g e k r =
      let (o, all) = search_cycles-Ordered a s e in
      omega (
        arith,
        rank-Reaches s.visited r o (All-elem (λ x. elem x s.visited ≡ true) (keys a) g all k),
      )
