-- ===== src/Config/Cycles/Depth.antt =====
-- A rank for the groups, bounded by their number.
use python_smartdns.Prelude.{
  ℕ, suc, ◌≤◌, ◌<◌, String, true, false, List, [], ◌∷◌, elem, All, All-elem, length, ◌≡◌, subst,
  arith, str_eq, eq_iff,
}
use python_smartdns.Config.Model.{ok}
use python_smartdns.Config.Cycles.{Adjacency, keys, SearchState, search_cycles, remove}
use python_smartdns.Config.Cycles.Search.{Ordered, search_cycles-Ordered}
use python_smartdns.Config.Cycles.Acyclic.{Names, rank, rank-le, rank-Names}
use python_smartdns.Config.Cycles.Fuel.{Decided, IsClosed, search_cycles-Decided}

length-remove :
    (x : String) (ys : List String) → elem x ys ≡ true → suc (length (remove x ys)) ≡ length ys
length-remove x [] h = cc
length-remove x (y ∷ ys) h = ground (arith, length-remove x ys)

elem-remove :
    (x z : String) (ys : List String)
    → elem z ys ≡ true
    → str_eq x z ≡ false
    → elem z (remove x ys) ≡ true
elem-remove x z [] h n = cc
elem-remove x z (y ∷ ys) h n =
    ground (arith, elem-remove x z ys, eq_iff y x, eq_iff y z, eq_iff x z)

All-remove :
    (x : String) (xs ys : List String)
    → elem x xs ≡ false
    → All (λ z. elem z ys ≡ true) xs
    → All (λ z. elem z (remove x ys) ≡ true) xs
All-remove x [] ys n h = tt
All-remove x (z ∷ xs) ys n h = (
  elem-remove x z ys h.0 (ground (arith, n, eq_iff z x, eq_iff x z)),
  All-remove x xs ys (ground (arith, n)) h.1,
)

-- The pigeonhole principle, for a list in which each name stands behind others it does not repeat.
Ordered-length :
    (a : Adjacency) (xs ys : List String)
    → Ordered a xs
    → All (λ z. elem z ys ≡ true) xs
    → length xs ≤ length ys
Ordered-length a [] ys o h = omega arith
Ordered-length a (x ∷ xs) ys o h = omega (
  arith,
  length-remove x ys h.0,
  Ordered-length a xs (remove x ys) o.2 (All-remove x xs ys o.0 h.1),
)

-- A rank below the number of groups, which falls along every reference.
pub record IsRanked (a : Adjacency) (height : String → ℕ) : Type 0 where
  pub bounded : (g : String) → height g ≤ length (keys a)
  pub falls : (g t : String) → elem g (keys a) ≡ true → Names a g t → height t < height g

pub search_cycles-IsRanked :
    (a : Adjacency) (s : SearchState)
    → IsClosed a
    → search_cycles a ≡ ok s
    → IsRanked a (λ g. rank g s.visited)
search_cycles-IsRanked a s closed e =
    let (o, all) = search_cycles-Ordered a s e in
    let within : All (λ z. elem z (keys a) ≡ true) s.visited =
      subst (Decided a) e (search_cycles-Decided a closed) in
    record {
      bounded =
          λ g. omega (arith, rank-le g s.visited, Ordered-length a s.visited (keys a) o within);
      falls = λ g t k n.
          rank-Names a s.visited g t o (All-elem (λ x. elem x s.visited ≡ true) (keys a) g all k) n;
    }
