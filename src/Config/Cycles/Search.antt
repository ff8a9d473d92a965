-- ===== src/Config/Cycles/Search.antt =====
-- What a search that ends without an exception has established.
use python_smartdns.Prelude.{
  ℕ, zero, suc, String, true, false, List, [], ◌∷◌, elem, add, All, length, ◌≡◌, refl, inl, inr,
  arith, eq_iff, Bool-cases,
}
use python_smartdns.Config.Model.{Result, ok, ◌>>=◌, >>=-eq-ok}
use python_smartdns.Config.Cycles.{
  Adjacency, targets, SearchState, each, enter, leave, visit, dfs, remove, start, keys,
  search_cycles,
}

-- The visited names, newest first: none twice, and each behind all that it names.
abbrev pub Ordered : Adjacency → List String → Type 0
Ordered a [] = Unit
Ordered a (v ∷ vs) = (elem v vs ≡ false) × All (λ t. elem t vs ≡ true) (targets a v) × Ordered a vs

pub record Grows (a : Adjacency) (s s' : SearchState) : Type 0 where
  pub path : s'.path ≡ s.path
  pub visiting : s'.visiting ≡ s.visiting
  pub keeps : (x : String) → elem x s.visited ≡ true → elem x s'.visited ≡ true
  pub ordered : Ordered a s.visited → Ordered a s'.visited

Grows-refl : (a : Adjacency) (s : SearchState) → Grows a s s
Grows-refl a s = record { path = refl; visiting = refl; keeps = λ x h. h; ordered = λ h. h }

Grows-trans : {a : Adjacency} {s t u : SearchState} → Grows a s t → Grows a t u → Grows a s u
Grows-trans g h = record {
  path = cc (g.path, h.path);
  visiting = cc (g.visiting, h.visiting);
  keeps = λ x e. h.keeps x (g.keeps x e);
  ordered = λ o. h.ordered (g.ordered o);
}

elem-add_self : (x : String) (s : List String) → elem x (add x s) ≡ true
elem-add_self x s = ground (arith, eq_iff x x)

elem-add : (x y : String) (s : List String) → elem x s ≡ true → elem x (add y s) ≡ true
elem-add x y s h = ground arith

remove-add : (x : String) (s : List String) → elem x s ≡ false → remove x (add x s) ≡ s
remove-add x s h = ground (arith, eq_iff x x)

All-keeps :
    (u w : List String)
    → ((x : String) → elem x u ≡ true → elem x w ≡ true)
    → (ts : List String) → All (λ t. elem t u ≡ true) ts
    → All (λ t. elem t w ≡ true) ts
All-keeps u w k [] h = tt
All-keeps u w k (t ∷ ts) h = (k t h.0, All-keeps u w k ts h.1)

Ordered-add :
    (a : Adjacency) (v : String) (vs : List String)
    → Ordered a vs
    → All (λ t. elem t vs ≡ true) (targets a v)
    → Ordered a (add v vs)
Ordered-add a v vs o h = elim (Bool-cases (elem v vs)) [ inl e ↦ rw e o | inr e ↦ rw e (e, h, o) ]

abbrev pub Visits : Adjacency → (String → SearchState → Result SearchState) → Type 0
Visits a go =
    (t : String) (s s' : SearchState) → go t s ≡ ok s' → Grows a s s' × (elem t s'.visited ≡ true)

each-Grows :
    {a : Adjacency} (go : String → SearchState → Result SearchState)
    → Visits a go
    → (ts : List String) (s s' : SearchState) → each go ts s ≡ ok s'
    → Grows a s s' × All (λ t. elem t s'.visited ≡ true) ts
unfolding each
each-Grows {a} go v [] s s' e = let same : s ≡ s' = cc in (rw (← same) (Grows-refl a s), tt)
each-Grows go v (t ∷ ts) s s' e =
    let (m, first, rest) = >>=-eq-ok (go t s) (each go ts) e in
    let (g, seen) = v t s m first in
    let (h, all) = each-Grows go v ts m s' rest in (Grows-trans g h, (h.keeps t seen, all))

-- One call, over any function that visits the groups named.
entered-Grows :
    (a : Adjacency) (go : String → SearchState → Result SearchState) (name : String)
    (s m : SearchState)
    → Visits a go
    → elem name s.visiting ≡ false
    → each go (targets a name) (enter name s) ≡ ok m
    → Grows a s (leave name m)
unfolding enter leave
entered-Grows a go name s m v free run =
    let (g, all) = each-Grows go v (targets a name) (enter name s) m run in
    record {
      path = rw g.path;
      visiting = rw g.visiting (remove-add name s.visiting free);
      keeps = λ x h. elem-add x name m.visited (g.keeps x h);
      ordered = λ o. Ordered-add a name m.visited (g.ordered o) all;
    }

visit-Visits :
    (a : Adjacency) (go : String → SearchState → Result SearchState)
    → Visits a go
    → Visits a (visit go a)
unfolding leave
visit-Visits a go v name s s' e = elim (Bool-cases (elem name s.visiting)) [
  | inl busy ↦ absurd (ground (arith, e, busy))
  | inr free ↦ elim (Bool-cases (elem name s.visited)) [
    | inl old ↦
        let e' : ok s ≡ ok s' = rw (free, old) at e in
        let same : s ≡ s' = cc e' in rw (← same) (Grows-refl a s, old)
    | inr new ↦
        let e' : (each go (targets a name) (enter name s) >>= λ m. ok (leave name m)) ≡ ok s' =
          rw (free, new) at e in
        let (m, run, done) = >>=-eq-ok _ _ e' in
        let same : leave name m ≡ s' = cc done in
        rw (← same) (entered-Grows a go name s m v free run, elem-add_self name m.visited)
  ]
]

pub dfs-Visits : (fuel : ℕ) (a : Adjacency) → Visits a (dfs fuel a)
unfolding dfs
dfs-Visits zero a name s s' e = cc
dfs-Visits (suc fuel) a name s s' e = visit-Visits a (dfs fuel a) (dfs-Visits fuel a) name s s' e

-- A search that ends well has visited every key, each behind all that it names.
pub search_cycles-Ordered :
    (a : Adjacency) (s : SearchState)
    → search_cycles a ≡ ok s
    → Ordered a s.visited × All (λ g. elem g s.visited ≡ true) (keys a)
unfolding search_cycles
search_cycles-Ordered a s e =
    let (g, all) =
      each-Grows (dfs (suc (length (keys a))) a) (dfs-Visits (suc (length (keys a))) a) (keys a)
        start s e in
    (g.ordered tt, all)
