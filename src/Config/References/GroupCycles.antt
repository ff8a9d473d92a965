-- ===== src/Config/References/GroupCycles.antt =====
-- dns_forwarder/config/models.py, `_validate_group_cycles`: which groups it accepts.
use python_smartdns.Prelude.{
  String, true, List, [], ◌∷◌, map, elem, All, filterb, ◌≡◌, ◌↔◌, refl, ap, inl, inr, str_eq,
  Bool-cases,
}
use python_smartdns.Config.Model.{
  UpstreamGroupConfig, AppConfig, Result, ok, err, group_cycle, ◌>>=◌, >>=-eq-ok,
}
use python_smartdns.Config.Cycles.{Adjacency, adjacency, targets, keys, SearchState, search_cycles}
use python_smartdns.Config.Cycles.Acyclic.{Names, Reaches, last, through, search_cycles-not-Reaches}
use python_smartdns.Config.Cycles.Fuel.{Decided, IsClosed, search_cycles-Decided}
use python_smartdns.Config.References.{group_names, validate_group_cycles}

-- The groups that each group names.
abbrev pub group_graph : AppConfig → Adjacency
group_graph c = adjacency (group_names c) c.groups

pub keys-adjacency :
    (names : List String) (gs : List UpstreamGroupConfig)
    → keys (adjacency names gs) ≡ map (λ g. g.name) gs
unfolding adjacency
keys-adjacency names [] = refl
keys-adjacency names (g ∷ gs) = ap (◌∷◌ g.name) (keys-adjacency names gs)

filterb-AllIn :
    (names ts : List String) → All (λ t. elem t names ≡ true) (filterb (λ t. elem t names) ts)
filterb-AllIn names [] = tt
filterb-AllIn names (t ∷ ts) = elim (Bool-cases (elem t names)) [
  | inl e ↦ rw e (e, filterb-AllIn names ts)
  | inr e ↦ rw e (filterb-AllIn names ts)
]

targets-AllIn :
    (names : List String) (gs : List UpstreamGroupConfig) (g : String)
    → All (λ t. elem t names ≡ true) (targets (adjacency names gs) g)
unfolding adjacency targets
targets-AllIn names [] g = tt
targets-AllIn names (x ∷ gs) g = elim (Bool-cases (str_eq x.name g)) [
  | inl e ↦ rw e (filterb-AllIn names x.upstreams)
  | inr e ↦ rw e (targets-AllIn names gs g)
]

pub group_graph-IsClosed : (c : AppConfig) → IsClosed (group_graph c)
group_graph-IsClosed c g =
    rw (keys-adjacency (group_names c) c.groups) (targets-AllIn (group_names c) c.groups g)

Names-key : (a : Adjacency) (g t : String) → Names a g t → elem g (keys a) ≡ true
unfolding targets
Names-key [] g t n = absurd (cc)
Names-key ((k, ts) ∷ a) g t n = elim (Bool-cases (str_eq k g)) [
  | inl e ↦ rw e
  | inr e ↦ rw e (Names-key a g t (rw e at n))
]

Reaches-key : {a : Adjacency} {g t : String} → Reaches a g t → elem g (keys a) ≡ true
Reaches-key (last n) = Names-key _ _ _ n
Reaches-key (through n r) = Names-key _ _ _ n

-- No group leads back to itself.
abbrev pub IsAcyclic : AppConfig → Type 0
IsAcyclic c = (g : String) → ¬ Reaches (group_graph c) g g

ends_well :
    (c : AppConfig) (r : Result SearchState)
    → IsAcyclic c
    → Decided (group_graph c) r
    → ◌≡◌ {A = Result (Unit {0})} (r >>= λ s. ok tt) (ok tt)
ends_well c (ok s) a d = refl
ends_well c (err (group_cycle path)) a (g, r) = absurd (a g r)
ends_well c (err _) a d = absurd d

-- The search for cycles accepts exactly the configurations whose groups have none.
pub validate_group_cycles-ok_iff : (c : AppConfig) → (validate_group_cycles c ≡ ok tt) ↔ IsAcyclic c
unfolding validate_group_cycles
validate_group_cycles-ok_iff c = (
  λ h g r.
      let (s, run, _) = >>=-eq-ok (search_cycles (group_graph c)) _ h in
      search_cycles-not-Reaches (group_graph c) s g run (Reaches-key r) r,
  λ a. ends_well c _ a (search_cycles-Decided (group_graph c) (group_graph-IsClosed c)),
)
