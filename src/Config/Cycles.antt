-- ===== src/Config/Cycles.antt =====
-- dns_forwarder/config/models.py, `_validate_group_cycles`: the depth-first search over the groups
-- that name other groups.
pub mod Search
pub mod Acyclic
pub mod Fuel
pub mod Depth
use python_smartdns.Prelude.{
  ℕ, zero, suc, String, Bool, true, false, Option, none, some, List, [], ◌∷◌, elem, add, filterb,
  length, str_eq, if◌then◌else◌,
}
use python_smartdns.Config.Model.{
  UpstreamGroupConfig, Result, ok, err, group_cycle, exhausted, ◌>>=◌,
}

abbrev pub Adjacency : Type 0
Adjacency = List (String × List String)

-- `{group.name: [target for target in group.upstreams if target in group_names] ...}`
unfoldable pub adjacency : List String → List UpstreamGroupConfig → Adjacency
adjacency group_names [] = []
adjacency group_names (g ∷ gs) =
    (g.name, filterb (λ t. elem t group_names) g.upstreams) ∷ adjacency group_names gs

-- `adjacency[name]`. Every name that the search looks up is a key.
unfoldable pub targets : Adjacency → String → List String
targets [] name = []
targets ((k, ts) ∷ a) name = if str_eq k name then ts else targets a name

abbrev pub keys : Adjacency → List String
keys [] = []
keys ((k, ts) ∷ a) = k ∷ keys a

-- The closure's variables. `path` is kept with its last element first.
pub record SearchState : Type 0 where
  pub path : List String
  pub visiting : List String
  pub visited : List String

-- `visiting.remove(name)`
abbrev pub remove : String → List String → List String
remove x [] = []
remove x (y ∷ ys) = if str_eq y x then ys else y ∷ remove x ys

-- `path.pop()`
abbrev pub pop : List String → List String
pop [] = []
pop (x ∷ xs) = xs

-- `path[path.index(name):]`, last element first
unfoldable pub cycle_of : String → List String → List String
cycle_of name [] = []
cycle_of name (x ∷ xs) = if str_eq x name then x ∷ [] else x ∷ cycle_of name xs

-- `for nested_group in adjacency[group_name]: dfs(nested_group, path)`
unfoldable pub each :
    (String → SearchState → Result SearchState) → List String → SearchState → Result SearchState
each visit [] s = ok s
each visit (t ∷ ts) s = do s' ← visit t s; each visit ts s'

unfoldable pub enter : String → SearchState → SearchState
enter name s = record s { path = name ∷ s.path; visiting = add name s.visiting }

unfoldable pub leave : String → SearchState → SearchState
leave name s = record {
  path = pop s.path;
  visiting = remove name s.visiting;
  visited = add name s.visited;
}

-- The body of `dfs`, over the recursive call.
abbrev pub visit :
    (String → SearchState → Result SearchState)
    → Adjacency
    → String
    → SearchState
    → Result SearchState
visit again a name s =
    if elem name s.visiting
    then err (group_cycle (name ∷ cycle_of name s.path))
    else if elem name s.visited
    then ok s
    else (do s' ← each again (targets a name) (enter name s); ok (leave name s'))

-- `dfs`, with fuel for the depth of the calls
unfoldable pub dfs : ℕ → Adjacency → String → SearchState → Result SearchState
dfs zero a name s = err exhausted
dfs (suc fuel) a name s = visit (dfs fuel a) a name s

abbrev pub start : SearchState
start = record { path = []; visiting = []; visited = [] }

-- `for group_name in adjacency: dfs(group_name, [])`, with one call deeper than there are groups
unfoldable pub search_cycles : Adjacency → Result SearchState
search_cycles a = each (dfs (suc (length (keys a))) a) (keys a) start
