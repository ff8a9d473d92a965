-- ===== src/Config/Cycles/Fuel.antt =====
-- The search ends within its fuel, and an exception comes with a chain that leads back.
use python_smartdns.Prelude.{
  ℕ, zero, suc, ◌<◌, ◌≤◌, String, true, false, List, [], ◌∷◌, elem, add, All, All-elem, All-intro,
  length, ◌≡◌, refl, sym, subst, inl, inr, arith, str_eq, eq_iff, Bool-cases, if◌then◌else◌,
}
use python_smartdns.Config.Model.{Result, ok, err, group_cycle, ◌>>=◌}
use python_smartdns.Config.Cycles.{
  Adjacency, targets, keys, SearchState, each, enter, leave, visit, dfs, start, search_cycles,
}
use python_smartdns.Config.Cycles.Search.{Visits, dfs-Visits}
use python_smartdns.Config.Cycles.Acyclic.{Names, Reaches, last, through}

-- The keys that the search is not inside of.
absent : List String → List String → ℕ
absent [] v = 0
absent (k ∷ ks) v = if elem k v then absent ks v else suc (absent ks v)

absent-add-le : (n : String) (ks v : List String) → absent ks (add n v) ≤ absent ks v
unfolding absent
absent-add-le n [] v = omega arith
absent-add-le n (k ∷ ks) v = ground (arith, absent-add-le n ks v)

absent-add-lt :
    (n : String) (ks v : List String)
    → elem n v ≡ false
    → elem n ks ≡ true
    → absent ks (add n v) < absent ks v
unfolding absent
absent-add-lt n [] v h k = cc
absent-add-lt n (x ∷ ks) v h k =
    ground (arith, absent-add-lt n ks v h, absent-add-le n ks v, eq_iff x n)

absent-le : (ks v : List String) → absent ks v ≤ length ks
unfolding absent
absent-le [] v = omega arith
absent-le (k ∷ ks) v = ground (arith, absent-le ks v)

module _ (a : Adjacency) where
  -- The last name on the path names `t`.
  abbrev FromTop : List String → String → Type 0
  FromTop [] t = Unit
  FromTop (p ∷ ps) t = Names a p t

  abbrev Chain : List String → Type 0
  Chain [] = Unit
  Chain (p ∷ ps) = FromTop ps p × Chain ps

  append : {g t u : String} → Reaches a g t → Names a t u → Reaches a g u
  append (last n) m = through n (last m)
  append (through n r) m = through n (append r m)

  Chain-Reaches :
      (ps : List String) (g t : String) → Chain ps → FromTop ps t → elem g ps ≡ true → Reaches a g t
  Chain-Reaches [] g t c f h = absurd (cc)
  Chain-Reaches (p ∷ ps) g t c f h = elim (Bool-cases (str_eq p g)) [
    | inl e ↦ rw (← (eq_iff p g).0 e) (last f)
    | inr n ↦ append (Chain-Reaches ps g p c.1 c.0 (rw n at h)) f
  ]

  abbrev AllKeys : List String → Type 0
  AllKeys = All (λ x. elem x (keys a) ≡ true)

  -- A result that is a state that has visited keys only, or a cycle that is there.
  abbrev pub Decided : Result SearchState → Type 0
  Decided (ok s) = AllKeys s.visited
  Decided (err (group_cycle c)) = (g : String) × Reaches a g g
  Decided (err _) = ⊥

  record IsReady (fuel : ℕ) (s : SearchState) : Type 0 where
    same : s.visiting ≡ s.path
    chain : Chain s.path
    room : absent (keys a) s.visiting < fuel
    within : AllKeys s.visited

  abbrev IsTarget : SearchState → String → Type 0
  IsTarget s t = (elem t (keys a) ≡ true) × FromTop s.path t

  abbrev Decides : ℕ → (String → SearchState → Result SearchState) → Type 0
  Decides fuel go =
      (t : String) (s : SearchState) → IsReady fuel s → IsTarget s t → Decided (go t s)

  Decided-bind :
      (m : Result SearchState) (f : SearchState → Result SearchState)
      → Decided m
      → ((s : SearchState) → m ≡ ok s → AllKeys s.visited → Decided (f s))
      → Decided (m >>= f)
  Decided-bind (ok s) f d k = k s refl d
  Decided-bind (err (group_cycle c)) f d k = d
  Decided-bind (err _) f d k = absurd d

  each-Decided :
      (fuel : ℕ) (go : String → SearchState → Result SearchState)
      → Visits a go
      → Decides fuel go
      → (ts : List String) (s : SearchState) → IsReady fuel s
      → All (IsTarget s) ts
      → Decided (each go ts s)
  unfolding each
  each-Decided fuel go v d [] s r h = r.within
  each-Decided fuel go v d (t ∷ ts) s r h =
      Decided-bind (go t s) (each go ts) (d t s r h.0) (λ m e w.
        let (g, _) = v t s m e in
        each-Decided fuel go v d ts m
          (record {
            same = cc (g.path, g.visiting, r.same);
            chain = rw g.path r.chain;
            room = rw g.visiting r.room;
            within = w;
          })
          (rw g.path h.1))

  -- Every target is a key.
  abbrev pub IsClosed : Type 0
  IsClosed = (g : String) → All (λ t. elem t (keys a) ≡ true) (targets a g)

  leave-AllKeys :
      (name : String) (m : SearchState)
      → elem name (keys a) ≡ true
      → AllKeys m.visited
      → AllKeys (leave name m).visited
  unfolding leave
  leave-AllKeys name m h w = elim (Bool-cases (elem name m.visited)) [
    | inl e ↦ rw e w
    | inr e ↦ rw e (h, w)
  ]

  visit-Decided :
      (fuel : ℕ) (go : String → SearchState → Result SearchState)
      → IsClosed
      → Visits a go
      → Decides fuel go
      → Decides (suc fuel) (visit go a)
  unfolding enter
  visit-Decided fuel go closed v d name s r h = elim (Bool-cases (elem name s.visiting)) [
    | inl busy ↦ rw busy (name, Chain-Reaches s.path name name r.chain h.1 (rw (← r.same) busy))
    | inr free ↦ elim (Bool-cases (elem name s.visited)) [
      | inl old ↦ rw (free, old) r.within
      | inr new ↦ subst Decided (sym (chosen free new)) (
          Decided-bind (each go (targets a name) (enter name s)) (λ m. ok (leave name m))
            (each-Decided fuel go v d (targets a name) (enter name s) (ready free) inside)
            (λ m e w. leave-AllKeys name m h.0 w))
    ]
  ]
    where
      chosen :
          elem name s.visiting ≡ false
          → elem name s.visited ≡ false
          → visit go a name s ≡ (each go (targets a name) (enter name s) >>= λ m. ok (leave name m))
      chosen free new = ground (arith, free, new)

      ready : elem name s.visiting ≡ false → IsReady fuel (enter name s)
      ready free = record {
        same = ground (arith, free, r.same);
        chain = (h.1, r.chain);
        room = omega (arith, absent-add-lt name (keys a) s.visiting free h.0, r.room);
        within = r.within;
      }

      inside : All (IsTarget (enter name s)) (targets a name)
      inside =
          All-intro (IsTarget (enter name s)) (targets a name)
            (λ t n. (All-elem (λ x. elem x (keys a) ≡ true) (targets a name) t (closed name) n, n))

  dfs-Decided : (fuel : ℕ) → IsClosed → Decides fuel (dfs fuel a)
  unfolding dfs
  dfs-Decided zero closed name s r h = absurd (omega (arith, r.room))
  dfs-Decided (suc fuel) closed name s r h =
      visit-Decided fuel (dfs fuel a) closed (dfs-Visits fuel a) (dfs-Decided fuel closed) name s r
        h

  pub search_cycles-Decided : IsClosed → Decided (search_cycles a)
  unfolding search_cycles
  search_cycles-Decided closed =
      each-Decided fuel (dfs fuel a) (dfs-Visits fuel a) (dfs-Decided fuel closed) (keys a) start
        (record {
          same = refl;
          chain = tt;
          room = omega (arith, absent-le (keys a) []);
          within = tt;
        })
        (All-intro (IsTarget start) (keys a) (λ t h. (h, tt)))
    where
      fuel : ℕ
      fuel = suc (length (keys a))
