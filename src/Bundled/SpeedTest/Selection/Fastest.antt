-- ===== src/Bundled/SpeedTest/Selection/Fastest.antt =====
-- plugins/speedtest_plugin/plugin.py: which of the measured addresses are chosen.
use python_smartdns.Prelude.{
  ℕ, zero, suc, ◌+◌, ◌≤◌, true, false, Bool-cases, Option, none, some, List, [], ◌∷◌, ◌++◌, All,
  length, take, ◌≡◌, ◌⊎◌, inl, inr, refl, ap, arith,
}
use python_smartdns.Bundled.SpeedTest.{Rtt, ms, infinite, IpRttResult, SpeedTestPluginConfig}
use python_smartdns.Bundled.SpeedTest.Selection.{time_of, has_time, exceeds, truncate_from}

-- A time that is no more than the tolerance above another.
abbrev pub Near : ℕ → Rtt → Rtt → Type 0
Near tolerance infinite b = Unit
Near tolerance (ms a) (ms b) = b ≤ a + tolerance
Near tolerance (ms a) infinite = ⊥

-- Neighbours that lie no more than the threshold apart.
abbrev pub IsDense : ℕ → List IpRttResult → Type 0
IsDense threshold [] = Unit
IsDense threshold (a ∷ []) = Unit
IsDense threshold (a ∷ b ∷ items) =
    Near threshold (time_of a.best_ms) (time_of b.best_ms) × IsDense threshold (b ∷ items)

module _ (tolerance threshold limit : ℕ) (best : Rtt) where
  abbrev pub Fits : List IpRttResult → IpRttResult → Type 0
  Fits chosen item =
      Near tolerance best (time_of item.best_ms) × IsDense threshold (chosen ++ item ∷ [])

  abbrev pub IsFull : List IpRttResult → List IpRttResult → Type 0
  IsFull chosen [] = Unit
  IsFull chosen (item ∷ rest) = (length chosen ≡ limit) ⊎ (¬ Fits chosen item)

-- The longest part of a list from its start on, within_tolerance the limit, that lies near the first time and
-- is dense.
pub record IsFastest (config : SpeedTestPluginConfig) (best : Rtt) (items chosen : List IpRttResult)
    : Type 0 where
  pub rest : List IpRttResult
  pub stands : items ≡ chosen ++ rest
  pub near : All (λ item. Near config.rtt_tolerance_ms best (time_of item.best_ms)) chosen
  pub dense : IsDense config.rtt_gap_threshold_ms chosen
  pub few : length chosen ≤ config.response_ip_limit
  pub full :
      IsFull config.rtt_tolerance_ms config.rtt_gap_threshold_ms config.response_ip_limit best
        chosen rest

-- What is cut off at the gaps and at the limit, after an item.
pub record Cut (threshold n : ℕ) (p : IpRttResult) (items taken : List IpRttResult) : Type 0 where
  pub rest : List IpRttResult
  pub stands : items ≡ taken ++ rest
  pub dense : IsDense threshold (p ∷ taken)
  pub few : length taken ≤ n
  pub full :
      (rest ≡ [])
      ⊎ (length taken ≡ n)
      ⊎ ((z : IpRttResult) × (zs : List IpRttResult) × (rest ≡ z ∷ zs)
          × (¬ IsDense threshold (p ∷ taken ++ z ∷ [])))

abbrev pub IsTimed : IpRttResult → Type 0
IsTimed item = has_time item.best_ms ≡ true

gap_far :
    (threshold : ℕ) (a b : Option Rtt)
    → has_time a ≡ true
    → has_time b ≡ true
    → exceeds threshold b a ≡ true
    → ¬ Near threshold (time_of a) (time_of b)
gap_far t (some (ms a)) (some (ms b)) h k e = λ n. ground (arith, e, n)
gap_far t (some (ms a)) (some infinite) h k e = λ n. n
gap_far t (some infinite) (some (ms b)) h k e = cc e
gap_far t (some infinite) (some infinite) h k e = cc e
gap_far t none b h k e = cc h
gap_far t (some a) none h k e = cc k

gap-Near :
    (threshold : ℕ) (a b : Option Rtt)
    → has_time a ≡ true
    → has_time b ≡ true
    → exceeds threshold b a ≡ false
    → Near threshold (time_of a) (time_of b)
gap-Near t (some (ms a)) (some (ms b)) h k e = ground (arith, e)
gap-Near t (some (ms a)) (some infinite) h k e = cc e
gap-Near t (some infinite) (some b) h k e = tt
gap-Near t none b h k e = cc h
gap-Near t (some a) none h k e = cc k

pub cut :
    (threshold n : ℕ) (p : IpRttResult) (items : List IpRttResult)
    → IsTimed p
    → All IsTimed items
    → Cut threshold n p items (take n (truncate_from threshold p items))
cut t zero p items h hs = record {
  rest = items;
  stands = refl;
  dense = tt;
  few = omega arith;
  full = inr (inl refl);
}
cut t (suc n) p [] h hs = record {
  rest = [];
  stands = refl;
  dense = tt;
  few = omega arith;
  full = inl refl;
}
cut t (suc n) p (z ∷ zs) h hs = elim (Bool-cases (exceeds t z.best_ms p.best_ms)) [
  | inl e ↦ rw e (record {
    rest = z ∷ zs;
    stands = refl;
    dense = tt;
    few = omega arith;
    full = inr (inr (z, zs, refl, λ d. gap_far t p.best_ms z.best_ms h hs.0 e d.0));
  })
  | inr e ↦
      let c = cut t n z zs hs.0 hs.1 in
      rw e (record {
        rest = c.rest;
        stands = ap (λ xs. z ∷ xs) c.stands;
        dense = (gap-Near t p.best_ms z.best_ms h hs.0 e, c.dense);
        few = omega (arith, c.few);
        full = elim c.full [
          | inl f ↦ inl f
          | inr (inl f) ↦ inr (inl (omega (arith, f)))
          | inr (inr (y, ys, f, far)) ↦ inr (inr (y, ys, f, λ d. far d.1))
        ];
      })
]
