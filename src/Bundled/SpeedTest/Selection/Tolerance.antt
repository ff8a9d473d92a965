-- ===== src/Bundled/SpeedTest/Selection/Tolerance.antt =====
-- plugins/speedtest_plugin/plugin.py: what the tolerance leaves of the sorted items.
use mathlib.Core.List.{append-nil}
use python_smartdns.Prelude.{
  ℕ, ◌-◌, true, false, leb, Bool-cases, Option, none, some, List, [], ◌∷◌, ◌++◌, All, ◌≡◌, ◌⊎◌, inl,
  inr, refl, sym, ap, subst, arith,
}
use python_smartdns.Bundled.SpeedTest.{Rtt, ms, infinite, IpRttResult}
use python_smartdns.Bundled.SpeedTest.Selection.{
  time_of, has_time, within_tolerance, filter_step, filter_items, or_sorted,
}
use python_smartdns.Bundled.SpeedTest.Selection.Fastest.{Near, IsTimed}

-- What the tolerance leaves of the items.
pub record Left (tolerance : ℕ) (best : Rtt) (items left : List IpRttResult) : Type 0 where
  pub rest : List IpRttResult
  pub stands : items ≡ left ++ rest
  pub near : All (λ item. Near tolerance best (time_of item.best_ms)) left
  pub timed : All IsTimed left
  pub far :
      (rest ≡ [])
      ⊎ ((z : IpRttResult) × (zs : List IpRttResult) × (rest ≡ z ∷ zs)
          × (¬ Near tolerance best (time_of z.best_ms)))

within-Near :
    (tolerance b : ℕ) (r : Rtt)
    → within_tolerance tolerance r (ms b) ≡ true
    → Near tolerance (ms b) r
within-Near t b (ms a) h = ground (arith, h)
within-Near t b infinite h = cc h

within_far :
    (tolerance b : ℕ) (r : Rtt)
    → within_tolerance tolerance r (ms b) ≡ false
    → ¬ Near tolerance (ms b) r
within_far t b (ms a) h n = ground (arith, h, n)
within_far t b infinite h n = n

filter-Left :
    (tolerance b : ℕ) (items : List IpRttResult)
    → All IsTimed items
    → Left tolerance (ms b) items (filter_items tolerance (some (ms b)) items)
unfolding filter_items
filter-Left t b [] hs = record { rest = []; stands = refl; near = tt; timed = tt; far = inl refl }
filter-Left t b (item ∷ items) hs = step item.best_ms refl hs.0 (filter-Left t b items hs.1)
  where
    step :
        (o : Option Rtt)
        → item.best_ms ≡ o
        → has_time o ≡ true
        → Left t (ms b) items (filter_items t (some (ms b)) items)
        → Left t
            (ms b)
            (item ∷ items)
            (filter_step t (some (ms b)) item o (λ best. filter_items t best items))
    step none e h ih = absurd (cc h)
    step (some r) e h ih = elim (Bool-cases (within_tolerance t r (ms b))) [
      | inl w ↦ rw w (record {
        rest = ih.rest;
        stands = ap (λ xs. item ∷ xs) ih.stands;
        near = (subst (λ o. Near t (ms b) (time_of o)) (sym e) (within-Near t b r w), ih.near);
        timed = (hs.0, ih.timed);
        far = ih.far;
      })
      | inr w ↦ rw w (record {
        rest = item ∷ items;
        stands = refl;
        near = tt;
        timed = tt;
        far = inr (
          item,
          items,
          refl,
          λ n. within_far t b r w (subst (λ o. Near t (ms b) (time_of o)) e n),
        );
      })
    ]

-- The items after the tolerance: the first one stays, and where its time is infinite, so do all.
Near-infinite :
    (tolerance : ℕ) (items : List IpRttResult)
    → All (λ item. Near tolerance infinite (time_of item.best_ms)) items
Near-infinite t [] = tt
Near-infinite t (item ∷ items) = (tt, Near-infinite t items)

pub filter_first :
    (tolerance : ℕ) (first : IpRttResult) (others : List IpRttResult)
    → IsTimed first
    → All IsTimed others
    → (left : List IpRttResult) × (or_sorted
          (filter_items tolerance none (first ∷ others))
          (first ∷ others)
        ≡ first ∷ left)
      × Left tolerance (time_of first.best_ms) others left
unfolding filter_items
filter_first t first others h hs = step first.best_ms h
  where
    step :
        (o : Option Rtt)
        → has_time o ≡ true
        → (left : List IpRttResult) × (or_sorted
              (filter_step t none first o (λ best. filter_items t best others))
              (first ∷ others)
            ≡ first ∷ left)
          × Left t (time_of o) others left
    step none k = absurd (cc k)
    step (some infinite) k = (
      others,
      refl,
      record {
        rest = [];
        stands = sym (append-nil others);
        near = Near-infinite t others;
        timed = hs;
        far = inl refl;
      },
    )
    step (some (ms b)) k =
        let same : leb (b - b) t ≡ true = ground arith in
        (filter_items t (some (ms b)) others, rw same refl, filter-Left t b others hs)

pub Near-self : (tolerance : ℕ) (r : Rtt) → Near tolerance r r
Near-self t (ms a) = omega arith
Near-self t infinite = tt

pub All-prefix {ℓ} :
    (P : IpRttResult → Type ℓ) (xs ys zs : List IpRttResult) → zs ≡ xs ++ ys → All P zs → All P xs
All-prefix P xs ys zs e h = part xs (subst (All P) e h)
  where
    part : (xs : List IpRttResult) → All P (xs ++ ys) → All P xs
    part [] k = tt
    part (x ∷ xs) k = (k.0, part xs k.1)
