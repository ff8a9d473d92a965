-- ===== src/Plugins/Order.antt =====
-- dns_forwarder/plugin_api/base.py: the order in which the manager runs the plugins.
use python_smartdns.Prelude.{
  Bool, true, false, ◌&&◌, Bool-cases, List, [], ◌∷◌, filterb, All, ◌≡◌, refl, ap, ◌∙◌, arith, inl,
  inr, if◌then◌else◌,
}
use python_smartdns.Prelude.Int.{ℤ, ◌≤ℤ◌, leb_ℤ}
use python_smartdns.Plugins.{Plugin, insert_by, ordered_plugins}

≤ℤ_leb : (a b : ℤ) → leb_ℤ a b ≡ true → a ≤ℤ b
≤ℤ_leb a b h = ground (arith, h)

≤ℤ_leb_not : (a b : ℤ) → leb_ℤ a b ≡ false → b ≤ℤ a
≤ℤ_leb_not a b h = ground (arith, h)

≤ℤ_trans : (a b c : ℤ) → a ≤ℤ b → b ≤ℤ c → a ≤ℤ c
≤ℤ_trans a b c h k = omega (arith, h, k)

-- `key p == k`
abbrev pub same_order : ℤ → ℤ → Bool
same_order k a = leb_ℤ k a && leb_ℤ a k

later-differs : (a b k : ℤ) → leb_ℤ a b ≡ false → same_order k a ≡ true → same_order k b ≡ false
later-differs a b k h e = ground (arith, h, e)

module _ (key : Plugin → ℤ) where
  abbrev pub IsOrdered : List Plugin → Type 0
  IsOrdered [] = Unit
  IsOrdered (p ∷ ps) = All (λ q. key p ≤ℤ key q) ps × IsOrdered ps

  -- The plugins of one order, in the order in which they stand.
  abbrev pub of_order : ℤ → List Plugin → List Plugin
  of_order k ps = filterb (λ p. same_order k (key p)) ps

  All-insert :
      (a : ℤ) (p : Plugin) (qs : List Plugin)
      → a ≤ℤ key p
      → All (λ q. a ≤ℤ key q) qs
      → All (λ q. a ≤ℤ key q) (insert_by key p qs)
  unfolding insert_by
  All-insert a p [] h k = (h, tt)
  All-insert a p (q ∷ qs) h k = elim (Bool-cases (leb_ℤ (key p) (key q))) [
    | inl b ↦ rw b (h, k)
    | inr b ↦ rw b (k.0, All-insert a p qs h k.1)
  ]

  All-above :
      (a b : ℤ) (qs : List Plugin) → a ≤ℤ b → All (λ q. b ≤ℤ key q) qs → All (λ q. a ≤ℤ key q) qs
  All-above a b [] h k = tt
  All-above a b (q ∷ qs) h k = (≤ℤ_trans a b (key q) h k.0, All-above a b qs h k.1)

  insert_by-IsOrdered :
      (p : Plugin) (qs : List Plugin) → IsOrdered qs → IsOrdered (insert_by key p qs)
  unfolding insert_by
  insert_by-IsOrdered p [] h = (tt, tt)
  insert_by-IsOrdered p (q ∷ qs) h = elim (Bool-cases (leb_ℤ (key p) (key q))) [
    | inl b ↦
        let low : key p ≤ℤ key q = ≤ℤ_leb (key p) (key q) b in
        rw b ((low, All-above (key p) (key q) qs low h.0), h)
    | inr b ↦
        rw b
          (All-insert (key q) p qs (≤ℤ_leb_not (key p) (key q) b) h.0, insert_by-IsOrdered p qs h.1)
  ]

  of_order-insert_by :
      (k : ℤ) (p : Plugin) (qs : List Plugin)
      → of_order k (insert_by key p qs) ≡ of_order k (p ∷ qs)
  unfolding insert_by
  of_order-insert_by k p [] = refl
  of_order-insert_by k p (q ∷ qs) = elim (Bool-cases (leb_ℤ (key p) (key q))) [
    | inl b ↦ rw b refl
    | inr b ↦ elim (Bool-cases (same_order k (key p))) [
      | inl s ↦ rw (b, later-differs (key p) (key q) k b s, of_order-insert_by k p qs, s) refl
      | inr s ↦ rw (b, of_order-insert_by k p qs, s) refl
    ]
  ]

  ordered_plugins-IsOrdered : (ps : List Plugin) → IsOrdered (ordered_plugins key ps)
  unfolding ordered_plugins
  ordered_plugins-IsOrdered [] = tt
  ordered_plugins-IsOrdered (p ∷ ps) =
      insert_by-IsOrdered p (ordered_plugins key ps) (ordered_plugins-IsOrdered ps)

  of_order-ordered_plugins :
      (k : ℤ) (ps : List Plugin) → of_order k (ordered_plugins key ps) ≡ of_order k ps
  unfolding ordered_plugins
  of_order-ordered_plugins k [] = refl
  of_order-ordered_plugins k (p ∷ ps) =
      of_order-insert_by k p (ordered_plugins key ps)
      ∙ ap (λ rest. if same_order k (key p) then p ∷ rest else rest) (of_order-ordered_plugins k ps)

-- The second list has the plugins of the first by their order, ascending, and those of one order as
-- they stand there.
abbrev pub Follows : (Plugin → ℤ) → List Plugin → List Plugin → Type 0
Follows key ps qs = IsOrdered key qs × ((k : ℤ) → of_order key k qs ≡ of_order key k ps)

pub ordered_plugins-Follows :
    (key : Plugin → ℤ) (ps : List Plugin) → Follows key ps (ordered_plugins key ps)
ordered_plugins-Follows key ps =
    (ordered_plugins-IsOrdered key ps, λ k. of_order-ordered_plugins key k ps)
