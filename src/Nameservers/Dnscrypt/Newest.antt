-- ===== src/Nameservers/Dnscrypt/Newest.antt =====
-- dns_forwarder/resolver/nameservers/dnscrypt.py: which certificate `_fetch_server_key` takes.
use python_smartdns.Prelude.{
  ℕ, ◌≤◌, ◌<◌, ltb, ltb→lt, Bool-cases, Option, none, some, List, [], ◌∷◌, ◌++◌, All, ◌≡◌, refl, ap,
  ◌∙◌, inl, inr, arith,
}
use python_smartdns.Outcome.{type_error, Outcome, done, raised}
use python_smartdns.Dns.{Wire}
use python_smartdns.Nameservers.Dnscrypt.Certified.{
  AreRead, none_left, is_read, is_skipped, Certifies-read, read-Certifies,
}
use python_smartdns.Nameservers.Dnscrypt.{
  Certificate, read_certificate, keep_newer, keep_read, select_certificate, fetch_server_key,
}

-- The certificates among the records that are signed and hold at the time.
abbrev pub and_those : Option Certificate → List Certificate → List Certificate
and_those none cs = cs
and_those (some c) cs = c ∷ cs

abbrev pub certificates : (Wire → Option Wire) → ℕ → List Wire → List Certificate
certificates verify now [] = []
certificates verify now (candidate ∷ candidates) =
    and_those (read_certificate verify now candidate) (certificates verify now candidates)

-- The first of those with the greatest serial number.
pub record IsNewest (c : Certificate) (cs : List Certificate) : Type 0 where
  pub before : List Certificate
  pub after : List Certificate
  pub stands : cs ≡ before ++ c ∷ after
  pub newer : All (λ d. d.serial < c.serial) before
  pub not_older : All (λ d. d.serial ≤ c.serial) after

-- The result: the keys of the newest certificate, or an error where there is none.
abbrev pub IsFetched : List Certificate → Outcome (Wire × Wire) → Type 0
IsFetched [] r = r ≡ raised type_error
IsFetched (d ∷ ds) r =
    (c : Certificate) × IsNewest c (d ∷ ds) × (r ≡ done (c.client_magic, c.public_key))

newest_of : List Certificate → Option Certificate → Option Certificate
newest_of [] s = s
newest_of (c ∷ cs) s = newest_of cs (keep_newer s c)

select_certificate-eq :
    (verify : Wire → Option Wire) (now : ℕ) (candidates : List Wire) (s : Option Certificate)
    → select_certificate verify now candidates s ≡ newest_of (certificates verify now candidates) s
unfolding select_certificate newest_of
select_certificate-eq verify now [] s = refl
select_certificate-eq verify now (candidate ∷ candidates) s =
    select_certificate-eq verify now candidates
      (keep_read s (read_certificate verify now candidate))
    ∙ read (read_certificate verify now candidate)
  where
    read :
        (r : Option Certificate)
        → newest_of (certificates verify now candidates) (keep_read s r)
          ≡ newest_of (and_those r (certificates verify now candidates)) s
    read none = refl
    read (some c) = refl

-- What is kept of one and the rest.
record Kept (s : Certificate) (cs : List Certificate) : Type 0 where
  c : Certificate
  taken : newest_of cs (some s) ≡ some c
  at_least : s.serial ≤ c.serial
  newest : IsNewest c (s ∷ cs)

kept_older :
    (s d : Certificate) (cs : List Certificate)
    → d.serial ≤ s.serial
    → (c : Certificate) → s.serial ≤ c.serial
    → (before after : List Certificate) → s ∷ cs ≡ before ++ c ∷ after
    → All (λ e. e.serial < c.serial) before
    → All (λ e. e.serial ≤ c.serial) after
    → IsNewest c (s ∷ d ∷ cs)
kept_older s d cs le c l [] after e b a = record {
  before = [];
  after = d ∷ after;
  stands = let same : s ≡ c = cc e in let others : cs ≡ after = cc e in cc (same, others);
  newer = tt;
  not_older = (omega (arith, le, l), a);
}
kept_older s d cs le c l (x ∷ before) after e b a =
    let same : s ≡ x = cc e in
    let n : s.serial ≡ x.serial = ap (λ (w : Certificate). w.serial) same in
    record {
      before = s ∷ d ∷ before;
      after = after;
      stands = let others : cs ≡ before ++ c ∷ after = cc e in cc others;
      newer = (omega (arith, n, b.0), (omega (arith, n, b.0, le), b.1));
      not_older = a;
    }

newest_of-Kept : (s : Certificate) (cs : List Certificate) → Kept s cs
unfolding newest_of keep_newer
newest_of-Kept s [] = record {
  c = s;
  taken = refl;
  at_least = omega arith;
  newest = record { before = []; after = []; stands = refl; newer = tt; not_older = tt };
}
newest_of-Kept s (d ∷ cs) = elim (Bool-cases (ltb s.serial d.serial)) [
  | inl e ↦
      let k = newest_of-Kept d cs in
      let lt = ltb→lt s.serial d.serial e in
      record {
        c = k.c;
        taken = rw e k.taken;
        at_least = omega (arith, lt, k.at_least);
        newest = record {
          before = s ∷ k.newest.before;
          after = k.newest.after;
          stands = ap (λ xs. s ∷ xs) k.newest.stands;
          newer = (omega (arith, lt, k.at_least), k.newest.newer);
          not_older = k.newest.not_older;
        };
      }
  | inr e ↦
      let k = newest_of-Kept s cs in
      let le : d.serial ≤ s.serial = ground (arith, e) in
      record {
        c = k.c;
        taken = rw e k.taken;
        at_least = k.at_least;
        newest =
            kept_older s d cs le k.c k.at_least k.newest.before k.newest.after k.newest.stands
              k.newest.newer k.newest.not_older;
      }
]

fetch_read-IsFetched :
    (verify : Wire → Option Wire) (now : ℕ) (candidates : List Wire)
    → IsFetched (certificates verify now candidates) (fetch_server_key verify now candidates)
unfolding fetch_server_key newest_of keep_newer
fetch_read-IsFetched verify now candidates =
    fetched (certificates verify now candidates) (select_certificate verify now candidates none)
      (select_certificate-eq verify now candidates none)
  where
    fetched :
        (cs : List Certificate) (s : Option Certificate)
        → s ≡ newest_of cs none
        → IsFetched cs
            (elim s [ none ↦ raised type_error | some c ↦ done (c.client_magic, c.public_key) ])
    fetched [] s h = rw h refl
    fetched (d ∷ ds) s h = let k = newest_of-Kept d ds in (k.c, k.newest, rw (h, k.taken) refl)

certificates-AreRead :
    (verify : Wire → Option Wire) (now : ℕ) (candidates : List Wire)
    → AreRead verify now candidates (certificates verify now candidates)
certificates-AreRead verify now [] = none_left
certificates-AreRead verify now (candidate ∷ candidates) =
    go (read_certificate verify now candidate) refl (certificates-AreRead verify now candidates)
  where
    go :
        (o : Option Certificate)
        → read_certificate verify now candidate ≡ o
        → AreRead verify now candidates (certificates verify now candidates)
        → AreRead verify now
            (candidate ∷ candidates)
            (and_those o (certificates verify now candidates))
    go none e ih = is_skipped candidate (λ c h. cc (e, Certifies-read verify now candidate c h)) ih
    go (some c) e ih = is_read candidate c (read-Certifies verify now candidate c e) ih

-- Of the records of the answer, those are read that are certificates of the first version, are signed
-- by the provider and hold at the time. The keys of the first of them with the greatest serial number
-- are taken, from the places where they stand in the signed data; where there is no such record, an
-- error is raised.
pub fetch_server_key-IsFetched :
    (verify : Wire → Option Wire) (now : ℕ) (candidates : List Wire)
    → (cs : List Certificate) × AreRead verify now candidates cs
      × IsFetched cs (fetch_server_key verify now candidates)
fetch_server_key-IsFetched verify now candidates = (
  certificates verify now candidates,
  certificates-AreRead verify now candidates,
  fetch_read-IsFetched verify now candidates,
)
