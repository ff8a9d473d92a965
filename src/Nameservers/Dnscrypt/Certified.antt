-- ===== src/Nameservers/Dnscrypt/Certified.antt =====
-- dns_forwarder/resolver/nameservers/dnscrypt.py: which records of the answer are certificates.
use python_smartdns.Prelude.{
  ℕ, ◌*◌, ◌≤◌, ◌<◌, ltb, leb, ◌==◌, ◌||◌, true, false, Bool-cases, Option, none, some, List, [],
  ◌∷◌, length, take, drop, ◌≡◌, refl, sym, ap, inl, inr, arith,
}
use python_smartdns.Dns.{Wire}
use python_smartdns.Nameservers.Dnscrypt.{
  same_bytes, big_endian, slice, dnscrypt_cert_magic, nanoseconds, Certificate, valid_certificate,
  read_certificate,
}

same_bytes-eq : (s t : Wire) → same_bytes s t ≡ true → s ≡ t
same_bytes-eq [] [] h = refl
same_bytes-eq [] (b ∷ t) h = cc h
same_bytes-eq (a ∷ s) [] h = cc h
same_bytes-eq (a ∷ s) (b ∷ t) h =
    let rest = same_bytes-eq s t (ground (arith, h)) in
    let first : a ≡ b = ground (arith, h) in cc (first, rest)

same_bytes_refl : (s : Wire) → same_bytes s s ≡ true
same_bytes_refl [] = refl
same_bytes_refl (a ∷ s) = ground (arith, same_bytes_refl s)

-- The data of a signature holds at the time, in nanoseconds, and the certificate has its fields: the
-- key, the magic of the client, the serial number, and the seconds of the start and of the end.
pub record Holds (now : ℕ) (bytes : Wire) (c : Certificate) : Type 0 where
  pub whole : 52 < length bytes
  pub public_key : c.public_key ≡ take 32 bytes
  pub client_magic : c.client_magic ≡ take 8 (drop 32 bytes)
  pub serial : c.serial ≡ big_endian 0 (take 4 (drop 40 bytes))
  pub started : big_endian 0 (take 4 (drop 44 bytes)) * 1000000000 ≤ now
  pub unexpired : now ≤ big_endian 0 (take 4 (drop 48 bytes)) * 1000000000

-- The record is a certificate of the first version, and the provider's key has signed data that holds.
pub record Certifies (verify : Wire → Option Wire) (now : ℕ) (candidate : Wire) (c : Certificate)
    : Type 0 where
  pub long : 8 < length candidate
  pub magic : take 4 candidate ≡ b'D' ∷ b'N' ∷ b'S' ∷ b'C' ∷ []
  pub version : big_endian 0 (take 2 (drop 4 candidate)) ≡ 1
  pub bytes : Wire
  pub signed : verify (drop 8 candidate) ≡ some bytes
  pub holds : Holds now bytes c

abbrev fields_of : Wire → Certificate
fields_of bytes = record {
  public_key = slice 0 32 bytes;
  client_magic = slice 32 8 bytes;
  serial = big_endian 0 (slice 40 4 bytes);
}

Holds-valid :
    (now : ℕ) (bytes : Wire) (c : Certificate)
    → Holds now bytes c
    → valid_certificate now bytes ≡ some c
unfolding valid_certificate
Holds-valid now bytes c h =
    let long : leb (length bytes) 52 ≡ false = ground (arith, h.whole) in
    let timely : (ltb now (big_endian 0 (slice 44 4 bytes) * nanoseconds)
          || ltb (big_endian 0 (slice 48 4 bytes) * nanoseconds) now)
        ≡ false =
      ground (arith, h.started, h.unexpired) in
    rw (long, timely) (cc (h.public_key, h.client_magic, h.serial))

valid-Holds :
    (now : ℕ) (bytes : Wire) (c : Certificate)
    → valid_certificate now bytes ≡ some c
    → Holds now bytes c
unfolding valid_certificate
valid-Holds now bytes c h = elim (Bool-cases (leb (length bytes) 52)) [
  | inl a ↦ absurd (cc (rw a at h))
  | inr a ↦
      elim (Bool-cases (
        ltb now (big_endian 0 (slice 44 4 bytes) * nanoseconds)
        || ltb (big_endian 0 (slice 48 4 bytes) * nanoseconds) now)) [
          | inl b ↦ absurd (cc (rw (a, b) at h))
          | inr b ↦
              let same : some (fields_of bytes) ≡ some c = rw (a, b) at h in
              let e : fields_of bytes ≡ c = cc same in
              record {
                whole = ground (arith, a);
                public_key = ap (λ (d : Certificate). d.public_key) (sym e);
                client_magic = ap (λ (d : Certificate). d.client_magic) (sym e);
                serial = ap (λ (d : Certificate). d.serial) (sym e);
                started = ground (arith, b);
                unexpired = ground (arith, b);
              }
        ]
]

module _ (verify : Wire → Option Wire) (now : ℕ) (candidate : Wire) (c : Certificate) where
  pub Certifies-read :
      Certifies verify now candidate c → read_certificate verify now candidate ≡ some c
  unfolding read_certificate
  Certifies-read h =
      let long : leb (length candidate) 8 ≡ false = ground (arith, h.long) in
      let kind : same_bytes (slice 0 4 candidate) dnscrypt_cert_magic ≡ true =
        ap (λ m. same_bytes m dnscrypt_cert_magic) h.magic in
      let version : (big_endian 0 (slice 4 2 candidate) == 1) ≡ true = ground (arith, h.version) in
      rw (long, kind, version, h.signed) (Holds-valid now h.bytes c h.holds)

  pub read-Certifies :
      read_certificate verify now candidate ≡ some c → Certifies verify now candidate c
  unfolding read_certificate
  read-Certifies h = elim (Bool-cases (leb (length candidate) 8)) [
    | inl a ↦ absurd (cc (rw a at h))
    | inr a ↦ elim (Bool-cases (same_bytes (slice 0 4 candidate) dnscrypt_cert_magic)) [
      | inr b ↦ absurd (cc (rw (a, b) at h))
      | inl b ↦ elim (Bool-cases (big_endian 0 (slice 4 2 candidate) == 1)) [
        | inr v ↦ absurd (cc (rw (a, b, v) at h))
        | inl v ↦ signed a b v (verify (drop 8 candidate)) refl (rw (a, b, v) at h)
      ]
    ]
  ]
    where
      signed :
          leb (length candidate) 8 ≡ false
          → same_bytes (slice 0 4 candidate) dnscrypt_cert_magic ≡ true
          → (big_endian 0 (slice 4 2 candidate) == 1) ≡ true
          → (o : Option Wire) → verify (drop 8 candidate) ≡ o
          → (elim o as (λ _. Option Certificate) [
            | none ↦ none
            | some bytes ↦ valid_certificate now bytes
          ])
            ≡ some c
          → Certifies verify now candidate c
      signed a b v none e k = absurd (cc k)
      signed a b v (some bytes) e k = record {
        long = ground (arith, a);
        magic = same_bytes-eq (slice 0 4 candidate) dnscrypt_cert_magic b;
        version = ground (arith, v);
        bytes = bytes;
        signed = e;
        holds = valid-Holds now bytes c k;
      }

-- The certificates among the records, in their order.
pub data AreRead (verify : Wire → Option Wire) (now : ℕ)
    : List Wire → List Certificate → Type 0 where
  none_left : AreRead verify now [] []
  is_read :
      {candidates : List Wire} {cs : List Certificate} (candidate : Wire) (c : Certificate)
      → Certifies verify now candidate c
      → AreRead verify now candidates cs
      → AreRead verify now (candidate ∷ candidates) (c ∷ cs)
  is_skipped :
      {candidates : List Wire} {cs : List Certificate} (candidate : Wire)
      → ((c : Certificate) → ¬ Certifies verify now candidate c)
      → AreRead verify now candidates cs
      → AreRead verify now (candidate ∷ candidates) cs
