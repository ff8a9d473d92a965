-- ===== src/Nameservers/Dnscrypt/Padding.antt =====
-- dns_forwarder/resolver/nameservers/dnscrypt.py: the size of a padded query, and what it was padded
-- from.
use python_smartdns.Prelude.{
  ℕ, zero, suc, ◌+◌, ◌-◌, ◌%◌, ◌≤◌, ◌<◌, leb, Bool, true, false, ◌&&◌, ◌==◌, Option, none, some, [],
  ◌∷◌, ◌++◌, length, length-append, ◌≡◌, refl, ap, ◌∙◌, arith, if◌then◌else◌,
}
use python_smartdns.Dns.{Wire}
use python_smartdns.Nameservers.Dnscrypt.{zeros, at_least, target_size, pad_query}

-- A padding taken off: the last bytes that are not zero are one 0x80.
abbrev all_zero : Wire → Bool
all_zero [] = true
all_zero (b ∷ bs) = b == 0 && all_zero bs

abbrev put_back : ℕ → Wire → Option Wire → Option Wire
put_back b bs (some t) = some (b ∷ t)
put_back b bs none = if b == 0x80 && all_zero bs then some [] else none

abbrev pub unpad : Wire → Option Wire
unpad [] = none
unpad (b ∷ bs) = put_back b bs (unpad bs)

length-zeros : (n : ℕ) → length (zeros n) ≡ n
length-zeros zero = refl
length-zeros (suc n) = omega (arith, length-zeros n)

all_zero-zeros : (n : ℕ) → all_zero (zeros n) ≡ true
all_zero-zeros zero = refl
all_zero-zeros (suc n) = all_zero-zeros n

unpad-zeros : (n : ℕ) → unpad (zeros n) ≡ none
unpad-zeros zero = refl
unpad-zeros (suc n) = ap (put_back 0 (zeros n)) (unpad-zeros n)

unpad-append : (m : Wire) (n : ℕ) → unpad (m ++ 0x80 ∷ zeros n) ≡ some m
unpad-append [] n = ap (put_back 0x80 (zeros n)) (unpad-zeros n) ∙ rw (all_zero-zeros n) refl
unpad-append (b ∷ m) n = ap (put_back b (m ++ 0x80 ∷ zeros n)) (unpad-append m n)

target_size_bounds :
    (m : Wire)
    → (target_size m % 64 ≡ 0)
      × (256 ≤ target_size m)
      × (length m < target_size m)
      × (target_size m < at_least m + 64)
unfolding target_size
target_size_bounds m = ground arith

pub pad_query-padded :
    (message : Wire)
    → (length (pad_query message) % 64 ≡ 0)
      × (256 ≤ length (pad_query message))
      × (length message < length (pad_query message))
      × (length (pad_query message) < at_least message + 64)
      × (unpad (pad_query message) ≡ some message)
unfolding pad_query
pad_query-padded message =
    let (multiple, least, more, below) = target_size_bounds message in
    let n : ℕ = target_size message - length message - 1 in
    let long : leb (target_size message) (length message) ≡ false = ground (arith, more) in
    let size : length (message ++ 0x80 ∷ zeros n) ≡ target_size message =
      omega (arith, length-append message (0x80 ∷ zeros n), length-zeros n, more) in
    rw long (
      ap (λ (k : ℕ). k % 64) size ∙ multiple,
      omega (arith, size, least),
      omega (arith, size, more),
      omega (arith, size, below),
      unpad-append message n,
    )
