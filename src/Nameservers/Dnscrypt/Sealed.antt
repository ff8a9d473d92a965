-- ===== src/Nameservers/Dnscrypt/Sealed.antt =====
-- dns_forwarder/resolver/nameservers/dnscrypt.py: what a server reads of an encrypted query.
use mathlib.Core.List.{append_assoc}
use python_smartdns.Prelude.{
  Option, none, some, ◌++◌, length, length-append, take, drop, take-append, drop-append, ◌≡◌, sym,
  ap, ◌∙◌, arith,
}
use python_smartdns.Dns.{Wire}
use python_smartdns.Nameservers.Dnscrypt.{zeros, slice, pad_query, SecretBox, encrypt_query}
use python_smartdns.Nameservers.Dnscrypt.Padding.{unpad, pad_query-padded}

-- How DNSCrypt reads a query: 8 bytes of the client's magic, 32 of its key, 12 of the nonce, which 12
-- zeros make whole, and the box, with a padded message in it.
abbrev pub unpad_opened : Option Wire → Option Wire
unpad_opened none = none
unpad_opened (some padded) = unpad padded

abbrev pub read_query : (Wire → Wire → Option Wire) → Wire → Option Wire
read_query open_box wire = unpad_opened (open_box (drop 52 wire) (slice 40 12 wire ++ zeros 12))

-- If the box is given behind its nonce, as PyNaCl does, and can be opened with the nonce, then a
-- server that reads an encrypted query has the query again, whatever its length.
pub encrypt_query-read_query :
    (box : SecretBox) (seal : Wire → Wire → Wire) (open_box : Wire → Wire → Option Wire)
    (client_magic client_nonce query : Wire)
    → ((m n : Wire) → box.encrypt m n ≡ n ++ seal m n)
    → ((m n : Wire) → open_box (seal m n) n ≡ some m)
    → length client_magic ≡ 8
    → length box.own_key ≡ 32
    → length client_nonce ≡ 12
    → read_query open_box (encrypt_query box client_magic client_nonce query) ≡ some query
unfolding encrypt_query
encrypt_query-read_query box seal open_box magic nonce query behind opens m k n =
    let padded = pad_query query in
    let whole = nonce ++ zeros 12 in
    let sealed = seal padded whole in
    let key = box.own_key in
    let head : take 12 (whole ++ sealed) ≡ nonce =
      ap (take 12) (append_assoc nonce (zeros 12) sealed)
      ∙ take-append nonce (zeros 12 ++ sealed) 12 n in
    let tail : drop 24 (whole ++ sealed) ≡ sealed =
      drop-append whole sealed 24 (omega (arith, length-append nonce (zeros 12), n)) in
    let layout : encrypt_query box magic nonce query ≡ (magic ++ key) ++ (nonce ++ sealed) =
      rw (behind padded whole, head, tail) (sym (append_assoc magic key (nonce ++ sealed))) in
    let front : length (magic ++ key) ≡ 40 = omega (arith, length-append magic key, m, k) in
    let at_nonce : drop 40 ((magic ++ key) ++ (nonce ++ sealed)) ≡ nonce ++ sealed =
      drop-append (magic ++ key) (nonce ++ sealed) 40 front in
    let at_box : drop 52 ((magic ++ key) ++ (nonce ++ sealed)) ≡ sealed =
      ap (drop 52) (sym (append_assoc (magic ++ key) nonce sealed))
      ∙ drop-append ((magic ++ key) ++ nonce) sealed 52
          (omega (arith, length-append (magic ++ key) nonce, front, n)) in
    let part : take 12 (drop 40 ((magic ++ key) ++ (nonce ++ sealed))) ≡ nonce =
      ap (take 12) at_nonce ∙ take-append nonce sealed 12 n in
    let opened : open_box (drop 52 ((magic ++ key) ++ (nonce ++ sealed)))
          (slice 40 12 ((magic ++ key) ++ (nonce ++ sealed)) ++ zeros 12)
        ≡ some padded =
      ap (λ t. open_box t (slice 40 12 ((magic ++ key) ++ (nonce ++ sealed)) ++ zeros 12)) at_box
      ∙ ap (λ t. open_box sealed (t ++ zeros 12)) part
      ∙ opens padded whole in
    ap (read_query open_box) layout ∙ ap unpad_opened opened ∙ (pad_query-padded query).4
