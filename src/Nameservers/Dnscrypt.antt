-- ===== src/Nameservers/Dnscrypt.antt =====
-- dns_forwarder/resolver/nameservers/dnscrypt.py. Keys, signatures and boxes are PyNaCl's, arguments.
pub mod Padding
pub mod Sealed
pub mod Certified
pub mod Newest
use python_smartdns.Prelude.{
  ℕ, zero, suc, ◌+◌, ◌-◌, ◌*◌, ◌%◌, ltb, leb, Bool, true, false, not, ◌&&◌, ◌||◌, ◌==◌, Option,
  none, some, List, [], ◌∷◌, ◌++◌, length, take, drop, if◌then◌else◌,
}
use python_smartdns.Outcome.{Exn, form_error, type_error, Outcome, done, raised, ◌>>=◌}
use python_smartdns.Dns.{Message, Wire}

abbrev pub dnscrypt_minimum_size : ℕ
dnscrypt_minimum_size = 256

abbrev pub dnscrypt_modulo_size : ℕ
dnscrypt_modulo_size = 64

abbrev pub dnscrypt_nonce_size : ℕ
dnscrypt_nonce_size = 12

abbrev pub dnscrypt_resolver_magic : Wire
dnscrypt_resolver_magic = b'r' ∷ b'6' ∷ b'f' ∷ b'n' ∷ b'v' ∷ b'W' ∷ b'j' ∷ b'8' ∷ []

abbrev pub dnscrypt_cert_magic : Wire
dnscrypt_cert_magic = b'D' ∷ b'N' ∷ b'S' ∷ b'C' ∷ []

abbrev pub same_bytes : Wire → Wire → Bool
same_bytes [] [] = true
same_bytes [] (b ∷ t) = false
same_bytes (a ∷ s) [] = false
same_bytes (a ∷ s) (b ∷ t) = a == b && same_bytes s t

abbrev pub zeros : ℕ → Wire
zeros zero = []
zeros (suc n) = 0 ∷ zeros n

-- `target_size` in `_pad_query`, at its start and at its end
abbrev pub at_least : Wire → ℕ
at_least message =
    if ltb (length message + 1) dnscrypt_minimum_size
    then dnscrypt_minimum_size
    else length message + 1

unfoldable pub target_size : Wire → ℕ
target_size message =
    let remainder = at_least message % dnscrypt_modulo_size in
    if remainder == 0
    then at_least message
    else at_least message + (dnscrypt_modulo_size - remainder)

unfoldable pub pad_query : Wire → Wire
pad_query message =
    if leb (target_size message) (length message)
    then message
    else message ++ 0x80 ∷ zeros (target_size message - length message - 1)

-- An unsigned number, most significant byte first.
abbrev pub big_endian : ℕ → Wire → ℕ
big_endian acc [] = acc
big_endian acc (b ∷ bs) = big_endian (acc * 256 + b) bs

abbrev pub slice : ℕ → ℕ → Wire → Wire
slice from size bytes = take size (drop from bytes)

-- The fields of a certificate that are used.
pub record Certificate : Type 0 where
  pub client_magic : Wire
  pub public_key : Wire
  pub serial : ℕ

abbrev pub nanoseconds : ℕ
nanoseconds = 1000000000

-- The certificate in the data that a signature covers, if it holds at the time, which is counted in
-- nanoseconds.
unfoldable pub valid_certificate : ℕ → Wire → Option Certificate
valid_certificate now bytes =
    if leb (length bytes) 52
    then none
    else if ltb now (big_endian 0 (slice 44 4 bytes) * nanoseconds)
        || ltb (big_endian 0 (slice 48 4 bytes) * nanoseconds) now
    then none
    else some (record {
      public_key = slice 0 32 bytes;
      client_magic = slice 32 8 bytes;
      serial = big_endian 0 (slice 40 4 bytes);
    })

-- The body of the loop over the records: `verify` gives the data of a good signature.
unfoldable pub read_certificate : (Wire → Option Wire) → ℕ → Wire → Option Certificate
read_certificate verify now candidate =
    if leb (length candidate) 8
    then none
    else if not (same_bytes (slice 0 4 candidate) dnscrypt_cert_magic)
        || not (big_endian 0 (slice 4 2 candidate) == 1)
    then none
    else elim (verify (drop 8 candidate)) [ none ↦ none | some bytes ↦ valid_certificate now bytes ]

-- `if selected is None or serial > selected[0]`
unfoldable pub keep_newer : Option Certificate → Certificate → Option Certificate
keep_newer none c = some c
keep_newer (some s) c = if ltb s.serial c.serial then some c else some s

abbrev pub keep_read : Option Certificate → Option Certificate → Option Certificate
keep_read selected none = selected
keep_read selected (some c) = keep_newer selected c

unfoldable pub select_certificate :
    (Wire → Option Wire) → ℕ → List Wire → Option Certificate → Option Certificate
select_certificate verify now [] selected = selected
select_certificate verify now (candidate ∷ candidates) selected =
    select_certificate verify now candidates
      (keep_read selected (read_certificate verify now candidate))

-- The end of `_fetch_server_key`, from the answer on
unfoldable pub fetch_server_key : (Wire → Option Wire) → ℕ → List Wire → Outcome (Wire × Wire)
fetch_server_key verify now candidates = elim (select_certificate verify now candidates none) [
  | none ↦ raised type_error
  | some c ↦ done (c.client_magic, c.public_key)
]

-- The box of PyNaCl for the two keys, and the client's own public key.
pub record SecretBox : Type 0 where
  pub encrypt : Wire → Wire → Wire
  pub decrypt : Wire → Wire → Outcome Wire
  pub own_key : Wire

unfoldable pub encrypt_query : SecretBox → Wire → Wire → Wire → Wire
encrypt_query box client_magic client_nonce wire =
    let encrypted = box.encrypt (pad_query wire) (client_nonce ++ zeros dnscrypt_nonce_size) in
    client_magic
    ++ (box.own_key
        ++ (take dnscrypt_nonce_size encrypted ++ drop (dnscrypt_nonce_size * 2) encrypted))

unfoldable pub decrypt_response : SecretBox → (Wire → Outcome Message) → Wire → Outcome Message
decrypt_response box from_wire wire =
    if ltb (length wire) 32
    then raised form_error
    else if not (same_bytes (slice 0 8 wire) dnscrypt_resolver_magic)
    then raised form_error
    else box.decrypt (drop 32 wire) (slice 8 24 wire) >>= from_wire

-- `DNSCryptResolver.query`: `is_truncated` is the flag TC of a response.
unfoldable pub query_server :
    Bool → Bool → (Message → Bool) → Outcome Message → Outcome Message → Outcome Message
query_server max_size tcp_only is_truncated udp tcp =
    if max_size || tcp_only
    then tcp
    else udp >>= λ response. if is_truncated response then tcp else done response
