-- ===== src/Examples/Dnscrypt.antt =====
-- A query that is padded and sealed, and two certificates.
use python_smartdns.Prelude.{ℕ, some, List, [], ◌∷◌, ◌++◌, ◌≡◌, refl}
use python_smartdns.Outcome.{done}
use python_smartdns.Dns.{Wire}
use python_smartdns.Nameservers.Dnscrypt.Certified.{AreRead}
use python_smartdns.Nameservers.Dnscrypt.{
  Certificate, zeros, SecretBox, encrypt_query, valid_certificate, read_certificate, keep_newer,
  select_certificate, fetch_server_key,
}
use python_smartdns.Nameservers.Dnscrypt.Sealed.{read_query, encrypt_query-read_query}
use python_smartdns.Nameservers.Dnscrypt.Newest.{IsFetched, fetch_server_key-IsFetched}

abbrev small : Wire
small = 1 ∷ 2 ∷ 0 ∷ []

-- A box that seals nothing.
abbrev clear : SecretBox
clear = record { encrypt = λ m n. n ++ m; decrypt = λ m n. done m; own_key = zeros 32 }

encrypt_query-read_query_example :
    read_query (λ m n. some m) (encrypt_query clear (zeros 8) (zeros 12) small) ≡ some small
encrypt_query-read_query_example =
    encrypt_query-read_query clear (λ m n. m) (λ m n. some m) (zeros 8) (zeros 12) small
      (λ m n. refl) (λ m n. refl) refl refl refl

-- A certificate of version 1 with the serial number, valid from 1 to 9.
abbrev signed : ℕ → Wire
signed serial =
    (b'D' ∷ b'N' ∷ b'S' ∷ b'C' ∷ 0 ∷ 1 ∷ 0 ∷ 0 ∷ [])
    ++ (zeros 40 ++ (0 ∷ 0 ∷ 0 ∷ serial ∷ 0 ∷ 0 ∷ 0 ∷ 1 ∷ 0 ∷ 0 ∷ 0 ∷ 9 ∷ 7 ∷ []))

abbrev expired : Wire
expired =
    (b'D' ∷ b'N' ∷ b'S' ∷ b'C' ∷ 0 ∷ 1 ∷ 0 ∷ 0 ∷ [])
    ++ (zeros 40 ++ (0 ∷ 0 ∷ 0 ∷ 8 ∷ 0 ∷ 0 ∷ 0 ∷ 1 ∷ 0 ∷ 0 ∷ 0 ∷ 2 ∷ 7 ∷ []))

abbrev offered : List Wire
offered = signed 4 ∷ small ∷ expired ∷ signed 5 ∷ []

fetched : fetch_server_key (λ m. some m) 3000000000 offered ≡ done (zeros 8, zeros 32)
unfolding fetch_server_key select_certificate read_certificate valid_certificate keep_newer
fetched = refl

fetch_server_key-IsFetched_example :
    (cs : List Certificate) × AreRead (λ m. some m) 3000000000 offered cs
    × IsFetched cs (fetch_server_key (λ m. some m) 3000000000 offered)
fetch_server_key-IsFetched_example = fetch_server_key-IsFetched (λ m. some m) 3000000000 offered
