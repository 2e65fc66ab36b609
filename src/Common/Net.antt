-- ===== src/Common/Net.antt =====
-- Addresses, and the functions of the C library that they and the options are read with.
use Prim.Native.Nat.{ℕ}
use Prim.Native.String.{String}
use sistemas_distribuidos_y.Common.Int.{ℤ}

-- `struct sockaddr_in`, whose family is always `AF_INET`.
pub record SockaddrIn : Type 0 where
  pub sin_port : ℕ
  pub sin_addr : ℕ

-- The functions of the library.
pub record Libc : Type 0 where
  pub atoi : String → ℤ
  pub htons : ℤ → ℕ
  pub inet_addr : String → ℕ

-- What `set_ip_port` puts into `addr`.
abbrev pub address_of : Libc → String → ℤ → SockaddrIn
address_of libc ip port = record { sin_port = libc.htons port; sin_addr = libc.inet_addr ip }
