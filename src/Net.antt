-- ===== src/Net.antt =====
-- The network stack: common/include/common/utils.h and the parts of net/.
use otrix.Prelude.{ℕ, ◌+◌, ◌*◌, ◌/◌, ◌%◌, ◌<◌, ◌≡◌, arith}
pub mod Checksum
pub mod SockBuf
pub mod Ipv4
pub mod Arp
pub mod Tcp
pub mod TcpSocket
pub mod Icmp
mod Tests

-- `htons` and `ntohs`, `htonl` and `ntohl` on a little-endian machine.
abbrev pub swap16 : ℕ → ℕ
swap16 x = x % 256 * 256 + x / 256

abbrev pub swap32 : ℕ → ℕ
swap32 x = x % 256 * 16777216 + x / 256 % 256 * 65536 + x / 65536 % 256 * 256 + x / 16777216

-- `ntohs` and `ntohl` undo `htons` and `htonl` on 16 and 32 bits.
pub swap-swap :
    (x y : ℕ) → x < 65536 → y < 4294967296 → (swap16 (swap16 x) ≡ x) × (swap32 (swap32 y) ≡ y)
swap-swap x y hx hy = (omega arith, omega arith)
