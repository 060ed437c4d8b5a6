-- ===== src/LinuxOs/Netfilter/Bytes.antt =====
-- Bytes of numbers and texts, for rustlib/src/bin/obscura/service/os/linux/netfilter.rs.
use Prim.Native.Char.{code}
use Prim.Native.String.{String, [] as end, ◌∷◌ as letter}
use obscuravpn_client.Prelude.{
  ℕ, zero, suc, ◌/◌, ◌%◌, Bool, true, false, ◌&&◌, List, [], ◌∷◌, ◌++◌, ◌==◌,
}

-- `as_bytes` of an ASCII text.
unfoldable pub as_bytes : String → List ℕ
as_bytes end = []
as_bytes (letter c s) = code c ∷ as_bytes s

-- So many bytes of a number, lowest first: `to_ne_bytes` of a little-endian machine.
unfoldable pub le_bytes : ℕ → ℕ → List ℕ
le_bytes zero n = []
le_bytes (suc k) n = n % 256 ∷ le_bytes k (n / 256)

-- Highest first: `to_be_bytes` and `octets`.
unfoldable pub be_bytes_before : ℕ → ℕ → List ℕ → List ℕ
be_bytes_before zero n rest = rest
be_bytes_before (suc k) n rest = be_bytes_before k (n / 256) (n % 256 ∷ rest)

unfoldable pub be_bytes : ℕ → ℕ → List ℕ
be_bytes k n = be_bytes_before k n []

unfoldable pub nul_terminated : List ℕ → List ℕ
nul_terminated value = value ++ (0 ∷ [])

unfoldable pub same_bytes : List ℕ → List ℕ → Bool
same_bytes [] [] = true
same_bytes [] (b ∷ bs) = false
same_bytes (a ∷ as_) [] = false
same_bytes (a ∷ as_) (b ∷ bs) = a == b && same_bytes as_ bs
