-- ===== src/Identity.antt =====
-- The nine-digit desk id: the constructor of SessionClient.cpp and `rap_mobile_get_p2p_id`. The first
-- three bytes of the hash, and the decimal digits that `QString::number` writes, are arguments.
pub mod Bounds
use remote_access_platform.Prelude.{
  ℕ, ◌+◌, ◌-◌, ◌*◌, ◌%◌, ◌^◌, List, ◌∷◌, ◌++◌, bit_or, length, take, drop,
}
use remote_access_platform.Qt.{Text}

-- `(hash[0] << 16) | (hash[1] << 8) | hash[2]`
unfoldable pub hash_number : ℕ → ℕ → ℕ → ℕ
hash_number b0 b1 b2 = bit_or (bit_or (b0 * 2 ^ 16) (b1 * 2 ^ 8)) b2

unfoldable pub desk_number : ℕ → ℕ → ℕ → ℕ
desk_number b0 b1 b2 = hash_number b0 b1 b2 % 900000000 + 100000000

-- `left(3) + " " + mid(3, 3) + " " + right(3)`
unfoldable pub format_id : Text → Text
format_id digits =
    take 3 digits ++ (b' ' ∷ (take 3 (drop 3 digits) ++ (b' ' ∷ drop (length digits - 3) digits)))
