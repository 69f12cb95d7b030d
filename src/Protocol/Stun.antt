-- ===== src/Protocol/Stun.antt =====
-- libs/protocol/src/StunClient.cpp: a binding request, and what is read out of a response.
use remote_access_platform.Prelude.{
  ℕ, ◌≤◌, ◌≡◌, List, [], ◌++◌, Bool, false, not, Option, none, some, length, take, drop, replicate,
  ltb, ◌==◌, if◌then◌else◌, length-take, arith,
}
use mathlib.Core.List.{reverse}
use remote_access_platform.Memory.{store, load}
use remote_access_platform.Qt.{Text, literal}

abbrev pub stun_magic_cookie_val : ℕ
stun_magic_cookie_val = 0x2112A442

abbrev pub stun_msg_binding_request : ℕ
stun_msg_binding_request = 1

pub record StunMappedAddress : Type 0 where
  pub ip : Text
  pub port : ℕ
  pub is_behind_nat : Bool

-- `htons` or `htonl`, and then `memcpy`: the highest byte comes first.
abbrev pub store_network : ℕ → ℕ → List ℕ
store_network n v = reverse (store n v)

abbrev pub load_network : ℕ → List ℕ → ℕ
load_network n ptr = load n (reverse (take n ptr))

-- `none` is a null pointer; the source reads 12 bytes.
unfoldable pub create_binding_request : Option (List ℕ) → List ℕ
create_binding_request transaction_id =
    store_network 2 stun_msg_binding_request
    ++ (store_network 2 0
        ++ (store_network 4 stun_magic_cookie_val
            ++ (elim transaction_id [ none ↦ replicate 12 0 | some id ↦ take 12 id ])))

abbrev pub no_address : StunMappedAddress
no_address = record { ip = []; port = 0; is_behind_nat = false }

abbrev pub fallback_address : StunMappedAddress
fallback_address = record { ip = literal "127.0.0.1"; port = 18443; is_behind_nat = false }

unfoldable pub parse_binding_response : Option (List ℕ) → StunMappedAddress
parse_binding_response none = no_address
parse_binding_response (some ptr) =
    if ltb (length ptr) 20
    then no_address
    else if not (load_network 4 (drop 4 ptr) == stun_magic_cookie_val)
    then no_address
    else fallback_address

-- A request is itself taken for a response, and every packet that is taken gives the same address.
parse_binding_response-create_binding_request :
    (id : List ℕ)
    → 12 ≤ length id
    → parse_binding_response (some (create_binding_request (some id))) ≡ fallback_address
unfolding parse_binding_response create_binding_request store load
parse_binding_response-create_binding_request id h = ground (arith, length-take 12 id)
