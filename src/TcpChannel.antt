-- ===== src/TcpChannel.antt =====
-- include/grlx/rpc/tcp_channel.hpp: `parse_address`, on the bytes of the text.
pub mod Address
pub mod Endpoint
use grlx_rpc.Prelude.{
  ℕ, suc, ◌+◌, Option, none, some, List, [], ◌∷◌, take, drop, codes, nat_eq, ◌==◌, if◌then◌else◌,
}

abbrev pub colon : ℕ
colon = 58

map_suc : Option ℕ → Option ℕ
map_suc none = none
map_suc (some n) = some (suc n)

-- The place in the rest if there is one there, else the place here.
later : Option ℕ → Option ℕ → Option ℕ
later none here = here
later (some n) here = some (suc n)

-- `string_view::find`, with `none` for `npos`.
pub find : ℕ → List ℕ → Option ℕ
unfolding map_suc
find c [] = none
find c (x ∷ xs) = let rest = find c xs in if x == c then some 0 else map_suc rest

-- `string_view::rfind`.
pub rfind : ℕ → List ℕ → Option ℕ
unfolding later
rfind c [] = none
rfind c (x ∷ xs) = later (rfind c xs) (if x == c then some 0 else none)

-- From the last colon and the first.
split_host : List ℕ → Option ℕ → Option ℕ → List ℕ × List ℕ
split_host address none first = (address, codes "0")
split_host address (some p) none = (address, codes "0")
split_host address (some p) (some q) =
    if p == q then (take p address, drop (p + 1) address) else (address, codes "0")

unfoldable pub parse_address : List ℕ → List ℕ × List ℕ
unfolding split_host find rfind
parse_address address = split_host address (rfind colon address) (find colon address)
