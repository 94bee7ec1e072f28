-- ===== src/Network.antt =====
-- The Bitcoin networks that an event may name (src/network.rs).
use bestiario.Prelude.{◌≡◌, ◌↔◌, String, Option, none, some, arith, eq_iff, str_eq, if◌then◌else◌}

pub data Network : Type 0 where
  mainnet testnet signet regtest : Network

unfoldable pub as_str : Network → String
as_str mainnet = "mainnet"
as_str testnet = "testnet"
as_str signet = "signet"
as_str regtest = "regtest"

unfoldable pub from_wire : String → Option Network
from_wire wire =
    if str_eq wire "mainnet"
    then some mainnet
    else if str_eq wire "testnet"
    then some testnet
    else if str_eq wire "signet"
    then some signet
    else if str_eq wire "regtest"
    then some regtest
    else none

pub Network-discrete : Discrete Network
Network-discrete = hlevel

-- `from_wire` answers with a network exactly for the text that `as_str` writes for that network,
-- and refuses every other text.
pub from_wire_exact : (wire : String) (n : Network) → (from_wire wire ≡ some n) ↔ (wire ≡ as_str n)
unfolding from_wire as_str
from_wire_exact wire mainnet = (
  ground (
    arith,
    eq_iff wire "mainnet",
    eq_iff wire "testnet",
    eq_iff wire "signet",
    eq_iff wire "regtest",
  ),
  λ h. rw h,
)
from_wire_exact wire testnet = (
  ground (
    arith,
    eq_iff wire "mainnet",
    eq_iff wire "testnet",
    eq_iff wire "signet",
    eq_iff wire "regtest",
  ),
  λ h. rw h,
)
from_wire_exact wire signet = (
  ground (
    arith,
    eq_iff wire "mainnet",
    eq_iff wire "testnet",
    eq_iff wire "signet",
    eq_iff wire "regtest",
  ),
  λ h. rw h,
)
from_wire_exact wire regtest = (
  ground (
    arith,
    eq_iff wire "mainnet",
    eq_iff wire "testnet",
    eq_iff wire "signet",
    eq_iff wire "regtest",
  ),
  λ h. rw h,
)
