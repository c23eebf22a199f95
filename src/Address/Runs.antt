-- ===== src/Address/Runs.antt =====
-- Runs of the masks of addresses.
use server_framework_learnin.Prelude.{◌≡◌, some, done, arith}
use server_framework_learnin.Address.{broadcast_address4, netword_address4, subnet_mask4}
use server_framework_learnin.Address.Masks.{ipv4_lem}

-- 192.168.1.9 in a network of 24 bits.
ipv4_lem_example :
    (broadcast_address4 24 0xc0a80109 ≡ done (some 0xc0a801ff))
    × (netword_address4 24 0xc0a80109 ≡ done (some 9))
    × (subnet_mask4 24 ≡ done 0xffffff00)
ipv4_lem_example = ipv4_lem 24 0xc0a801 9 (omega arith) (omega arith) (omega arith)
