-- ===== src/Readiness/Examples.antt =====
-- An IPv6 wildcard bind.
use zju_connect_gui.Base.{◌≡◌, ◌⊎◌, ◌++◌, [], refl, true, false, some}
use zju_connect_gui.Text.{codes, contains_char, trim, is_whitespace}
use zju_connect_gui.Readiness.{split_host_port, join_host_port, readiness_dial_address}
use zju_connect_gui.Readiness.Dial.{
  IsHost, IsWildcard, split_host_port-join_host_port, readiness_dial_address_lem,
}

wildcard-IsHost : IsHost (codes "::")
unfolding contains_char
wildcard-IsHost = (λ h. refl, λ h. absurd (clash h))
  where
    clash : true ≡ false → ⊥
    clash h = cc

port-plain : contains_char b':' (codes "8888") ≡ false
unfolding contains_char
port-plain = refl

split_host_port-join_host_port_example :
    split_host_port (join_host_port (codes "::") (codes "8888")) ≡ some (codes "::", codes "8888")
split_host_port-join_host_port_example =
    split_host_port-join_host_port (codes "::") (codes "8888") wildcard-IsHost port-plain

bound : trim (codes " [::]:8888") ≡ join_host_port (codes "::") (codes "8888")
unfolding trim join_host_port contains_char is_whitespace
bound = refl

readiness_dial_address_lem_example :
    (((codes "::" ≡ []) ⊎ (codes "::" ≡ codes "0.0.0.0"))
      × (readiness_dial_address (codes " [::]:8888") ≡ codes "127.0.0.1:" ++ codes "8888"))
    ⊎ ((codes "::" ≡ codes "::")
        × (readiness_dial_address (codes " [::]:8888") ≡ codes "[::1]:" ++ codes "8888"))
    ⊎ (¬ IsWildcard (codes "::")
        × (readiness_dial_address (codes " [::]:8888") ≡ trim (codes " [::]:8888")))
readiness_dial_address_lem_example =
    readiness_dial_address_lem (codes " [::]:8888") (codes "::") (codes "8888") wildcard-IsHost
      port-plain bound
