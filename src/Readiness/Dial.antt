-- ===== src/Readiness/Dial.antt =====
-- Which address is dialled for which bind address.
use zju_connect_gui.Base.{
  ℕ, ◌≡◌, refl, [], ◌∷◌, ◌++◌, true, false, none, some, arith, ◌∙◌, ap, Bool-cases, inl, inr, ◌⊎◌,
  sym,
}
use zju_connect_gui.Text.{
  Text, codes, is_empty, trim, contains_char, strip_prefix, text_eq, split_once, rsplit_once,
}
use zju_connect_gui.Text.Laws.{text_eq_iff}
use zju_connect_gui.Readiness.{
  split_stripped, split_host_port, dial_host, join_host_port, readiness_dial_address,
}

split_once-append :
    (b : ℕ) (s t : Text) → contains_char b s ≡ false → split_once b (s ++ b ∷ t) ≡ some (s, t)
unfolding split_once contains_char
split_once-append b [] t h = ground arith
split_once-append b (c ∷ s) t h = ground (arith, split_once-append b s t)

rsplit_once_absent : (b : ℕ) (s : Text) → contains_char b s ≡ false → rsplit_once b s ≡ none
unfolding rsplit_once contains_char
rsplit_once_absent b [] h = refl
rsplit_once_absent b (c ∷ s) h = ground (arith, rsplit_once_absent b s)

rsplit_once-append :
    (b : ℕ) (s t : Text) → contains_char b t ≡ false → rsplit_once b (s ++ b ∷ t) ≡ some (s, t)
unfolding rsplit_once
rsplit_once-append b [] t h = ground (arith, rsplit_once_absent b t)
rsplit_once-append b (c ∷ s) t h = ground (arith, rsplit_once-append b s t)

-- A host as it stands in a bind address: with a colon it is bracketed, and then holds no bracket;
-- without one it does not begin with a bracket.
abbrev pub IsHost : Text → Type 0
IsHost host =
    (contains_char b':' host ≡ true → contains_char b']' host ≡ false)
    × (contains_char b':' host ≡ false → strip_prefix (codes "[") host ≡ none)

no_bracket-append :
    (host port : Text)
    → strip_prefix (codes "[") host ≡ none
    → strip_prefix (codes "[") (host ++ b':' ∷ port) ≡ none
unfolding strip_prefix
no_bracket-append [] port h = ground arith
no_bracket-append (c ∷ host) port h = ground arith

split_host_port-bracketed :
    (host port : Text)
    → contains_char b']' host ≡ false
    → split_host_port (codes "[" ++ (host ++ (codes "]:" ++ port))) ≡ some (host, port)
unfolding split_host_port strip_prefix
split_host_port-bracketed host port h = rw (split_once-append b']' host (codes ":" ++ port) h)

split_host_port-plain :
    (host port : Text)
    → strip_prefix (codes "[") host ≡ none
    → contains_char b':' host ≡ false
    → contains_char b':' port ≡ false
    → split_host_port (host ++ (codes ":" ++ port)) ≡ some (host, port)
unfolding split_host_port
split_host_port-plain host port bare plain h =
    ap (split_stripped (host ++ (codes ":" ++ port))) (no_bracket-append host port bare)
    ∙ rw (rsplit_once-append b':' host port h, plain)

-- A host and a port that are joined are split again, for a port without a colon and a host that has
-- no closing bracket if it holds a colon, and does not start with a bracket if it holds none.
pub split_host_port-join_host_port :
    (host port : Text)
    → IsHost host
    → contains_char b':' port ≡ false
    → split_host_port (join_host_port host port) ≡ some (host, port)
unfolding join_host_port
split_host_port-join_host_port host port h no_colon = elim (Bool-cases (contains_char b':' host)) [
  | inl colon ↦ rw colon (split_host_port-bracketed host port (h.0 colon))
  | inr plain ↦ rw plain (split_host_port-plain host port (h.1 plain) plain no_colon)
]

join-IsSome : (host port : Text) → is_empty (join_host_port host port) ≡ false
unfolding join_host_port is_empty
join-IsSome [] port = unfold contains_char in refl
join-IsSome (c ∷ host) port = elim (Bool-cases (contains_char b':' (c ∷ host))) [
  | inl colon ↦ rw colon
  | inr plain ↦ rw plain
]

-- The wildcard hosts.
abbrev pub IsWildcard : Text → Type 0
IsWildcard host = (host ≡ []) ⊎ (host ≡ codes "0.0.0.0") ⊎ (host ≡ codes "::")

-- The host that is dialled for each host.
dial_host_cases :
    (host : Text)
    → (((host ≡ []) ⊎ (host ≡ codes "0.0.0.0")) × (dial_host host ≡ codes "127.0.0.1"))
      ⊎ ((host ≡ codes "::") × (dial_host host ≡ codes "::1"))
      ⊎ (¬ IsWildcard host × (dial_host host ≡ host))
unfolding dial_host is_empty
dial_host_cases [] = inl (inl refl, refl)
dial_host_cases (c ∷ cs) =
    let host = c ∷ cs in
    elim (Bool-cases (text_eq host (codes "0.0.0.0"))) [
      | inl v4 ↦ inl (inr ((text_eq_iff host (codes "0.0.0.0")).0 v4), rw v4 refl)
      | inr not_v4 ↦ elim (Bool-cases (text_eq host (codes "::"))) [
        | inl v6 ↦ inr (inl ((text_eq_iff host (codes "::")).0 v6, rw (not_v4, v6) refl))
        | inr not_v6 ↦ inr (
            inr (
              ground (arith, text_eq_iff host (codes "0.0.0.0"), text_eq_iff host (codes "::")),
              rw (not_v4, not_v6) refl,
            ))
      ]
    ]

-- What a bind address `host:port` or `[host]:port` makes the program dial, blanks around it left out:
-- 127.0.0.1 with the port where the host is empty or 0.0.0.0, [::1] with the port where it is `::`, and
-- the very address where it is any other; for a port without a colon and a host that has no closing
-- bracket if it holds a colon, and does not start with a bracket if it holds none.
pub readiness_dial_address_lem :
    (bind host port : Text)
    → IsHost host
    → contains_char b':' port ≡ false
    → trim bind ≡ join_host_port host port
    → (((host ≡ []) ⊎ (host ≡ codes "0.0.0.0"))
        × (readiness_dial_address bind ≡ codes "127.0.0.1:" ++ port))
      ⊎ ((host ≡ codes "::") × (readiness_dial_address bind ≡ codes "[::1]:" ++ port))
      ⊎ (¬ IsWildcard host × (readiness_dial_address bind ≡ trim bind))
readiness_dial_address_lem bind host port h no_colon e = elim (dial_host_cases host) [
  | inl (v4, dialled) ↦ inl (v4, dial ∙ (at dialled ∙ loopback))
  | inr (inl (v6, dialled)) ↦ inr (inl (v6, dial ∙ (at dialled ∙ loopback_v6)))
  | inr (inr (other, dialled)) ↦ inr (inr (other, dial ∙ (at dialled ∙ sym e)))
]
  where
    dial : readiness_dial_address bind ≡ join_host_port (dial_host host) port
    dial =
        unfold readiness_dial_address in
        rw (e, join-IsSome host port, split_host_port-join_host_port host port h no_colon)

    at :
        {dialled : Text}
        → dial_host host ≡ dialled
        → join_host_port (dial_host host) port ≡ join_host_port dialled port
    at d = ap (λ x. join_host_port x port) d

    loopback : join_host_port (codes "127.0.0.1") port ≡ codes "127.0.0.1:" ++ port
    loopback = unfold join_host_port contains_char in refl

    loopback_v6 : join_host_port (codes "::1") port ≡ codes "[::1]:" ++ port
    loopback_v6 = unfold join_host_port contains_char in refl

-- No host is dialled as a wildcard: neither the empty one, nor 0.0.0.0, nor ::.
not-IsWildcard-dial_host : (host : Text) → ¬ IsWildcard (dial_host host)
unfolding dial_host is_empty
not-IsWildcard-dial_host host =
    ground (arith, text_eq_iff host (codes "0.0.0.0"), text_eq_iff host (codes "::"))
