-- ===== src/Net/HostPort.antt =====
-- net.SplitHostPort; `none` is any of its errors.
use openconnectd.Base.{
  ℕ, suc, ◌-◌, ◌≡◌, refl, ◌||◌, [], ◌∷◌, Option, none, some, Text, codes, take, drop, length,
  is_some, ◌==◌, ap, ◌∙◌, all-append, if◌then◌else◌, Bool, true, false, not, ◌&&◌, all, ◌++◌, arith,
}
use openconnectd.Strings.{
  index_byte, last_index_byte, is_visible, index_byte-none, last_index_byte-split,
}

-- `i` is the place of the last colon; `[` may not stand behind `j`, nor `]` behind `k`.
no_brackets : Text → ℕ → ℕ → ℕ → Text → Option (Text × Text)
no_brackets s i j k host =
    if is_some (index_byte (drop j s) b'[') || is_some (index_byte (drop k s) b']')
    then none
    else some (host, drop (suc i) s)

-- The host stands in brackets, just before the last colon.
bracketed : Text → ℕ → Option (Text × Text)
unfolding no_brackets
bracketed s i = elim (index_byte s b']') [
  | none ↦ none
  | some end ↦
      if suc end == length s
      then none
      else if suc end == i
      then no_brackets s i 1 (suc end) (take (end - 1) (drop 1 s))
      else none
]

split_at : Text → ℕ → Option (Text × Text)
unfolding bracketed
split_at [] i = none
split_at (c ∷ s) i =
    if c == b'['
    then bracketed (c ∷ s) i
    else let host = take i (c ∷ s) in
      if is_some (index_byte host b':') then none else no_brackets (c ∷ s) i 0 0 host

unfoldable pub split_host_port : Text → Option (Text × Text)
unfolding split_at
split_host_port s = elim (last_index_byte s b':') [ none ↦ none | some i ↦ split_at s i ]

host_ports :
    (split_host_port (codes "vpn.example.com:443") ≡ some (codes "vpn.example.com", codes "443"))
    × (split_host_port (codes ":443") ≡ some ([], codes "443"))
    × (split_host_port (codes "[::1]:443") ≡ some (codes "::1", codes "443"))
    × (split_host_port (codes "::1") ≡ none)
    × (split_host_port (codes "[::1]") ≡ none)
    × (split_host_port (codes "[a]b:1") ≡ none)
    × (split_host_port (codes "host") ≡ none)
unfolding split_host_port last_index_byte index_byte
host_ports = (refl, refl, refl, refl, refl, refl, refl)

-- Printable ASCII that is neither a colon nor a bracket.
abbrev pub is_host_byte : ℕ → Bool
is_host_byte c = is_visible c && not (c == b':') && not (c == b'[') && not (c == b']')

drop-length : (b : ℕ) (s t : Text) → drop (suc (length s)) (s ++ b ∷ t) ≡ t
drop-length b [] t = refl
drop-length b (c ∷ s) t = drop-length b s t

take-length : (s t : Text) → take (length s) (s ++ t) ≡ s
take-length [] t = refl
take-length (c ∷ s) t = rw (take-length s t)

pub host_bytes :
    (s : Text)
    → all is_host_byte s ≡ true
    → (all (λ c. not (c == b':')) s ≡ true)
      × (all (λ c. not (c == b'[')) s ≡ true)
      × (all (λ c. not (c == b']')) s ≡ true)
      × (all is_visible s ≡ true)
host_bytes [] h = (refl, refl, refl, refl)
host_bytes (c ∷ s) h = ground (arith, host_bytes s)

no_brackets-plain :
    (s : Text) (i : ℕ) (host : Text)
    → all (λ c. not (c == b'[')) s ≡ true
    → all (λ c. not (c == b']')) s ≡ true
    → no_brackets s i 0 0 host ≡ some (host, drop (suc i) s)
unfolding no_brackets
no_brackets-plain s i host open' close =
    rw (index_byte-none b'[' s open', index_byte-none b']' s close)

split_at-plain :
    (c : ℕ) (s host : Text) (i : ℕ)
    → all (λ c. not (c == b'[')) (c ∷ s) ≡ true
    → all (λ c. not (c == b']')) (c ∷ s) ≡ true
    → take i (c ∷ s) ≡ host
    → all (λ c. not (c == b':')) host ≡ true
    → split_at (c ∷ s) i ≡ some (host, drop (suc i) (c ∷ s))
unfolding split_at
split_at-plain c s host i open' close e colon =
    ground (arith, index_byte-none b':' host colon, no_brackets-plain (c ∷ s) i host open' close)

joined :
    (b : ℕ) (s t : Text)
    → (b':' == b) ≡ false
    → all (λ c. not (c == b)) s ≡ true
    → all (λ c. not (c == b)) t ≡ true
    → all (λ c. not (c == b)) (s ++ b':' ∷ t) ≡ true
joined b s t ne h h' = ground (arith, all-append (λ c. not (c == b)) s (b':' ∷ t))

split_at-join :
    (host port : Text)
    → all is_host_byte host ≡ true
    → all is_host_byte port ≡ true
    → split_at (host ++ b':' ∷ port) (length host) ≡ some (host, port)
split_at-join [] port h p =
    let (_, open', close, _) = host_bytes port p in
    split_at-plain b':' port [] 0 open' close refl refl
split_at-join (c ∷ host) port h p =
    let (colon, open', close, _) = host_bytes (c ∷ host) h in
    let (_, open'', close', _) = host_bytes port p in
    split_at-plain c (host ++ b':' ∷ port) (c ∷ host) (suc (length host))
      (joined b'[' (c ∷ host) port refl open' open'')
      (joined b']' (c ∷ host) port refl close close') (take-length (c ∷ host) (b':' ∷ port)) colon
    ∙ ap (λ t. some (c ∷ host, t)) (drop-length b':' host port)

-- SplitHostPort takes an address without brackets apart at its colon.
pub split_host_port-join :
    (host port : Text)
    → all is_host_byte host ≡ true
    → all is_host_byte port ≡ true
    → split_host_port (host ++ b':' ∷ port) ≡ some (host, port)
unfolding split_host_port
split_host_port-join host port h p =
    let (colon, _, _, _) = host_bytes port p in
    rw (last_index_byte-split b':' host port colon, split_host_port) (split_at-join host port h p)
