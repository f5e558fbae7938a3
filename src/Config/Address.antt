-- ===== src/Config/Address.antt =====
-- `validAddress` of internal/config/config.go, with what it uses of net and strconv.
use backuply.Base.{
  ℕ, ◌+◌, ◌*◌, ◌-◌, ◌^◌, ◌≡◌, refl, Bool, true, false, ◌&&◌, ◌||◌, not, Option, none, some, [], ◌∷◌,
  ◌=ℕ◌, all, leb, ltb, text_eq, ◌==◌, if◌then◌else◌,
}
use backuply.Base.Int.{ℤ, pos, negsuc}
use backuply.Text.{Text, codes, within}
use backuply.Text.Cut.{cut, cut_last, holds}

-- An address whose host is in brackets: they close right before the last colon.
bracketed_port : Text → Text → Option Text
bracketed_port inside_on port = elim (cut b']' inside_on) [
  | none ↦ none
  | some (inside, after) ↦
      if after == [] && not (holds b'[' inside) && not (holds b'[' port) && not (holds b']' port)
      then some port
      else none
]

plain_port : Text → Text → Option Text
plain_port host port =
    if not (holds b':' host)
      && not (holds b'[' host || holds b'[' port)
      && not (holds b']' host || holds b']' port)
    then some port
    else none

port_behind : Text → Text → Option Text
unfolding bracketed_port plain_port
port_behind [] port = plain_port [] port
port_behind (c ∷ host) port =
    if c =ℕ b'[' then bracketed_port host port else plain_port (c ∷ host) port

-- The port of net.SplitHostPort
unfoldable pub split_port : Text → Option Text
unfolding port_behind
split_port address = elim (cut_last b':' address) [
  | none ↦ none
  | some (host, port) ↦ port_behind host port
]

decimal : ℕ → Text → ℕ
decimal acc [] = acc
decimal acc (c ∷ cs) = decimal (acc * 10 + (c - b'0')) cs

-- Digits, as many as there are, at most a bound
digits : ℕ → Text → Option ℕ
unfolding decimal
digits bound s =
    if not (s == []) && all (within b'0' b'9') s && leb (decimal 0 s) bound
    then some (decimal 0 s)
    else none

negated : ℕ → ℤ
negated n = if n =ℕ 0 then pos 0 else negsuc (n - 1)

-- strconv.Atoi, of a 64-bit `int`
unfoldable pub atoi : Text → Option ℤ
unfolding digits negated
atoi [] = none
atoi (c ∷ cs) =
    let plain = digits (2 ^ 63 - 1) (c ∷ cs) in
    let plus = digits (2 ^ 63 - 1) cs in
    let minus = digits (2 ^ 63) cs in
    if c =ℕ b'+'
    then elim plus [ none ↦ none | some n ↦ some (pos n) ]
    else if c =ℕ b'-'
    then elim minus [ none ↦ none | some n ↦ some (negated n) ]
    else elim plain [ none ↦ none | some n ↦ some (pos n) ]

in_range : Bool → Option ℤ → Bool
in_range allow_zero (some (pos n)) = (ltb 0 n || (allow_zero && n =ℕ 0)) && leb n 65535
in_range allow_zero _ = false

unfoldable pub valid_address : Text → Bool → Bool
unfolding in_range
valid_address address allow_zero = elim (split_port address) [
  | none ↦ false
  | some port ↦ in_range allow_zero (atoi port)
]

valid_address_runs :
    (valid_address (codes "[::1]:80") false ≡ true)
    × (valid_address (codes "host:0") false ≡ false)
    × (valid_address (codes ":0") true ≡ true)
    × (valid_address (codes "::1:80") false ≡ false)
    × (valid_address (codes "host:65536") false ≡ false)
    × (valid_address (codes "[::1]80") false ≡ false)
unfolding valid_address split_port atoi cut cut_last text_eq
valid_address_runs = (refl, refl, refl, refl, refl, refl)
