-- ===== src/Stream/Url.antt =====
-- internal/eventstream: the address of an org's stream, `wsURL` of conn.go, with the server's URL as
-- `NewManager` keeps it. Go's strings are bytes, so a text is here the list of its bytes; what the
-- program uses of Go's strings, strconv and net/url is written out.
pub mod Reading
pub mod Laws
use Prim.Native.Nat.{◌/◌, ◌%◌}
use Prim.Native.Char.{code}
use clavex_operator.Prelude.{
  ℕ, zero, suc, ◌+◌, ◌-◌, String, Bool, true, false, List, [], ◌∷◌, ◌++◌, Option, none, some, not,
  ◌&&◌, ◌||◌, ◌==◌, ltb, leb, if◌then◌else◌,
}

abbrev pub Bytes : Type 0
Bytes = List ℕ

-- The bytes of an ASCII text.
unfoldable pub ascii : String → Bytes
ascii String.[] = []
ascii (String.◌∷◌ c s) = code c ∷ ascii s

-- `strings.HasPrefix` and `strings.TrimPrefix` in one: what follows the prefix, if it is there.
unfoldable pub after_prefix : Bytes → Bytes → Option Bytes
after_prefix [] s = some s
after_prefix (p ∷ ps) [] = none
after_prefix (p ∷ ps) (c ∷ s) = if p == c then after_prefix ps s else none

abbrev pub slash : ℕ
slash = 47

abbrev pub percent : ℕ
percent = 37

abbrev pub is_empty : Bytes → Bool
is_empty [] = true
is_empty (c ∷ s) = false

-- `strings.TrimRight(serverURL, "/")`
unfoldable pub trim_slashes : Bytes → Bytes
trim_slashes [] = []
trim_slashes (c ∷ s) = let t = trim_slashes s in if is_empty t && c == slash then [] else c ∷ t

-- `strconv.Itoa`, of a number that is not negative; each step takes one digit, so the number itself
-- is fuel enough.
unfoldable pub decimal : ℕ → ℕ → Bytes
decimal zero n = []
decimal (suc fuel) n =
    let rest = decimal fuel (n / 10) in
    if ltb n 10 then (48 + n) ∷ [] else rest ++ ((48 + n % 10) ∷ [])

abbrev pub itoa : ℕ → Bytes
itoa n = decimal (suc n) n

abbrev pub is_in : ℕ → ℕ → ℕ → Bool
is_in low high c = leb low c && leb c high

-- The bytes that `url.PathEscape` leaves as they are: letters, digits, `-`, `_`, `.`, `~`, and `$`,
-- `&`, `+`, `:`, `=`, `@`.
unfoldable pub is_kept : ℕ → Bool
is_kept c =
    is_in 97 122 c
    || is_in 65 90 c
    || is_in 48 57 c
    || c == 45
    || c == 95
    || c == 46
    || c == 126
    || c == 36
    || c == 38
    || c == 43
    || c == 58
    || c == 61
    || c == 64

abbrev pub hex_digit : ℕ → ℕ
hex_digit d = if ltb d 10 then 48 + d else 55 + d

unfoldable pub escape_byte : ℕ → Bytes
unfolding is_kept
escape_byte c = if is_kept c then c ∷ [] else percent ∷ hex_digit (c / 16) ∷ hex_digit (c % 16) ∷ []

-- `url.PathEscape`
unfoldable pub path_escape : Bytes → Bytes
unfolding escape_byte
path_escape [] = []
path_escape (c ∷ s) = escape_byte c ++ path_escape s

abbrev pub or_next : Option Bytes → String → Option Bytes → Option Bytes
or_next none scheme next = next
or_next (some rest) scheme next = some (ascii scheme ++ rest)

abbrev pub or_same : Option Bytes → Bytes → Option Bytes → Option Bytes
or_same none base next = next
or_same (some rest) base next = some base

-- The switch over the scheme; none is its error.
unfoldable pub ws_base : Bytes → Option Bytes
unfolding ascii after_prefix
ws_base base = or_next (after_prefix (ascii "https://") base) "wss://" (
    or_next (after_prefix (ascii "http://") base) "ws://" (
      or_same (after_prefix (ascii "wss://") base) base
        (or_same (after_prefix (ascii "ws://") base) base none)))

-- `wsURL`, by the manager's `serverURL` and `replayCount` and the connection's slug.
unfoldable pub ws_url : Bytes → ℕ → Bytes → Option Bytes
unfolding ws_base path_escape ascii decimal
ws_url server_url replay_count slug = elim (ws_base server_url) [
  | none ↦ none
  | some base ↦
      some (base ++ (slash ∷ (path_escape slug ++ (ascii "/events?replay=" ++ itoa replay_count))))
]
